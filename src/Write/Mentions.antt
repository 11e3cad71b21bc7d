-- ===== src/Write/Mentions.antt =====
-- What errors/write.go looks for in the message of a status.
use p4runtime_go_controller.Common.{
  ℕ, ◌≡◌, ◌↔◌, refl, ap, ◌∙◌, true, false, List, [], ◌∷◌, ◌++◌, arith, Bool-cases, inl, inr,
  or-cases,
}
use p4runtime_go_controller.Common.Text.{has_prefix, contains, codes}
use p4runtime_go_controller.Write.{not_primary_text, no_pipeline_text}

-- The text stands somewhere in the message.
abbrev pub Mentions : List ℕ → List ℕ → Type 0
Mentions m text = (before : List ℕ) × (after : List ℕ) × (m ≡ before ++ text ++ after)

has_prefix_sound : (s p : List ℕ) → has_prefix s p ≡ true → (after : List ℕ) × (s ≡ p ++ after)
unfolding has_prefix
has_prefix_sound s [] h = (s, refl)
has_prefix_sound [] (c ∷ p) h = cc
has_prefix_sound (d ∷ s) (c ∷ p) h =
    let (after, same) = has_prefix_sound s p (ground arith) in (after, ground (arith, same))

has_prefix-append : (p after : List ℕ) → has_prefix (p ++ after) p ≡ true
unfolding has_prefix
has_prefix-append [] after = refl
has_prefix-append (c ∷ p) after = ground (arith, has_prefix-append p after)

contains_sound : (m text : List ℕ) → contains m text ≡ true → Mentions m text
unfolding contains
contains_sound [] text h = let (after, same) = has_prefix_sound [] text h in ([], after, same)
contains_sound (c ∷ m) text h = elim (Bool-cases (has_prefix (c ∷ m) text)) [
  | inl e ↦ let (after, same) = has_prefix_sound (c ∷ m) text e in ([], after, same)
  | inr e ↦
      let (before, after, same) = contains_sound m text (ground arith) in
      (c ∷ before, after, ap (λ (r : List ℕ). c ∷ r) same)
]

prefix-contains : (m text : List ℕ) → has_prefix m text ≡ true → contains m text ≡ true
unfolding contains
prefix-contains [] text h = h
prefix-contains (c ∷ m) text h = ground arith

contains-append : (before text after : List ℕ) → contains (before ++ text ++ after) text ≡ true
unfolding contains
contains-append [] text after = prefix-contains (text ++ after) text (has_prefix-append text after)
contains-append (c ∷ before) text after = ground (arith, contains-append before text after)

contains-Mentions : (m text : List ℕ) → (contains m text ≡ true) ↔ Mentions m text
contains-Mentions m text = (
  contains_sound m text,
  λ h.
      let (before, after, same) = h in
      ap (λ s. contains s text) same ∙ contains-append before text after,
)

-- What a message in lower case says: that the client is not primary.
pub data SaysNotPrimary (m : List ℕ) : Type 0 where
  is_not_primary : Mentions m (codes "not primary") → SaysNotPrimary m
  is_not_the_primary : Mentions m (codes "not the primary") → SaysNotPrimary m
  is_no_longer_primary : Mentions m (codes "no longer primary") → SaysNotPrimary m

-- That the device has no pipeline.
pub data SaysNoPipeline (m : List ℕ) : Type 0 where
  no_forwarding_config : Mentions m (codes "no forwarding pipeline config set") → SaysNoPipeline m
  no_config : Mentions m (codes "no pipeline config set") → SaysNoPipeline m
  not_set : Mentions m (codes "pipeline not set") → SaysNoPipeline m
  is_not_set : Mentions m (codes "pipeline is not set") → SaysNoPipeline m
  not_configured : Mentions m (codes "pipeline not configured") → SaysNoPipeline m

pub text-SaysNotPrimary : (m : List ℕ) → not_primary_text m ≡ true → SaysNotPrimary m
text-SaysNotPrimary m h = elim (or-cases _ _ h) [
  | inl x ↦ elim (or-cases _ _ x) [
    | inl y ↦ is_not_primary ((contains-Mentions m (codes "not primary")).0 y)
    | inr y ↦ is_not_the_primary ((contains-Mentions m (codes "not the primary")).0 y)
  ]
  | inr x ↦ is_no_longer_primary ((contains-Mentions m (codes "no longer primary")).0 x)
]

pub text-SaysNoPipeline : (m : List ℕ) → no_pipeline_text m ≡ true → SaysNoPipeline m
text-SaysNoPipeline m h = elim (or-cases _ _ h) [
  | inl x ↦ elim (or-cases _ _ x) [
    | inl y ↦ elim (or-cases _ _ y) [
      | inl z ↦ elim (or-cases _ _ z) [
        | inl u ↦
            no_forwarding_config
              ((contains-Mentions m (codes "no forwarding pipeline config set")).0 u)
        | inr u ↦ no_config ((contains-Mentions m (codes "no pipeline config set")).0 u)
      ]
      | inr z ↦ not_set ((contains-Mentions m (codes "pipeline not set")).0 z)
    ]
    | inr y ↦ is_not_set ((contains-Mentions m (codes "pipeline is not set")).0 y)
  ]
  | inr x ↦ not_configured ((contains-Mentions m (codes "pipeline not configured")).0 x)
]

pub SaysNotPrimary-text : (m : List ℕ) → SaysNotPrimary m → not_primary_text m ≡ true
SaysNotPrimary-text m (is_not_primary h) = ground (arith, (contains-Mentions m _).1 h)
SaysNotPrimary-text m (is_not_the_primary h) = ground (arith, (contains-Mentions m _).1 h)
SaysNotPrimary-text m (is_no_longer_primary h) = ground (arith, (contains-Mentions m _).1 h)

pub SaysNoPipeline-text : (m : List ℕ) → SaysNoPipeline m → no_pipeline_text m ≡ true
SaysNoPipeline-text m (no_forwarding_config h) = ground (arith, (contains-Mentions m _).1 h)
SaysNoPipeline-text m (no_config h) = ground (arith, (contains-Mentions m _).1 h)
SaysNoPipeline-text m (not_set h) = ground (arith, (contains-Mentions m _).1 h)
SaysNoPipeline-text m (is_not_set h) = ground (arith, (contains-Mentions m _).1 h)
SaysNoPipeline-text m (not_configured h) = ground (arith, (contains-Mentions m _).1 h)

pub not_said : (m : List ℕ) → ¬ SaysNotPrimary m → not_primary_text m ≡ false
not_said m n = elim (Bool-cases (not_primary_text m)) [
  | inl e ↦ absurd (n (text-SaysNotPrimary m e))
  | inr e ↦ e
]
