-- ===== src/PipelineConfig/Texts.antt =====
-- The messages that say an action is not supported, for `isFallbackError` of client/pipeline.go: what
-- is left of a message without its case, quotes, colons, outer periods, repeated spaces and target.
use p4runtime_go_controller.Common.{
  ℕ, ◌≡◌, ◌↔◌, refl, ap₂, true, List, [], ◌∷◌, ◌++◌, any, arith, inl, inr, or-cases,
}
use p4runtime_go_controller.Common.Text.{codes, to_lower, same_text}
use p4runtime_go_controller.PipelineConfig.Message.{
  SetPipelineAction, action_name, replace_quotes, squeeze, trim, without_target, subjects,
  says_unsupported, names_unsupported_action,
}

abbrev pub cleaned : List ℕ → List ℕ
cleaned message = without_target (trim (squeeze (replace_quotes (to_lower message))))

-- The ways to speak of an action with a name in lower case.
pub data IsSubject (name : List ℕ) (subject : List ℕ) : Type 0 where
  some_action : subject ≡ codes "action" → IsSubject name subject
  by_name : subject ≡ name → IsSubject name subject
  action_by_name : subject ≡ codes "action " ++ name → IsSubject name subject
  rpc_action : subject ≡ codes "setforwardingpipelineconfig action" → IsSubject name subject
  rpc_action_by_name :
      subject ≡ codes "setforwardingpipelineconfig action " ++ name → IsSubject name subject

-- The ways to say that a subject is not supported.
pub data Denies (subject : List ℕ) (text : List ℕ) : Type 0 where
  unsupported_first : text ≡ codes "unsupported " ++ subject → Denies subject text
  not_supported : text ≡ subject ++ codes " not supported" → Denies subject text
  is_not_supported : text ≡ subject ++ codes " is not supported" → Denies subject text
  unsupported_last : text ≡ subject ++ codes " unsupported" → Denies subject text
  is_unsupported : text ≡ subject ++ codes " is unsupported" → Denies subject text

abbrev pub NamesUnsupported : List ℕ → SetPipelineAction → Type 0
NamesUnsupported message act =
    (subject : List ℕ) × IsSubject (to_lower (action_name act)) subject
    × Denies subject (cleaned message)

same_text_sound : (s t : List ℕ) → same_text s t ≡ true → s ≡ t
unfolding same_text
same_text_sound [] [] h = refl
same_text_sound [] (d ∷ t) h = cc
same_text_sound (c ∷ s) [] h = cc
same_text_sound (c ∷ s) (d ∷ t) h =
    ap₂ (λ a (r : List ℕ). a ∷ r) (ground arith) (same_text_sound s t (ground arith))

same_text_refl : (s : List ℕ) → same_text s s ≡ true
unfolding same_text
same_text_refl [] = refl
same_text_refl (c ∷ s) = ground (arith, same_text_refl s)

same_text_complete : (s t : List ℕ) → s ≡ t → same_text s t ≡ true
same_text_complete s t e = rw e (same_text_refl t)

says_unsupported-Denies :
    (text subject : List ℕ) → says_unsupported text subject ≡ true → Denies subject text
says_unsupported-Denies text subject h = elim (or-cases _ _ h) [
  | inl x ↦ elim (or-cases _ _ x) [
    | inl y ↦ elim (or-cases _ _ y) [
      | inl z ↦ elim (or-cases _ _ z) [
        | inl u ↦ unsupported_first (same_text_sound text (codes "unsupported " ++ subject) u)
        | inr u ↦ not_supported (same_text_sound text (subject ++ codes " not supported") u)
      ]
      | inr z ↦ is_not_supported (same_text_sound text (subject ++ codes " is not supported") z)
    ]
    | inr y ↦ unsupported_last (same_text_sound text (subject ++ codes " unsupported") y)
  ]
  | inr x ↦ is_unsupported (same_text_sound text (subject ++ codes " is unsupported") x)
]

Denies-says_unsupported :
    {subject text : List ℕ} → Denies subject text → says_unsupported text subject ≡ true
Denies-says_unsupported {subject = s} {text = t} (unsupported_first e) =
    ground (arith, same_text_complete t (codes "unsupported " ++ s) e)
Denies-says_unsupported {subject = s} {text = t} (not_supported e) =
    ground (arith, same_text_complete t (s ++ codes " not supported") e)
Denies-says_unsupported {subject = s} {text = t} (is_not_supported e) =
    ground (arith, same_text_complete t (s ++ codes " is not supported") e)
Denies-says_unsupported {subject = s} {text = t} (unsupported_last e) =
    ground (arith, same_text_complete t (s ++ codes " unsupported") e)
Denies-says_unsupported {subject = s} {text = t} (is_unsupported e) =
    ground (arith, same_text_complete t (s ++ codes " is unsupported") e)

any-Denies :
    (text name : List ℕ)
    → any (says_unsupported text) (subjects name) ≡ true
    → (subject : List ℕ) × IsSubject name subject × Denies subject text
any-Denies text name h = elim (or-cases _ _ h) [
  | inl x ↦ (codes "action", some_action refl, says_unsupported-Denies text _ x)
  | inr x ↦ elim (or-cases _ _ x) [
    | inl y ↦ (name, by_name refl, says_unsupported-Denies text _ y)
    | inr y ↦ elim (or-cases _ _ y) [
      | inl z ↦ (codes "action " ++ name, action_by_name refl, says_unsupported-Denies text _ z)
      | inr z ↦ elim (or-cases _ _ z) [
        | inl u ↦ (
          codes "setforwardingpipelineconfig action",
          rpc_action refl,
          says_unsupported-Denies text _ u,
        )
        | inr u ↦ elim (or-cases _ _ u) [
          | inl v ↦ (
            codes "setforwardingpipelineconfig action " ++ name,
            rpc_action_by_name refl,
            says_unsupported-Denies text _ v,
          )
          | inr v ↦ absurd (cc)
        ]
      ]
    ]
  ]
]

Denies-any :
    (text name : List ℕ) {subject : List ℕ}
    → IsSubject name subject
    → says_unsupported text subject ≡ true
    → any (says_unsupported text) (subjects name) ≡ true
Denies-any text name (some_action e) h = ground (arith, rw e at h)
Denies-any text name (by_name e) h = ground (arith, rw e at h)
Denies-any text name (action_by_name e) h = ground (arith, rw e at h)
Denies-any text name (rpc_action e) h = ground (arith, rw e at h)
Denies-any text name (rpc_action_by_name e) h = ground (arith, rw e at h)

pub names_unsupported_action-NamesUnsupported :
    (message : List ℕ) (act : SetPipelineAction)
    → (names_unsupported_action message act ≡ true) ↔ NamesUnsupported message act
unfolding names_unsupported_action
names_unsupported_action-NamesUnsupported message act = (
  any-Denies (cleaned message) (to_lower (action_name act)),
  λ h.
      Denies-any (cleaned message) (to_lower (action_name act)) (h.1)
        (Denies-says_unsupported (h.2)),
)
