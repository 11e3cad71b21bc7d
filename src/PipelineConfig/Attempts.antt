-- ===== src/PipelineConfig/Attempts.antt =====
-- The loop over the actions of SetPipeline in client/pipeline.go, against what the target answers.
use p4runtime_go_controller.Common.{
  ◌≡◌, ◌≢◌, refl, ap, ◌∙◌, Bool, true, false, List, [], ◌∷◌, Option, none, some, arith, Bool-cases,
  inl, inr, ◌==◌,
}
use p4runtime_go_controller.Common.Errors.{Error}
use p4runtime_go_controller.Write.{Status, Reply, accepted, rejected, broken}
use p4runtime_go_controller.PipelineConfig.Message.{
  SetPipelineAction, unspecified, verify, verify_and_save, verify_and_commit, commit,
  reconcile_and_commit, other_action, names_unsupported_action,
}
use p4runtime_go_controller.PipelineConfig.{
  SetPipelineResult, Failure, failed, is_fallback_error, actions_of, try_action, try_actions, after,
}
use p4runtime_go_controller.PipelineConfig.Texts.{
  NamesUnsupported, names_unsupported_action-NamesUnsupported,
}

-- An answer that says the action is not supported: UNIMPLEMENTED, or INVALID_ARGUMENT with a
-- message that says so of the action.
pub data SaysUnsupported (act : SetPipelineAction) : Reply → Type 0 where
  by_code : {st : Status} → st.code ≡ 12 → SaysUnsupported act (rejected st)
  by_text :
      {st : Status}
      → st.code ≡ 3
      → NamesUnsupported st.message act
      → SaysUnsupported act (rejected st)

-- The outcomes of an attempt: the target accepts it, says it is unsupported, or fails otherwise.
pub data Attempt (act : SetPipelineAction) (r : Reply) : Type 0 where
  accepts : r ≡ accepted → Attempt act r
  lacks : r ≢ accepted → SaysUnsupported act r → is_fallback_error r act ≡ true → Attempt act r
  fails : r ≢ accepted → ¬ SaysUnsupported act r → is_fallback_error r act ≡ false → Attempt act r

rejected-Attempt : (act : SetPipelineAction) (st : Status) → Attempt act (rejected st)
unfolding is_fallback_error
rejected-Attempt act st = elim (Bool-cases (st.code == 12)) [
  | inl e ↦ lacks (cc) (by_code {st = st} (ground arith)) (ground arith)
  | inr e ↦ elim (Bool-cases (st.code == 3)) [
    | inl f ↦ elim (Bool-cases (names_unsupported_action st.message act)) [
      | inl g ↦
          lacks (cc)
            (by_text {st = st} (ground arith)
              ((names_unsupported_action-NamesUnsupported st.message act).0 g))
            (ground arith)
      | inr g ↦ fails (cc) (no_text e g) (ground arith)
    ]
    | inr f ↦ fails (cc) (no_code e f) (ground arith)
  ]
]
  where
    no_text :
        (st.code == 12) ≡ false
        → names_unsupported_action st.message act ≡ false
        → ¬ SaysUnsupported act (rejected st)
    no_text e g (by_code c) = ground arith
    no_text e g (by_text c t) =
        ground (arith, (names_unsupported_action-NamesUnsupported st.message act).1 t)

    no_code : (st.code == 12) ≡ false → (st.code == 3) ≡ false → ¬ SaysUnsupported act (rejected st)
    no_code e f (by_code c) = ground arith
    no_code e f (by_text c t) = ground arith

broken-SaysUnsupported : (act : SetPipelineAction) (e : Error) → ¬ SaysUnsupported act (broken e)
broken-SaysUnsupported act e h = elim h [ ]

attempt : (act : SetPipelineAction) (r : Reply) → Attempt act r
unfolding is_fallback_error
attempt act accepted = accepts refl
attempt act (rejected st) = rejected-Attempt act st
attempt act (broken e) = fails (cc) (broken-SaysUnsupported act e) refl

pub data CanFallBack : SetPipelineAction → Bool → Type 0 where
  may : CanFallBack verify_and_commit false

-- The result and the error, by what the target answers to the first action and to the second.
pub data Answered (a : SetPipelineAction) (no_fallback : Bool) (rpc : SetPipelineAction → Reply)
    (out : SetPipelineResult × Option Failure) : Type 0 where
  first_accepted :
      rpc a ≡ accepted
      → out ≡ (record { action = a; attempted = a ∷ [] }, none)
      → Answered a no_fallback rpc out
  first_failed :
      rpc a ≢ accepted
      → ¬ SaysUnsupported a (rpc a)
      → out ≡ (record { action = unspecified; attempted = a ∷ [] }, some (failed a false (rpc a)))
      → Answered a no_fallback rpc out
  first_unsupported :
      SaysUnsupported a (rpc a)
      → ¬ CanFallBack a no_fallback
      → out ≡ (record { action = unspecified; attempted = a ∷ [] }, some (failed a true (rpc a)))
      → Answered a no_fallback rpc out
  second_accepted :
      SaysUnsupported a (rpc a)
      → CanFallBack a no_fallback
      → rpc reconcile_and_commit ≡ accepted
      → out ≡ (
        record { action = reconcile_and_commit; attempted = a ∷ reconcile_and_commit ∷ [] },
        none,
      )
      → Answered a no_fallback rpc out
  second_failed :
      SaysUnsupported a (rpc a)
      → CanFallBack a no_fallback
      → rpc reconcile_and_commit ≢ accepted
      → ¬ SaysUnsupported reconcile_and_commit (rpc reconcile_and_commit)
      → out ≡ (
        record { action = unspecified; attempted = a ∷ reconcile_and_commit ∷ [] },
        some (failed reconcile_and_commit false (rpc reconcile_and_commit)),
      )
      → Answered a no_fallback rpc out
  second_unsupported :
      SaysUnsupported a (rpc a)
      → CanFallBack a no_fallback
      → SaysUnsupported reconcile_and_commit (rpc reconcile_and_commit)
      → out ≡ (
        record { action = unspecified; attempted = a ∷ reconcile_and_commit ∷ [] },
        some (failed reconcile_and_commit true (rpc reconcile_and_commit)),
      )
      → Answered a no_fallback rpc out

last_try :
    (act : SetPipelineAction) (r : Reply) (b : Bool)
    (continued : SetPipelineResult × Option Failure)
    → r ≢ accepted
    → is_fallback_error r act ≡ b
    → try_action act [] r continued
      ≡ (record { action = unspecified; attempted = act ∷ [] }, some (failed act b r))
unfolding try_action
last_try act accepted b continued n e = absurd (n refl)
last_try act (rejected st) b continued n e = ground arith
last_try act (broken x) b continued n e = ground arith

next_try :
    (act next : SetPipelineAction) (rest : List SetPipelineAction) (r : Reply)
    (continued : SetPipelineResult × Option Failure)
    → r ≢ accepted
    → is_fallback_error r act ≡ true
    → try_action act (next ∷ rest) r continued ≡ after act continued
unfolding try_action
next_try act next rest accepted continued n e = absurd (n refl)
next_try act next rest (rejected st) continued n e = ground arith
next_try act next rest (broken x) continued n e = ground arith

no_next_try :
    (act next : SetPipelineAction) (rest : List SetPipelineAction) (r : Reply)
    (continued : SetPipelineResult × Option Failure)
    → r ≢ accepted
    → is_fallback_error r act ≡ false
    → try_action act (next ∷ rest) r continued
      ≡ (record { action = unspecified; attempted = act ∷ [] }, some (failed act false r))
unfolding try_action
no_next_try act next rest accepted continued n e = absurd (n refl)
no_next_try act next rest (rejected st) continued n e = ground arith
no_next_try act next rest (broken x) continued n e = ground arith

accepted_try :
    (act : SetPipelineAction) (rest : List SetPipelineAction) (r : Reply)
    (continued : SetPipelineResult × Option Failure)
    → r ≡ accepted
    → try_action act rest r continued ≡ (record { action = act; attempted = act ∷ [] }, none)
unfolding try_action
accepted_try act rest r continued e = rw e refl

module _ (rpc : SetPipelineAction → Reply) where
  one-Answered :
      (a : SetPipelineAction) (no_fallback : Bool)
      → ¬ CanFallBack a no_fallback
      → Answered a no_fallback rpc (try_actions (a ∷ []) rpc)
  unfolding try_actions
  one-Answered a no_fallback n = elim (attempt a (rpc a)) [
    | accepts e ↦ first_accepted e (accepted_try a [] (rpc a) _ e)
    | lacks r u f ↦ first_unsupported u n (last_try a (rpc a) true _ r f)
    | fails r u f ↦ first_failed r u (last_try a (rpc a) false _ r f)
  ]

  two-Answered :
      Answered verify_and_commit false rpc
        (try_actions (verify_and_commit ∷ reconcile_and_commit ∷ []) rpc)
  unfolding try_actions
  two-Answered = elim (attempt verify_and_commit (rpc verify_and_commit)) [
    | accepts e ↦ first_accepted e (accepted_try _ _ _ _ e)
    | fails r u f ↦ first_failed r u (no_next_try _ _ _ _ _ r f)
    | lacks r u f ↦ elim (one-Answered reconcile_and_commit true (λ h. elim h [ ])) [
      | first_accepted e out ↦
          second_accepted u may e (next_try _ _ _ _ _ r f ∙ ap (after verify_and_commit) out)
      | first_failed x y out ↦
          second_failed u may x y (next_try _ _ _ _ _ r f ∙ ap (after verify_and_commit) out)
      | first_unsupported x y out ↦
          second_unsupported u may x (next_try _ _ _ _ _ r f ∙ ap (after verify_and_commit) out)
      | second_accepted x can y out ↦ elim can [ ]
      | second_failed x can y z out ↦ elim can [ ]
      | second_unsupported x can y out ↦ elim can [ ]
    ]
  ]

pub actions-Answered :
    (a : SetPipelineAction) (no_fallback : Bool) (rpc : SetPipelineAction → Reply)
    → Answered a no_fallback rpc (try_actions (actions_of a no_fallback) rpc)
unfolding actions_of
actions-Answered verify_and_commit false rpc = two-Answered rpc
actions-Answered verify_and_commit true rpc =
    one-Answered rpc verify_and_commit true (λ h. elim h [ ])
actions-Answered unspecified n rpc = one-Answered rpc unspecified n (λ h. elim h [ ])
actions-Answered verify n rpc = one-Answered rpc verify n (λ h. elim h [ ])
actions-Answered verify_and_save n rpc = one-Answered rpc verify_and_save n (λ h. elim h [ ])
actions-Answered commit n rpc = one-Answered rpc commit n (λ h. elim h [ ])
actions-Answered reconcile_and_commit n rpc =
    one-Answered rpc reconcile_and_commit n (λ h. elim h [ ])
actions-Answered other_action n rpc = one-Answered rpc other_action n (λ h. elim h [ ])
