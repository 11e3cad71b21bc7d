-- ===== src/PipelineConfig/Fallback.antt =====
-- SetPipeline of client/pipeline.go: every outcome, against what the target answers.
use p4runtime_go_controller.Common.{
  ◌≡◌, ◌≢◌, refl, Bool, true, false, [], Option, none, some, arith,
}
use p4runtime_go_controller.Common.Errors.{Error, Result, ok, err}
use p4runtime_go_controller.Write.{Reply}
use p4runtime_go_controller.PipelineConfig.Message.{
  SetPipelineAction, unspecified, verify, verify_and_save, verify_and_commit, commit,
  reconcile_and_commit, other_action,
}
use p4runtime_go_controller.PipelineConfig.{
  SetPipelineOptions, SetPipelineResult, Failure, refused, default_action, check_action, actions_of,
  try_actions, checked_set, set_pipeline,
}
use p4runtime_go_controller.PipelineConfig.Attempts.{Answered, actions-Answered}

-- The action that a request asks for: VERIFY_AND_COMMIT where it gives none.
pub data AsksFor : SetPipelineAction → SetPipelineAction → Type 0 where
  by_default : AsksFor unspecified verify_and_commit
  given : {a : SetPipelineAction} → a ≢ unspecified → AsksFor a a

-- COMMIT has no pipeline with it; each other action that has a name has one.
pub data IsAllowed {ℓ} {P : Type ℓ} : SetPipelineAction → Option P → Type ℓ where
  commit_alone : IsAllowed commit none
  verify_it : {p : P} → IsAllowed verify (some p)
  save_it : {p : P} → IsAllowed verify_and_save (some p)
  commit_it : {p : P} → IsAllowed verify_and_commit (some p)
  reconcile_it : {p : P} → IsAllowed reconcile_and_commit (some p)

module _ {ℓ} {P : Type ℓ} where
  check_action-IsAllowed :
      (a : SetPipelineAction) (p : Option P) → check_action a p ≡ ok tt → IsAllowed a p
  unfolding check_action
  check_action-IsAllowed commit none h = commit_alone
  check_action-IsAllowed commit (some p) h = cc
  check_action-IsAllowed verify (some p) h = verify_it
  check_action-IsAllowed verify_and_save (some p) h = save_it
  check_action-IsAllowed verify_and_commit (some p) h = commit_it
  check_action-IsAllowed reconcile_and_commit (some p) h = reconcile_it
  check_action-IsAllowed verify none h = cc
  check_action-IsAllowed verify_and_save none h = cc
  check_action-IsAllowed verify_and_commit none h = cc
  check_action-IsAllowed reconcile_and_commit none h = cc
  check_action-IsAllowed unspecified p h = cc
  check_action-IsAllowed other_action p h = cc

  IsAllowed-check_action :
      {a : SetPipelineAction} {p : Option P} → IsAllowed a p → check_action a p ≡ ok tt
  unfolding check_action
  IsAllowed-check_action commit_alone = refl
  IsAllowed-check_action verify_it = refl
  IsAllowed-check_action save_it = refl
  IsAllowed-check_action commit_it = refl
  IsAllowed-check_action reconcile_it = refl

default_action-AsksFor : (a : SetPipelineAction) → AsksFor a (default_action a)
default_action-AsksFor unspecified = by_default
default_action-AsksFor verify = given (cc)
default_action-AsksFor verify_and_save = given (cc)
default_action-AsksFor verify_and_commit = given (cc)
default_action-AsksFor commit = given (cc)
default_action-AsksFor reconcile_and_commit = given (cc)
default_action-AsksFor other_action = given (cc)

-- What SetPipeline does: it refuses without an attempt, or its outcome is by the target's answers.
pub data Outcome {ℓ} {P : Type ℓ} (is_primary : Bool) (p : Option P) (opts : SetPipelineOptions)
    (rpc : SetPipelineAction → Option P → Reply) (out : SetPipelineResult × Option Failure)
    : Type ℓ where
  refuses :
      {a : SetPipelineAction} {e : Error}
      → AsksFor opts.action a
      → ¬ (IsAllowed a p × (is_primary ≡ true))
      → out ≡ (record { action = unspecified; attempted = [] }, some (refused e))
      → Outcome is_primary p opts rpc out
  asks :
      {a : SetPipelineAction}
      → AsksFor opts.action a
      → IsAllowed a p
      → is_primary ≡ true
      → Answered a opts.no_fallback (λ act. rpc act p) out
      → Outcome is_primary p opts rpc out

module _ {ℓ} {P : Type ℓ} (p : Option P) (opts : SetPipelineOptions)
    (rpc : SetPipelineAction → Option P → Reply) where
  checked-Outcome :
      (is_primary : Bool) (r : Result (Unit {0}))
      → check_action (default_action opts.action) p ≡ r
      → Outcome is_primary p opts rpc (
          checked_set r is_primary (
            try_actions
              (actions_of (default_action opts.action) opts.no_fallback)
              (λ act. rpc act p)))
  checked-Outcome is_primary (err e) h =
      refuses (default_action-AsksFor opts.action)
        (λ a. ground (arith, IsAllowed-check_action (a.0))) refl
  checked-Outcome false (ok u) h =
      refuses (default_action-AsksFor opts.action) (λ a. ground arith) refl
  checked-Outcome true (ok u) h =
      asks (default_action-AsksFor opts.action)
        (check_action-IsAllowed (default_action opts.action) p h) refl
        (actions-Answered (default_action opts.action) opts.no_fallback (λ act. rpc act p))

-- SetPipeline refuses without a request when the client is not primary, or the action, which is
-- VERIFY_AND_COMMIT by default, does not go with the pipeline: COMMIT goes with none, the other
-- named actions with one. Otherwise its result is by the answers: an accepted action is the result;
-- any failure is returned, marked as unsupported just when the answer is UNIMPLEMENTED, or
-- INVALID_ARGUMENT with a text that, once cleaned, is one of five denials of the action, spoken of in
-- one of five ways; and only such an answer to
-- VERIFY_AND_COMMIT without NoFallback is followed by a second attempt, RECONCILE_AND_COMMIT.
pub set_pipeline-Outcome {ℓ} :
    {P : Type ℓ} (is_primary : Bool) (p : Option P) (opts : SetPipelineOptions)
    (rpc : SetPipelineAction → Option P → Reply)
    → Outcome is_primary p opts rpc (set_pipeline is_primary p opts rpc)
unfolding set_pipeline
set_pipeline-Outcome is_primary p opts rpc =
    checked-Outcome p opts rpc is_primary (check_action (default_action opts.action) p) refl
