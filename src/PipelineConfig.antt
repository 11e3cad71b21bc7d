-- ===== src/PipelineConfig.antt =====
-- client/pipeline.go and client/pipeline_error.go: SetPipeline with its fallback, and what GetPipeline
-- makes of the target's answer. The RPC is an argument. Messages are ASCII.
pub mod Message
pub mod Texts
pub mod Attempts
pub mod Fallback
mod Examples
use p4runtime_go_controller.Common.{
  ℕ, Bool, true, false, ◌&&◌, ◌||◌, not, List, [], ◌∷◌, Option, none, some, ◌==◌, if◌then◌else◌,
}
use p4runtime_go_controller.Common.Errors.{
  Error, Result, ok, err, sentinel, plain, not_primary, pipeline_not_set,
}
use p4runtime_go_controller.Write.{Status, Reply, accepted, rejected, broken}
use p4runtime_go_controller.Write.Code
use p4runtime_go_controller.PipelineConfig.Message.{
  SetPipelineAction, unspecified, verify, verify_and_save, verify_and_commit, commit,
  reconcile_and_commit, other_action, names_unsupported_action,
}

pub record SetPipelineOptions : Type 0 where
  pub action : SetPipelineAction
  pub no_fallback : Bool

pub record SetPipelineResult : Type 0 where
  pub action : SetPipelineAction
  pub attempted : List SetPipelineAction

-- An error that SetPipeline returns: one of its guards', or the last answer of the target, with
-- whether it is wrapped in ErrTargetUnsupported.
pub data Failure : Type 0 where
  refused : Error → Failure
  failed : SetPipelineAction → Bool → Reply → Failure

-- A target that accepts a request returns no error.
unfoldable pub is_fallback_error : Reply → SetPipelineAction → Bool
is_fallback_error accepted act = false
is_fallback_error (broken e) act = false
is_fallback_error (rejected st) act =
    if st.code == Code.unimplemented
    then true
    else if st.code == Code.invalid_argument
    then names_unsupported_action st.message act
    else false

abbrev pub default_action : SetPipelineAction → SetPipelineAction
default_action unspecified = verify_and_commit
default_action a = a

-- The first switch: COMMIT has no pipeline, the other actions have one.
unfoldable pub check_action {ℓ} : {P : Type ℓ} → SetPipelineAction → Option P → Result (Unit {0})
check_action commit none = ok tt
check_action commit (some p) = err (plain "client.SetPipeline: COMMIT requires a nil pipeline")
check_action verify (some p) = ok tt
check_action verify_and_save (some p) = ok tt
check_action verify_and_commit (some p) = ok tt
check_action reconcile_and_commit (some p) = ok tt
check_action verify none = err (plain "client.SetPipeline: nil pipeline")
check_action verify_and_save none = err (plain "client.SetPipeline: nil pipeline")
check_action verify_and_commit none = err (plain "client.SetPipeline: nil pipeline")
check_action reconcile_and_commit none = err (plain "client.SetPipeline: nil pipeline")
check_action unspecified p = err (plain "client.SetPipeline: invalid action")
check_action other_action p = err (plain "client.SetPipeline: invalid action")

unfoldable pub actions_of : SetPipelineAction → Bool → List SetPipelineAction
actions_of verify_and_commit no_fallback =
    if not no_fallback
    then verify_and_commit ∷ reconcile_and_commit ∷ []
    else verify_and_commit ∷ []
actions_of a no_fallback = a ∷ []

abbrev pub succeeded : SetPipelineAction → SetPipelineResult × Option Failure
succeeded act = (record { action = act; attempted = act ∷ [] }, none)

abbrev pub gave_up : SetPipelineAction → Reply → SetPipelineResult × Option Failure
gave_up act r = (
  record { action = unspecified; attempted = act ∷ [] },
  some (failed act (is_fallback_error r act) r),
)

abbrev pub after :
    SetPipelineAction → SetPipelineResult × Option Failure → SetPipelineResult × Option Failure
after act (result, e) = (record result { attempted = act ∷ result.attempted }, e)

-- The loop over the actions: the next one is tried only after an answer that permits the fallback.
unfoldable pub try_action :
    SetPipelineAction
    → List SetPipelineAction
    → Reply
    → SetPipelineResult × Option Failure
    → SetPipelineResult × Option Failure
try_action act rest accepted continued = succeeded act
try_action act [] r continued = gave_up act r
try_action act (next ∷ rest) r continued =
    if is_fallback_error r act then after act continued else gave_up act r

unfoldable pub try_actions :
    List SetPipelineAction → (SetPipelineAction → Reply) → SetPipelineResult × Option Failure
try_actions [] rpc = (record { action = unspecified; attempted = [] }, none)
try_actions (act ∷ rest) rpc = try_action act rest (rpc act) (try_actions rest rpc)

abbrev pub refuse : Error → SetPipelineResult × Option Failure
refuse e = (record { action = unspecified; attempted = [] }, some (refused e))

abbrev pub checked_set :
    Result (Unit {0})
    → Bool
    → SetPipelineResult × Option Failure
    → SetPipelineResult × Option Failure
checked_set (err e) is_primary r = refuse e
checked_set (ok u) is_primary r = if not is_primary then refuse (sentinel not_primary) else r

-- `rpc` is the answer to the request with an action and the pipeline.
unfoldable pub set_pipeline {ℓ} :
    {P : Type ℓ}
    → Bool
    → Option P
    → SetPipelineOptions
    → (SetPipelineAction → Option P → Reply)
    → SetPipelineResult × Option Failure
set_pipeline is_primary p opts rpc =
    let action = default_action opts.action in
    checked_set (check_action action p) is_primary
      (try_actions (actions_of action opts.no_fallback) (λ act. rpc act p))
