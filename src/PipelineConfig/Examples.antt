-- ===== src/PipelineConfig/Examples.antt =====
-- SetPipeline against targets that do not implement VERIFY_AND_COMMIT, and status messages.
use p4runtime_go_controller.Common.{ℕ, ◌≡◌, refl, true, false, [], ◌∷◌, Option, none, some}
use p4runtime_go_controller.Common.Text.{codes, lower, has_prefix, same_text}
use p4runtime_go_controller.Codec.Hex.{join}
use p4runtime_go_controller.Write.{Status, Reply, accepted, rejected}
use p4runtime_go_controller.PipelineConfig.Message.{
  SetPipelineAction, verify_and_commit, reconcile_and_commit, unspecified, action_name, is_space,
  fields_from, replace_quotes, trim_left, names_unsupported_action, is_pipeline_missing,
}
use p4runtime_go_controller.PipelineConfig.{
  SetPipelineOptions, is_fallback_error, check_action, actions_of, try_action, try_actions,
  set_pipeline,
}
use p4runtime_go_controller.PipelineConfig.Fallback.{Outcome, set_pipeline-Outcome}

abbrev unimplemented : Status
unimplemented = record { code = 12; message = []; details = [] }

abbrev target : SetPipelineAction → Option ℕ → Reply
target reconcile_and_commit p = accepted
target _ p = rejected unimplemented

abbrev options : SetPipelineOptions
options = record { action = unspecified; no_fallback = false }

falls_back : set_pipeline true (some 1) options target ≡ (
  record {
    action = reconcile_and_commit;
    attempted = verify_and_commit ∷ reconcile_and_commit ∷ [];
  },
  none,
)
unfolding set_pipeline check_action actions_of try_actions try_action is_fallback_error
falls_back = refl

names_action :
    names_unsupported_action
      (codes "Action: VERIFY_AND_COMMIT is  not supported on this target.")
      verify_and_commit
    ≡ true
unfolding names_unsupported_action action_name is_space fields_from replace_quotes trim_left lower
    has_prefix same_text join
names_action = refl

names_field :
    names_unsupported_action (codes "Action field is not supported") verify_and_commit ≡ false
unfolding names_unsupported_action action_name is_space fields_from replace_quotes trim_left lower
    has_prefix same_text join
names_field = refl

pipeline_missing :
    is_pipeline_missing
      (record { code = 9; message = codes "Pipeline not set on this device."; details = [] })
    ≡ true
unfolding is_pipeline_missing is_space fields_from lower has_prefix same_text join
pipeline_missing = refl

set_pipeline-Outcome_example :
    Outcome true (some 1) options target (set_pipeline true (some 1) options target)
set_pipeline-Outcome_example = set_pipeline-Outcome true (some 1) options target
