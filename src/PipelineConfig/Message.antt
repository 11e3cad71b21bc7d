-- ===== src/PipelineConfig/Message.antt =====
-- The status messages that client/pipeline.go and client/pipeline_error.go recognise.
use p4runtime_go_controller.Common.{
  ℕ, ◌-◌, Bool, ◌&&◌, ◌||◌, List, [], ◌∷◌, ◌++◌, reverse, any, length, take, ◌==◌, if◌then◌else◌,
}
use p4runtime_go_controller.Common.Text.{codes, to_lower, has_prefix, same_text}
use p4runtime_go_controller.Codec.Hex.{join}
use p4runtime_go_controller.Write.{Status}
use p4runtime_go_controller.Write.Code

-- SetForwardingPipelineConfigRequest_Action
pub data SetPipelineAction : Type 0 where
  unspecified verify verify_and_save verify_and_commit commit reconcile_and_commit other_action :
      SetPipelineAction

-- A number that has no name is printed with it; the tests below see only the prefix.
unfoldable pub action_name : SetPipelineAction → List ℕ
action_name unspecified = codes "UNSPECIFIED"
action_name verify = codes "VERIFY"
action_name verify_and_save = codes "VERIFY_AND_SAVE"
action_name verify_and_commit = codes "VERIFY_AND_COMMIT"
action_name commit = codes "COMMIT"
action_name reconcile_and_commit = codes "RECONCILE_AND_COMMIT"
action_name other_action = codes "unknown"

unfoldable pub is_space : ℕ → Bool
is_space c = (c == 32) || (c == 9) || (c == 10) || (c == 11) || (c == 12) || (c == 13)

-- strings.Fields, with the word that has been read so far.
unfoldable pub fields_from : List ℕ → List ℕ → List (List ℕ)
fields_from [] [] = []
fields_from (w ∷ word) [] = (w ∷ word) ∷ []
fields_from word (c ∷ s) =
    let next = fields_from (word ++ c ∷ []) s in
    let fresh = fields_from [] s in if is_space c then end_word word fresh else next
  where
    end_word : List ℕ → List (List ℕ) → List (List ℕ)
    end_word [] rest = rest
    end_word (w ∷ ws) rest = (w ∷ ws) ∷ rest

abbrev pub squeeze : List ℕ → List ℕ
squeeze s = join (b' ' ∷ []) (fields_from [] s)

-- strings.NewReplacer(":", " ", "'", "", "\"", "")
unfoldable pub replace_quotes : List ℕ → List ℕ
replace_quotes [] = []
replace_quotes (c ∷ s) =
    let rest = replace_quotes s in
    if c == 58 then 32 ∷ rest else if (c == 39) || (c == 34) then rest else c ∷ rest

-- strings.Trim(s, " .")
unfoldable pub trim_left : List ℕ → List ℕ
trim_left [] = []
trim_left (c ∷ s) = let rest = trim_left s in if (c == 32) || (c == 46) then rest else c ∷ s

abbrev pub trim : List ℕ → List ℕ
trim s = reverse (trim_left (reverse (trim_left s)))

-- strings.TrimSuffix
abbrev pub trim_suffix : List ℕ → List ℕ → List ℕ
trim_suffix s suffix =
    if has_prefix (reverse s) (reverse suffix) then take (length s - length suffix) s else s

abbrev pub without_target : List ℕ → List ℕ
without_target s =
    let here = trim_suffix s (codes " on this target") in
    let there = trim_suffix here (codes " on the target") in
    let by_this = trim_suffix there (codes " by this target") in
    trim_suffix by_this (codes " by the target")

abbrev pub subjects : List ℕ → List (List ℕ)
subjects name =
    codes "action"
    ∷ name
    ∷ (codes "action " ++ name)
    ∷ codes "setforwardingpipelineconfig action"
    ∷ (codes "setforwardingpipelineconfig action " ++ name)
    ∷ []

abbrev pub says_unsupported : List ℕ → List ℕ → Bool
says_unsupported msg subject =
    same_text msg (codes "unsupported " ++ subject)
    || same_text msg (subject ++ codes " not supported")
    || same_text msg (subject ++ codes " is not supported")
    || same_text msg (subject ++ codes " unsupported")
    || same_text msg (subject ++ codes " is unsupported")

-- The branch of `isFallbackError` for INVALID_ARGUMENT.
unfoldable pub names_unsupported_action : List ℕ → SetPipelineAction → Bool
names_unsupported_action message act =
    let msg = without_target (trim (squeeze (replace_quotes (to_lower message)))) in
    any (says_unsupported msg) (subjects (to_lower (action_name act)))

abbrev pub missing_texts : List (List ℕ)
missing_texts =
    codes "no forwarding pipeline config set"
    ∷ codes "no pipeline config set"
    ∷ codes "pipeline not set"
    ∷ codes "pipeline is not set"
    ∷ codes "pipeline not configured"
    ∷ []

abbrev pub says_missing : List ℕ → List ℕ → Bool
says_missing message missing =
    same_text message missing
    || same_text message (missing ++ codes " for this device")
    || same_text message (missing ++ codes " on this device")

-- getPipelineError.Is for ErrPipelineNotSet; it is false for every other target.
unfoldable pub is_pipeline_missing : Status → Bool
is_pipeline_missing st =
    (st.code == Code.failed_precondition)
    && any (says_missing (trim_suffix (to_lower (squeeze st.message)) (codes "."))) missing_texts
