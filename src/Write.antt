-- ===== src/Write.antt =====
-- errors/write.go and client/write.go: the Write RPC, the results per update that are taken from a
-- failed status, and the sentinel errors that a WriteError matches.
-- A gRPC status is its code, its message and its details. A detail is `none` where it is nil or
-- does not unmarshal to a p4.Error. The RPC itself is an argument of `write`. Messages are ASCII.
pub mod Code
pub mod Results
pub mod Mentions
pub mod Matching
mod Examples
use mathlib.Core.Logic.{ite}
use p4runtime_go_controller.Common.{
  ℕ, ◌+◌, ◌-◌, ◌^◌, Bool, true, false, ◌&&◌, ◌||◌, not, List, [], ◌∷◌, Option, none, some, length,
  ltb, ◌==◌, if◌then◌else◌,
}
use p4runtime_go_controller.Common.Int.{ℤ, pos, negsuc, ltb_ℤ}
use p4runtime_go_controller.Common.Text.{codes, to_lower, contains}
use p4runtime_go_controller.Common.Errors.{
  Sentinel, Sentinel-discrete, Error, not_primary, pipeline_not_set, entry_exists, entry_not_found,
  target_unsupported,
}

-- p4.v1.Error, whose code is an int32.
pub record P4Error : Type 0 where
  pub canonical_code : ℤ
  pub message : List ℕ

pub record Status : Type 0 where
  pub code : ℕ
  pub message : List ℕ
  pub details : List (Option P4Error)

-- `none` for the nil slice of updates.
pub record WriteError : Type 0 where
  pub cause : Status
  pub updates : Option (List P4Error)

-- codes.Code(c) of an int32
abbrev pub to_code : ℤ → ℕ
to_code (pos n) = n
to_code (negsuc n) = 2 ^ 32 - (n + 1)

abbrev pub not_primary_text : List ℕ → Bool
not_primary_text m =
    contains m (codes "not primary")
    || contains m (codes "not the primary")
    || contains m (codes "no longer primary")

abbrev pub no_pipeline_text : List ℕ → Bool
no_pipeline_text m =
    contains m (codes "no forwarding pipeline config set")
    || contains m (codes "no pipeline config set")
    || contains m (codes "pipeline not set")
    || contains m (codes "pipeline is not set")
    || contains m (codes "pipeline not configured")

-- The sentinel of a code and a message; only the status of the RPC is read by its message.
unfoldable pub write_sentinel : ℕ → List ℕ → Bool → Option Sentinel
write_sentinel code message rpc =
    if code == Code.already_exists
    then some entry_exists
    else if code == Code.not_found
    then some entry_not_found
    else if code == Code.unimplemented
    then some target_unsupported
    else if (code == Code.permission_denied) || (code == Code.failed_precondition)
    then (if not rpc
        then none
        else if not_primary_text (to_lower message)
        then some not_primary
        else if (code == Code.failed_precondition) && no_pipeline_text (to_lower message)
        then some pipeline_not_set
        else none)
    else none

-- `sentinel != nil && sentinel == target`
abbrev pub hits : Option Sentinel → Sentinel → Bool
hits none target = false
hits (some s) target = ite (Sentinel-discrete s target) true false

unfoldable pub update_sentinel : P4Error → Option Sentinel
update_sentinel update = write_sentinel (to_code update.canonical_code) update.message false

unfoldable pub any_update : List P4Error → Sentinel → Bool
any_update [] target = false
any_update (update ∷ rest) target =
    if hits (update_sentinel update) target then true else any_update rest target

abbrev pub update_list : Option (List P4Error) → List P4Error
update_list none = []
update_list (some us) = us

-- WriteError.Is
unfoldable pub is_match : WriteError → Sentinel → Bool
is_match e target =
    if hits (write_sentinel e.cause.code e.cause.message true) target
    then true
    else any_update (update_list e.updates) target

-- `update.GetCanonicalCode() < codes.OK || update.GetCanonicalCode() > codes.Unauthenticated`
abbrev pub invalid_code : P4Error → Bool
invalid_code u =
    ltb_ℤ u.canonical_code (pos Code.success) || ltb_ℤ (pos Code.unauthenticated) u.canonical_code

abbrev pub is_failure : P4Error → Bool
is_failure u = not (to_code u.canonical_code == Code.success)

-- The loop over the details, from the value of `failed` so far.
unfoldable pub collect : Bool → List (Option P4Error) → Option (List P4Error)
collect failed [] = if failed then some [] else none
collect failed (none ∷ details) = none
collect failed (some u ∷ details) =
    let rest = collect (failed || is_failure u) details in
    if invalid_code u then none else elim rest [ none ↦ none | some us ↦ some (u ∷ us) ]

unfoldable pub write_update_results : Status → ℕ → Option (List P4Error)
write_update_results st update_count =
    if not (st.code == Code.unknown)
      || (update_count == 0)
      || not (length st.details == update_count)
    then none
    else collect false st.details

-- What the RPC returns: nil, an error with a gRPC status, or another error.
pub data Reply : Type 0 where
  accepted : Reply
  rejected : Status → Reply
  broken : Error → Reply

pub data WriteResult : Type 0 where
  written : WriteResult
  refused : Sentinel → WriteResult
  failed_write : WriteError → WriteResult
  failed_rpc : Error → WriteResult

unfoldable pub translate_write_error : Status → ℕ → WriteError
translate_write_error st update_count = record {
  cause = st;
  updates = write_update_results st update_count;
}

pub record WriteRequest (U : Type 0) : Type 0 where
  pub device_id : ℕ
  pub election_high : ℕ
  pub election_low : ℕ
  pub role : List ℕ
  pub updates : List U
  pub atomicity : ℕ

abbrev pub finish_write : Reply → ℕ → WriteResult
finish_write accepted n = written
finish_write (rejected st) n = failed_write (translate_write_error st n)
finish_write (broken e) n = failed_rpc e

-- Client.Write: the requests that it sends, and its result. `req` is the request that the options
-- and the updates make.
unfoldable pub write :
    {U : Type 0}
    → Bool
    → WriteRequest U
    → (WriteRequest U → Reply)
    → List (WriteRequest U) × WriteResult
write is_primary req rpc =
    if not is_primary
    then ([], refused not_primary)
    else if length req.updates == 0
    then ([], written)
    else (req ∷ [], finish_write (rpc req) (length req.updates))
