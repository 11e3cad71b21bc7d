-- ===== src/Write/Examples.antt =====
-- The theorems of the Write RPC at a batch whose second update already existed.
use p4runtime_go_controller.Common.{
  ℕ, ◌≡◌, ◌↔◌, ◌⊎◌, refl, true, false, List, [], ◌∷◌, some, length, arith,
}
use p4runtime_go_controller.Common.Int.{pos}
use p4runtime_go_controller.Common.Text.{codes}
use p4runtime_go_controller.Common.Errors.{entry_exists, not_primary}
use p4runtime_go_controller.Write.{
  P4Error, Status, WriteError, WriteRequest, rejected, refused, failed_write, write, is_match,
  write_update_results, collect, translate_write_error,
}
use p4runtime_go_controller.Write.Results.{TellsResults, write_update_results_exact, write-aligned}
use p4runtime_go_controller.Write.Matching.{RpcMeans, HasUpdate, is_match_exact}

abbrev fine : P4Error
fine = record { canonical_code = pos 0; message = [] }

abbrev exists : P4Error
exists = record { canonical_code = pos 6; message = codes "entry exists" }

abbrev status : Status
status = record { code = 2; message = []; details = some fine ∷ some exists ∷ [] }

abbrev batch_error : WriteError
batch_error = record { cause = status; updates = some (fine ∷ exists ∷ []) }

abbrev request : WriteRequest ℕ
request = record {
  device_id = 1;
  election_high = 0;
  election_low = 1;
  role = [];
  updates = 10 ∷ 11 ∷ [];
  atomicity = 0;
}

batch_results : write true request (λ _. rejected status) ≡ (request ∷ [], failed_write batch_error)
unfolding write translate_write_error write_update_results collect
batch_results = refl

write_update_results_exact_example :
    (write_update_results status 2 ≡ some (fine ∷ exists ∷ []))
    ↔ TellsResults status 2 (fine ∷ exists ∷ [])
write_update_results_exact_example = write_update_results_exact status 2 (fine ∷ exists ∷ [])

write-aligned_example :
    (false ≡ false → write false request (λ _. rejected status) ≡ ([], refused not_primary))
    × (length request.updates ≡ 0 → (write false request (λ _. rejected status)).0 ≡ [])
    × ((e : WriteError) (us : List P4Error)
        → (write false request (λ _. rejected status)).1 ≡ failed_write e
        → e.updates ≡ some us
        → ((write false request (λ _. rejected status)).0 ≡ request ∷ [])
          × (length us ≡ length request.updates))
write-aligned_example = write-aligned false request (λ _. rejected status)

is_match_exact_example :
    (is_match batch_error entry_exists ≡ true)
    ↔ (RpcMeans 2 [] entry_exists ⊎ HasUpdate entry_exists (fine ∷ exists ∷ []))
is_match_exact_example = is_match_exact batch_error entry_exists (omega arith, (omega arith, tt))
