-- ===== src/Read/Examples.antt =====
-- Read against a target that streams two responses.
use p4runtime_go_controller.Common.{
  ℕ, ◌≡◌, ◌++◌, refl, List, [], ◌∷◌, Option, none, some, arith, if◌then◌else◌, ◌==◌,
}
use p4runtime_go_controller.Common.Errors.{ok, plain, wrap, err}
use p4runtime_go_controller.Read.{
  response, broken_stream, ReadReply, streaming, ReadRequest, receive_all, read, read_entries,
  keep_kind,
}
use p4runtime_go_controller.Read.Collect.{
  responses, last_answer, closed, outcome, joined, read-responses,
}

abbrev request : ReadRequest ℕ
request = record { device_id = 1; role = []; entities = 9 ∷ [] }

abbrev chunks : List (List ℕ)
chunks = (1 ∷ 2 ∷ []) ∷ [] ∷ (3 ∷ []) ∷ []

abbrev target : ReadRequest ℕ → ReadReply ℕ
target req = streaming (responses chunks ++ last_answer closed ∷ [])

abbrev odd : ℕ → Option ℕ
odd n = if n == 2 then none else some n

reads_odd : read_entries odd request target ≡ (request ∷ [], some (ok (1 ∷ 3 ∷ [])))
unfolding read_entries read receive_all keep_kind
reads_odd = refl

keeps_nothing_of_broken :
    receive_all {E = ℕ} [] (response (1 ∷ []) ∷ broken_stream (plain "reset") ∷ [])
    ≡ some (err (wrap "Read recv" (plain "reset")))
unfolding receive_all
keeps_nothing_of_broken = refl

read-responses_example : read request target ≡ (request ∷ [], some (outcome closed (joined chunks)))
read-responses_example = read-responses request target chunks closed [] (omega arith) refl
