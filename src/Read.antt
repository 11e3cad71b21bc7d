-- ===== src/Read.antt =====
-- client/write.go: Read and ReadTableEntries. The stream of responses is an argument: the answer to
-- each call of `Recv`, in order. Where the stream ends within the answers that are given, Read
-- returns; `none` says that it still waits for the next answer.
pub mod Collect
mod Examples
use p4runtime_go_controller.Common.{
  ℕ, Bool, true, false, List, [], ◌∷◌, ◌++◌, Option, none, some, ◌==◌, length, if◌then◌else◌,
}
use p4runtime_go_controller.Common.Errors.{Error, Result, ok, err, plain, wrap, ◌>>=◌}

-- An answer of `stream.Recv`: the entities of a response, io.EOF, or another error.
pub data Received (E : Type 0) : Type 0 where
  response : List E → Received E
  end_of_stream : Received E
  broken_stream : Error → Received E

-- What the RPC itself returns.
pub data ReadReply (E : Type 0) : Type 0 where
  streaming : List (Received E) → ReadReply E
  rejected_read : Error → ReadReply E

-- The request that Read sends; it does not carry an election ID.
pub record ReadRequest (E : Type 0) : Type 0 where
  pub device_id : ℕ
  pub role : List ℕ
  pub entities : List E

unfoldable pub receive_all : {E : Type 0} → List E → List (Received E) → Option (Result (List E))
receive_all out [] = none
receive_all out (response es ∷ rest) = receive_all (out ++ es) rest
receive_all out (end_of_stream ∷ rest) = some (ok out)
receive_all out (broken_stream e ∷ rest) = some (err (wrap "Read recv" e))

abbrev pub read_reply : {E : Type 0} → ReadReply E → Option (Result (List E))
read_reply (rejected_read e) = some (err (wrap "Read" e))
read_reply (streaming answers) = receive_all [] answers

-- Client.Read: the requests that it sends, and its result.
unfoldable pub read :
    {E : Type 0}
    → ReadRequest E
    → (ReadRequest E → ReadReply E)
    → List (ReadRequest E) × Option (Result (List E))
read req rpc =
    if length req.entities == 0
    then ([], some (err (plain "client.Read: no entities supplied")))
    else (req ∷ [], read_reply (rpc req))

-- The loop that keeps the entities of one kind.
unfoldable pub keep_kind : {E A : Type 0} → (E → Option A) → List E → List A
keep_kind pick [] = []
keep_kind pick (e ∷ ents) = elim (pick e) [
  | none ↦ keep_kind pick ents
  | some a ↦ a ∷ keep_kind pick ents
]

abbrev pub kept_entries :
    {E A : Type 0} → (E → Option A) → Option (Result (List E)) → Option (Result (List A))
kept_entries pick none = none
kept_entries pick (some (err e)) = some (err e)
kept_entries pick (some (ok ents)) = some (ok (keep_kind pick ents))

-- readEntries, for a kind of entity.
unfoldable pub read_entries :
    {E A : Type 0}
    → (E → Option A)
    → ReadRequest E
    → (ReadRequest E → ReadReply E)
    → List (ReadRequest E) × Option (Result (List A))
read_entries pick req rpc = let (sent, r) = read req rpc in (sent, kept_entries pick r)
