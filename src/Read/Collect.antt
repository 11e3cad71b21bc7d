-- ===== src/Read/Collect.antt =====
-- When Read of client/write.go returns, and what it has collected.
use p4runtime_go_controller.Common.{
  ◌<◌, ◌≡◌, refl, sym, ap, ◌∙◌, List, [], ◌∷◌, ◌++◌, map, some, length, arith,
}
use mathlib.Core.List.{append_assoc, append-nil}
use p4runtime_go_controller.Common.Errors.{Error, Result, ok, err, wrap}
use p4runtime_go_controller.Read.{
  Received, response, end_of_stream, broken_stream, ReadReply, streaming, ReadRequest, receive_all,
  read, read_reply,
}

-- Responses with these entities.
abbrev pub responses : {E : Type 0} → List (List E) → List (Received E)
responses chunks = map response chunks

abbrev pub joined : {E : Type 0} → List (List E) → List E
joined [] = []
joined (c ∷ chunks) = c ++ joined chunks

-- How a stream ends, and what Read returns for it.
pub data Ending : Type 0 where
  closed : Ending
  failed : Error → Ending

abbrev pub last_answer : {E : Type 0} → Ending → Received E
last_answer closed = end_of_stream
last_answer (failed e) = broken_stream e

abbrev pub outcome : {E : Type 0} → Ending → List E → Result (List E)
outcome closed es = ok es
outcome (failed e) es = err (wrap "Read recv" e)

module _ {E : Type 0} where
  receive_all-responses :
      (out : List E) (chunks : List (List E)) (ending : Ending) (later : List (Received E))
      → receive_all out (responses chunks ++ last_answer ending ∷ later)
        ≡ some (outcome ending (out ++ joined chunks))
  unfolding receive_all
  receive_all-responses out [] closed later = ap (λ es. some (ok es)) (sym (append-nil out))
  receive_all-responses out [] (failed e) later = refl
  receive_all-responses out (c ∷ chunks) closed later =
      receive_all-responses (out ++ c) chunks closed later
      ∙ ap (λ es. some (ok es)) (append_assoc out c (joined chunks))
  receive_all-responses out (c ∷ chunks) (failed e) later =
      receive_all-responses (out ++ c) chunks (failed e) later

  -- A request with entities is sent once, and Read ends with the first answer that is not a
  -- response, whatever comes after it: after io.EOF it returns the entities of all responses, in
  -- their order, and after another error it returns that error and none of them.
  pub read-responses :
      (req : ReadRequest E) (rpc : ReadRequest E → ReadReply E) (chunks : List (List E))
      (ending : Ending) (later : List (Received E))
      → 0 < length req.entities
      → rpc req ≡ streaming (responses chunks ++ last_answer ending ∷ later)
      → read req rpc ≡ (req ∷ [], some (outcome ending (joined chunks)))
  read-responses req rpc chunks ending later some_entities answers =
      sent
      ∙ ap (λ r. (req ∷ [], read_reply r)) answers
      ∙ ap (λ r. (req ∷ [], r)) (receive_all-responses [] chunks ending later)
    where
      sent : read req rpc ≡ (req ∷ [], read_reply (rpc req))
      sent = unfold read in ground arith
