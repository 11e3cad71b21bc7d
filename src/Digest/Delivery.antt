-- ===== src/Digest/Delivery.antt =====
-- The digests that a subscription of digest/digest.go hands on, and the acknowledgements that it
-- sends.
use p4runtime_go_controller.Common.{
  ℕ, ◌≡◌, ◌≢◌, ◌↔◌, ◌⊎◌, refl, sym, ◌∙◌, true, false, List, [], ◌∷◌, Option, none, some, arith,
  ◌==◌, Bool-cases, inl, inr,
}
use p4runtime_go_controller.Common.Errors.{Error, Result, ok, err, ok-injective}
use p4runtime_go_controller.Stream.{is_primary}
use p4runtime_go_controller.Pipeline.{Pipeline, digest, digest_by_id}
use p4runtime_go_controller.Pipeline.Resource.{DigestDef}
use p4runtime_go_controller.Client.Dispatch.{DigestList, DispatchSlots, add_digest_list}
use p4runtime_go_controller.Client.{
  Client, StreamRequest, ack_request, send_digest_ack, send_stream_request,
}
use p4runtime_go_controller.Digest.{
  wanted, wanted_of, is_wanted, filtered, registered, subscribe, ack,
}

-- The lists that a name asks for: all for the empty name, and else those of the digest that the
-- pipeline has under the name or alias.
pub data AsksFor (p : Pipeline) : List ℕ → DigestList → Type 0 where
  all_digests : {msg : DigestList} → AsksFor p [] msg
  named_digest :
      {c : ℕ} {name : List ℕ} {d : DigestDef} {msg : DigestList}
      → digest p (c ∷ name) ≡ some d
      → msg.digest_id ≡ d.id
      → AsksFor p (c ∷ name) msg

named-AsksFor :
    (p : Pipeline) (c : ℕ) (name : List ℕ) (o : Option DigestDef) (w : Option ℕ) (msg : DigestList)
    → digest p (c ∷ name) ≡ o
    → wanted_of o ≡ ok w
    → (is_wanted w msg.digest_id ≡ true) ↔ AsksFor p (c ∷ name) msg
named-AsksFor p c name none w msg at_o h = cc
named-AsksFor p c name (some d) none msg at_o h = ground arith
named-AsksFor p c name (some d) (some id) msg at_o h =
    (λ x. named_digest at_o (ground arith), λ a. same a)
  where
    same : AsksFor p (c ∷ name) msg → (msg.digest_id == id) ≡ true
    same (named_digest found e) = ground (arith, sym at_o ∙ found)

wanted-AsksFor :
    (p : Pipeline) (name : List ℕ) (w : Option ℕ) (msg : DigestList)
    → wanted p name ≡ ok w
    → (is_wanted w msg.digest_id ≡ true) ↔ AsksFor p name msg
unfolding wanted
wanted-AsksFor p [] none msg h = (λ x. all_digests, λ a. refl)
wanted-AsksFor p [] (some id) msg h = ground arith
wanted-AsksFor p (c ∷ name) w msg h =
    named-AsksFor p c name (digest p (c ∷ name)) w msg refl (ground arith)

-- What a handler does with a list: `h` where the name asks for it, and nothing where it does not.
pub data HandsOn {S : Type 0} (p : Pipeline) (name : List ℕ) (h : DigestList → S → S)
    (msg : DigestList) (before after : S) : Type 0 where
  handed : AsksFor p name msg → after ≡ h msg before → HandsOn p name h msg before after
  passed_over : ¬ AsksFor p name msg → after ≡ before → HandsOn p name h msg before after

filtered-HandsOn :
    {S : Type 0} (p : Pipeline) (name : List ℕ) (w : Option ℕ) (h : DigestList → S → S)
    (msg : DigestList) (s : S)
    → wanted p name ≡ ok w
    → HandsOn p name h msg s (filtered w h (some msg) s)
unfolding filtered
filtered-HandsOn p name w h msg s at_w = elim (Bool-cases (is_wanted w msg.digest_id)) [
  | inl x ↦ handed ((wanted-AsksFor p name w msg at_w).0 x) (rw x refl)
  | inr x ↦ passed_over (λ a. cc (x, (wanted-AsksFor p name w msg at_w).1 a)) (rw x refl)
]

ignores_nil : {S : Type 0} (w : Option ℕ) (h : DigestList → S → S) (s : S) → filtered w h none s ≡ s
unfolding filtered
ignores_nil w h s = refl

-- A digest subscription that succeeds registers one handler, which hands on every list for the
-- empty name and otherwise the lists of the digest with this name or alias, and leaves all others,
-- nil lists included.
pub subscribe-HandsOn :
    {S : Type 0} (p : Pipeline) (name : List ℕ) (h : DigestList → S → S)
    (slots after : DispatchSlots S)
    → subscribe p name (some h) slots ≡ ok after
    → (g : Option DigestList → S → S) × (after ≡ add_digest_list g slots)
      × ((msg : DigestList) (s : S) → HandsOn p name h msg s (g (some msg) s))
      × ((s : S) → g none s ≡ s)
unfolding subscribe
subscribe-HandsOn {S = S} p name h slots after e = go (wanted p name) refl e
  where
    go :
        (r : Result (Option ℕ))
        → wanted p name ≡ r
        → registered h slots r ≡ ok after
        → (g : Option DigestList → S → S) × (after ≡ add_digest_list g slots)
          × ((msg : DigestList) (s : S) → HandsOn p name h msg s (g (some msg) s))
          × ((s : S) → g none s ≡ s)
    go (err x) at_r e = cc
    go (ok w) at_r e = (
      filtered w h,
      sym (ok-injective e),
      λ msg s. filtered-HandsOn p name w h msg s at_r,
      ignores_nil w h,
    )

-- Ack passes on one acknowledgement, with the list's two IDs, just when the digest's ID is not 0,
-- the pipeline has it, and the client is primary; else nothing, with an error. A subscription does
-- not matter.
pub ack-guards :
    (c : Client) (p : Pipeline) (msg : DigestList) (d : DigestDef)
    (send : StreamRequest → Option Error)
    → (msg.digest_id ≢ 0
        → digest_by_id p msg.digest_id ≡ some d
        → is_primary c.sup ≡ true
        → ack c p (some msg) send ≡ (
            let req = ack_request (record { digest_id = msg.digest_id; list_id = msg.list_id }) in
            (req ∷ [], send req)))
      × ((msg.digest_id ≡ 0) ⊎ ((digest_by_id p msg.digest_id ≡ none) ⊎ (is_primary c.sup ≡ false))
          → ((ack c p (some msg) send).0 ≡ []) × ((ack c p (some msg) send).1 ≢ none))
unfolding ack send_digest_ack send_stream_request
ack-guards c p msg d send = (
  λ nonzero known primary. ground (arith, known, primary),
  λ refused. (ground arith, λ h. ground arith),
)
