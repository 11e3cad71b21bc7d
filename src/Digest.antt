-- ===== src/Digest.antt =====
-- digest/digest.go: subscriptions to digests by name, and acknowledgements.
pub mod Delivery
mod Examples
use p4runtime_go_controller.Common.{
  ℕ, Bool, true, false, ◌&&◌, ◌||◌, not, List, [], ◌∷◌, Option, none, some, ◌==◌, length,
  if◌then◌else◌,
}
use p4runtime_go_controller.Common.Errors.{Error, Result, ok, err, plain, ◌>>=◌}
use p4runtime_go_controller.Pipeline.{Pipeline, digest, digest_by_id}
use p4runtime_go_controller.Pipeline.Resource.{DigestDef}
use p4runtime_go_controller.Client.Dispatch.{
  DigestList, DigestListHandler, DispatchSlots, add_digest_list,
}
use p4runtime_go_controller.Client.{Client, StreamRequest, DigestListAck, send_digest_ack}

-- The digest that a name asks for: `none` for the empty name, which asks for all.
abbrev pub wanted_of : Option DigestDef → Result (Option ℕ)
wanted_of none = err (plain "digest.Subscribe: unknown digest")
wanted_of (some d) =
    if d.id == 0 then err (plain "digest.Subscribe: digest has zero ID") else ok (some d.id)

unfoldable pub wanted : Pipeline → List ℕ → Result (Option ℕ)
wanted p name = if length name == 0 then ok none else wanted_of (digest p name)

abbrev pub is_wanted : Option ℕ → ℕ → Bool
is_wanted none id = true
is_wanted (some w) id = id == w

-- The handler that Subscribe registers around `h`.
unfoldable pub filtered : {S : Type 0} → Option ℕ → (DigestList → S → S) → DigestListHandler S
filtered w h none s = s
filtered w h (some msg) s = if is_wanted w msg.digest_id then h msg s else s

abbrev pub registered :
    {S : Type 0}
    → (DigestList → S → S)
    → DispatchSlots S
    → Result (Option ℕ)
    → Result (DispatchSlots S)
registered h d (err e) = err e
registered h d (ok w) = ok (add_digest_list (filtered w h) d)

-- Subscribe: the slots afterwards, or the error, which registers nothing.
unfoldable pub subscribe :
    {S : Type 0}
    → Pipeline
    → List ℕ
    → Option (DigestList → S → S)
    → DispatchSlots S
    → Result (DispatchSlots S)
subscribe p name none d = err (plain "digest.Subscribe: nil handler")
subscribe p name (some h) d = registered h d (wanted p name)

-- OnDigest: an invalid subscription changes nothing.
unfoldable pub on_digest :
    {S : Type 0}
    → Pipeline
    → List ℕ
    → Option (DigestList → S → S)
    → DispatchSlots S
    → DispatchSlots S
on_digest p name h d = elim (subscribe p name h d) [ ok slots ↦ slots | err e ↦ d ]

abbrev pub is_known : Option DigestDef → Bool
is_known none = false
is_known (some d) = true

unfoldable pub ack :
    Client
    → Pipeline
    → Option DigestList
    → (StreamRequest → Option Error)
    → List StreamRequest × Option Error
ack c p none send = ([], some (plain "digest.Ack: nil message"))
ack c p (some msg) send =
    if (msg.digest_id == 0) || not (is_known (digest_by_id p msg.digest_id))
    then ([], some (plain "digest.Ack: unknown digest ID"))
    else send_digest_ack c (some (record { digest_id = msg.digest_id; list_id = msg.list_id })) send
