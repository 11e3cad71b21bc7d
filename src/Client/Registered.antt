-- ===== src/Client/Registered.antt =====
-- The handlers of client/stream.go after any registrations and cancellations, and the handlers
-- that are live by the history of these alone.
pub mod Numbers
pub mod Calls
use mathlib.Core.List.{Perm}
use p4runtime_go_controller.Common.{
  ℕ, suc, ◌+◌, ◌<◌, ◌≤◌, ◌%◌, ◌^◌, ◌≡◌, ◌≢◌, refl, sym, ◌∙◌, ap, ap₂, Bool, true, false, ◌&&◌, List,
  [], ◌∷◌, ◌++◌, map, Option, none, some, ◌==◌, if◌then◌else◌, arith, length,
}
use p4runtime_go_controller.Client.Dispatch.{
  DispatchSlots, PacketInHandler, DigestListHandler, IdleTimeoutHandler, StreamMessageHandler,
  StreamMessage, packet_message, digest_message, idle_message, other_message, new_dispatch, delete,
  add_packet_in, add_digest_list, add_idle, add_stream, cancel_packet_in, cancel_digest_list,
  cancel_idle, cancel_stream, Orders,
}

pub data Kind : Type 0 where
  packets digests idles messages : Kind

-- A handler, of one of the four kinds.
pub data Handler (S : Type 0) : Type 0 where
  on_packet_in : PacketInHandler S → Handler S
  on_digest_list : DigestListHandler S → Handler S
  on_idle_timeout : IdleTimeoutHandler S → Handler S
  on_stream_message : StreamMessageHandler S → Handler S

abbrev pub has_kind : {S : Type 0} → Kind → Handler S → Bool
has_kind packets (on_packet_in h) = true
has_kind digests (on_digest_list h) = true
has_kind idles (on_idle_timeout h) = true
has_kind messages (on_stream_message h) = true
has_kind _ _ = false

abbrev pub packet_handler : {S : Type 0} → Handler S → Option (PacketInHandler S)
packet_handler (on_packet_in h) = some h
packet_handler _ = none

abbrev pub digest_handler : {S : Type 0} → Handler S → Option (DigestListHandler S)
digest_handler (on_digest_list h) = some h
digest_handler _ = none

abbrev pub idle_handler : {S : Type 0} → Handler S → Option (IdleTimeoutHandler S)
idle_handler (on_idle_timeout h) = some h
idle_handler _ = none

abbrev pub message_handler : {S : Type 0} → Handler S → Option (StreamMessageHandler S)
message_handler (on_stream_message h) = some h
message_handler _ = none

-- What a program does with the client: a call of OnPacketIn, OnDigestList, OnIdleTimeout or
-- OnStreamMessage, or of the closure that the n-th such call returned.
pub data Use (S : Type 0) : Type 0 where
  registers : Handler S → Use S
  cancels : Kind → ℕ → Use S

abbrev pub add_handler : {S : Type 0} → Handler S → DispatchSlots S → DispatchSlots S
add_handler (on_packet_in h) d = add_packet_in h d
add_handler (on_digest_list h) d = add_digest_list h d
add_handler (on_idle_timeout h) d = add_idle h d
add_handler (on_stream_message h) d = add_stream h d

abbrev pub cancel_handler : {S : Type 0} → Kind → ℕ → DispatchSlots S → DispatchSlots S
cancel_handler packets id d = cancel_packet_in id d
cancel_handler digests id d = cancel_digest_list id d
cancel_handler idles id d = cancel_idle id d
cancel_handler messages id d = cancel_stream id d

-- The uses, the latest first.
unfoldable pub slots_after : {S : Type 0} → List (Use S) → DispatchSlots S
slots_after [] = new_dispatch
slots_after (registers h ∷ uses) = add_handler h (slots_after uses)
slots_after (cancels k id ∷ uses) = cancel_handler k id (slots_after uses)

unfoldable pub registrations : {S : Type 0} → List (Use S) → ℕ
registrations [] = 0
registrations (registers h ∷ uses) = registrations uses + 1
registrations (cancels k id ∷ uses) = registrations uses

-- A registration's number and handler, without the one that is cancelled.
unfoldable pub without : {S : Type 0} → Kind → ℕ → List (ℕ × Handler S) → List (ℕ × Handler S)
without k id [] = []
without k id ((n, h) ∷ live) =
    let rest = without k id live in if n == id && has_kind k h then rest else (n, h) ∷ rest

-- The registrations that are not cancelled.
unfoldable pub live : {S : Type 0} → List (Use S) → List (ℕ × Handler S)
live [] = []
live (registers h ∷ uses) = (registrations uses, h) ∷ live uses
live (cancels k id ∷ uses) = without k id (live uses)

unfoldable pub pick : {S H : Type 0} → (Handler S → Option H) → List (ℕ × Handler S) → List (ℕ × H)
pick of_kind [] = []
pick of_kind ((n, h) ∷ hs) =
    let rest = pick of_kind hs in elim (of_kind h) [ none ↦ rest | some g ↦ (n, g) ∷ rest ]

-- The calls that a message makes of the handlers for every message, and of those for its kind.
abbrev pub message_calls : {S : Type 0} → List (ℕ × Handler S) → StreamMessage → List (S → S)
message_calls hs msg = map (λ r. r.1 msg) (pick message_handler hs)

abbrev pub kind_calls : {S : Type 0} → List (ℕ × Handler S) → StreamMessage → List (S → S)
kind_calls hs (packet_message p) = map (λ r. r.1 p) (pick packet_handler hs)
kind_calls hs (digest_message l) = map (λ r. r.1 l) (pick digest_handler hs)
kind_calls hs (idle_message i) = map (λ r. r.1 i) (pick idle_handler hs)
kind_calls hs (other_message u) = []

-- The calls run one after the other, from a state to another.
pub data Runs {S : Type 0} : List (S → S) → S → S → Type 0 where
  done : {s : S} → Runs [] s s
  call : {f : S → S} {fs : List (S → S)} {s t : S} → Runs fs (f s) t → Runs (f ∷ fs) s t

-- Each order gives the entries of a map, all of them and each once.
pub record Reorders {S : Type 0} (o : Orders S) : Type 0 where
  pub packets_all : (m : List (ℕ × PacketInHandler S)) → Perm (o.packet_order m) m
  pub digests_all : (m : List (ℕ × DigestListHandler S)) → Perm (o.digest_order m) m
  pub idles_all : (m : List (ℕ × IdleTimeoutHandler S)) → Perm (o.idle_order m) m
  pub messages_all : (m : List (ℕ × StreamMessageHandler S)) → Perm (o.stream_order m) m
