-- ===== src/Client/Dispatch.antt =====
-- client/stream.go: the registered handlers, and what a message is handed to. `S` is everything a
-- handler can change, the registrations included; a handler is what it does to it. The maps are
-- lists, the newest entry first; the order in which Go gives the values of a map is not determined,
-- and is an argument. The mutex makes each of these functions one step.
use p4runtime_go_controller.Common.{
  ℕ, ◌+◌, ◌%◌, ◌^◌, List, [], ◌∷◌, ◌++◌, Option, ◌==◌, if◌then◌else◌,
}

-- p4.v1.PacketMetadata and PacketIn
pub record PacketMetadata : Type 0 where
  pub metadata_id : ℕ
  pub value : List ℕ

pub record PacketInMessage : Type 0 where
  pub payload : List ℕ
  pub metadata : List PacketMetadata

-- p4.v1.DigestList: its data are a number that tells them apart.
pub record DigestList : Type 0 where
  pub digest_id : ℕ
  pub list_id : ℕ
  pub data_entries : ℕ

-- p4.v1.StreamMessageResponse: what its oneof holds, where `none` is a nil message.
pub data StreamMessage : Type 0 where
  packet_message : Option PacketInMessage → StreamMessage
  digest_message : Option DigestList → StreamMessage
  idle_message : Option ℕ → StreamMessage
  other_message : ℕ → StreamMessage

abbrev pub PacketInHandler : Type 0 → Type 0
PacketInHandler S = Option PacketInMessage → S → S

abbrev pub DigestListHandler : Type 0 → Type 0
DigestListHandler S = Option DigestList → S → S

abbrev pub IdleTimeoutHandler : Type 0 → Type 0
IdleTimeoutHandler S = Option ℕ → S → S

abbrev pub StreamMessageHandler : Type 0 → Type 0
StreamMessageHandler S = StreamMessage → S → S

pub record DispatchSlots (S : Type 0) : Type 0 where
  pub packet_in : List (ℕ × PacketInHandler S)
  pub digest_list : List (ℕ × DigestListHandler S)
  pub idle : List (ℕ × IdleTimeoutHandler S)
  pub stream : List (ℕ × StreamMessageHandler S)
  pub next_id : ℕ

unfoldable pub new_dispatch : {S : Type 0} → DispatchSlots S
new_dispatch = record { packet_in = []; digest_list = []; idle = []; stream = []; next_id = 0 }

-- delete(m, id), and m[id] = h
unfoldable pub delete : {H : Type 0} → ℕ → List (ℕ × H) → List (ℕ × H)
delete id [] = []
delete id ((n, h) ∷ m) = let rest = delete id m in if n == id then rest else (n, h) ∷ rest

abbrev pub set : {H : Type 0} → ℕ → H → List (ℕ × H) → List (ℕ × H)
set id h m = (id, h) ∷ delete id m

abbrev pub after : ℕ → ℕ
after id = (id + 1) % 2 ^ 64

-- addPacketIn and its siblings: the slots afterwards. The closure that they return cancels the
-- number that next_id was before.
unfoldable pub add_packet_in : {S : Type 0} → PacketInHandler S → DispatchSlots S → DispatchSlots S
add_packet_in h d = record d { next_id = after d.next_id; packet_in = set d.next_id h d.packet_in }

unfoldable pub add_digest_list :
    {S : Type 0} → DigestListHandler S → DispatchSlots S → DispatchSlots S
add_digest_list h d = record d {
  next_id = after d.next_id;
  digest_list = set d.next_id h d.digest_list;
}

unfoldable pub add_idle : {S : Type 0} → IdleTimeoutHandler S → DispatchSlots S → DispatchSlots S
add_idle h d = record d { next_id = after d.next_id; idle = set d.next_id h d.idle }

unfoldable pub add_stream :
    {S : Type 0} → StreamMessageHandler S → DispatchSlots S → DispatchSlots S
add_stream h d = record d { next_id = after d.next_id; stream = set d.next_id h d.stream }

unfoldable pub cancel_packet_in : {S : Type 0} → ℕ → DispatchSlots S → DispatchSlots S
cancel_packet_in id d = record d { packet_in = delete id d.packet_in }

unfoldable pub cancel_digest_list : {S : Type 0} → ℕ → DispatchSlots S → DispatchSlots S
cancel_digest_list id d = record d { digest_list = delete id d.digest_list }

unfoldable pub cancel_idle : {S : Type 0} → ℕ → DispatchSlots S → DispatchSlots S
cancel_idle id d = record d { idle = delete id d.idle }

unfoldable pub cancel_stream : {S : Type 0} → ℕ → DispatchSlots S → DispatchSlots S
cancel_stream id d = record d { stream = delete id d.stream }

-- maps.Values, each handler given its message.
unfoldable pub calls : {S M : Type 0} → M → List (ℕ × (M → S → S)) → List (S → S)
calls msg [] = []
calls msg ((n, h) ∷ m) = h msg ∷ calls msg m

-- The orders in which maps.Values gives the values of the four maps.
pub record Orders (S : Type 0) : Type 0 where
  pub packet_order : List (ℕ × PacketInHandler S) → List (ℕ × PacketInHandler S)
  pub digest_order : List (ℕ × DigestListHandler S) → List (ℕ × DigestListHandler S)
  pub idle_order : List (ℕ × IdleTimeoutHandler S) → List (ℕ × IdleTimeoutHandler S)
  pub stream_order : List (ℕ × StreamMessageHandler S) → List (ℕ × StreamMessageHandler S)

-- The calls that dispatch selects under the lock.
unfoldable pub selected : {S : Type 0} → Orders S → DispatchSlots S → StreamMessage → List (S → S)
selected o d (packet_message p) =
    calls (packet_message p) (o.stream_order d.stream) ++ calls p (o.packet_order d.packet_in)
selected o d (digest_message l) =
    calls (digest_message l) (o.stream_order d.stream) ++ calls l (o.digest_order d.digest_list)
selected o d (idle_message i) =
    calls (idle_message i) (o.stream_order d.stream) ++ calls i (o.idle_order d.idle)
selected o d (other_message u) = calls (other_message u) (o.stream_order d.stream)

unfoldable pub run_calls : {S : Type 0} → List (S → S) → S → S
run_calls [] s = s
run_calls (f ∷ fs) s = run_calls fs (f s)

-- dispatch, where `slots` says where the state keeps the registrations.
unfoldable pub dispatch : {S : Type 0} → Orders S → (S → DispatchSlots S) → StreamMessage → S → S
dispatch order slots msg s = run_calls (selected order (slots s) msg) s
