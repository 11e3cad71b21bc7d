-- ===== src/Replication.antt =====
-- pre/pre.go: multicast groups and clone sessions of the Packet Replication Engine. A nil port is
-- `none`; a port that is set is `some`, also when it is empty. The code copies ports; a list is a
-- value. Read and Write are those of the client.
pub mod Replicas
pub mod RoundTrip
pub mod Carried
pub mod Valid
pub mod Reading
mod Examples
use p4runtime_go_controller.Common.{
  ℕ, Bool, true, false, ◌&&◌, ◌||◌, not, List, [], ◌∷◌, ◌++◌, Option, none, some, ◌==◌, length,
  if◌then◌else◌,
}
use p4runtime_go_controller.Common.Int.{ℤ, pos}
use p4runtime_go_controller.Common.Errors.{
  Error, Result, ok, err, plain, wrap, ◌>>=◌, ◌>>◌, wrapping,
}
use p4runtime_go_controller.Write.{WriteRequest, WriteResult, Reply}
use p4runtime_go_controller.Read.{ReadRequest, ReadReply}
use p4runtime_go_controller.Client.{Client, client_write, client_read}
use p4runtime_go_controller.Replication.Replicas.{
  Replica, WireReplica, validate_replicas, encode_replicas, decode_replicas,
}

pub record MulticastGroup : Type 0 where
  pub id : ℕ
  pub replicas : List Replica
  pub metadata : List ℕ

pub record CloneSession : Type 0 where
  pub id : ℕ
  pub replicas : List Replica
  pub class_of_service : ℕ
  pub packet_length_bytes : ℤ

pub record MulticastGroupEntry : Type 0 where
  pub multicast_group_id : ℕ
  pub replicas : List (Option WireReplica)
  pub metadata : List ℕ

pub record CloneSessionEntry : Type 0 where
  pub session_id : ℕ
  pub replicas : List (Option WireReplica)
  pub class_of_service : ℕ
  pub packet_length_bytes : ℤ

-- p4.v1.Entity: an entry of the engine, or any other entity.
pub data Entity : Type 0 where
  multicast_group_entry : MulticastGroupEntry → Entity
  clone_session_entry : CloneSessionEntry → Entity
  other_entity : Entity

pub data UpdateType : Type 0 where
  insert_update modify_update delete_update : UpdateType

pub record Update : Type 0 where
  pub kind : UpdateType
  pub entity : Entity

unfoldable pub multicast_update : UpdateType → MulticastGroup → Update
multicast_update kind mg = record {
  kind = kind;
  entity = multicast_group_entry (record {
    multicast_group_id = mg.id;
    replicas = encode_replicas mg.replicas;
    metadata = mg.metadata;
  });
}

unfoldable pub clone_update : UpdateType → CloneSession → Update
clone_update kind cs = record {
  kind = kind;
  entity = clone_session_entry (record {
    session_id = cs.id;
    replicas = encode_replicas cs.replicas;
    class_of_service = cs.class_of_service;
    packet_length_bytes = cs.packet_length_bytes;
  });
}

-- The update that a write sends, after its checks.
unfoldable pub checked_group : UpdateType → MulticastGroup → Result Update
checked_group kind mg =
    if mg.id == 0
    then err (plain "pre.MulticastGroup: id must be non-zero")
    else validate_replicas mg.replicas >> ok (multicast_update kind mg)

unfoldable pub checked_session : UpdateType → CloneSession → Result Update
checked_session kind cs =
    if cs.id == 0
    then err (plain "pre.CloneSession: id must be non-zero")
    else validate_replicas cs.replicas >> ok (clone_update kind cs)

unfoldable pub checked_group_delete : ℕ → Result Update
checked_group_delete id =
    if id == 0
    then err (plain "pre.DeleteMulticastGroup: id must be non-zero")
    else ok (multicast_update delete_update (record { id = id; replicas = []; metadata = [] }))

unfoldable pub checked_session_delete : ℕ → Result Update
checked_session_delete id =
    if id == 0
    then err (plain "pre.DeleteCloneSession: id must be non-zero")
    else ok (
        clone_update delete_update
          (record { id = id; replicas = []; class_of_service = 0; packet_length_bytes = pos 0 }))

abbrev pub WriteOutcome : Type 0
WriteOutcome = List (WriteRequest Update) × Result WriteResult

abbrev pub write_update : Client → (WriteRequest Update → Reply) → Result Update → WriteOutcome
write_update c rpc (err e) = ([], err e)
write_update c rpc (ok u) = let (sent, r) = client_write c (u ∷ []) rpc in (sent, ok r)

unfoldable pub write_multicast_group :
    Client → UpdateType → MulticastGroup → (WriteRequest Update → Reply) → WriteOutcome
write_multicast_group c kind mg rpc = write_update c rpc (checked_group kind mg)

unfoldable pub write_clone_session :
    Client → UpdateType → CloneSession → (WriteRequest Update → Reply) → WriteOutcome
write_clone_session c kind cs rpc = write_update c rpc (checked_session kind cs)

unfoldable pub insert_multicast_group :
    Client → MulticastGroup → (WriteRequest Update → Reply) → WriteOutcome
insert_multicast_group c mg rpc = write_multicast_group c insert_update mg rpc

unfoldable pub modify_multicast_group :
    Client → MulticastGroup → (WriteRequest Update → Reply) → WriteOutcome
modify_multicast_group c mg rpc = write_multicast_group c modify_update mg rpc

unfoldable pub insert_clone_session :
    Client → CloneSession → (WriteRequest Update → Reply) → WriteOutcome
insert_clone_session c cs rpc = write_clone_session c insert_update cs rpc

unfoldable pub modify_clone_session :
    Client → CloneSession → (WriteRequest Update → Reply) → WriteOutcome
modify_clone_session c cs rpc = write_clone_session c modify_update cs rpc

unfoldable pub delete_multicast_group : Client → ℕ → (WriteRequest Update → Reply) → WriteOutcome
delete_multicast_group c id rpc = write_update c rpc (checked_group_delete id)

unfoldable pub delete_clone_session : Client → ℕ → (WriteRequest Update → Reply) → WriteOutcome
delete_clone_session c id rpc = write_update c rpc (checked_session_delete id)

-- The loop of ReadMulticastGroups.
unfoldable pub decode_groups : List Entity → Result (List MulticastGroup)
decode_groups [] = ok []
decode_groups (multicast_group_entry mge ∷ ents) = do
  replicas ← wrapping "pre.ReadMulticastGroups" (decode_replicas mge.replicas)
  rest ← decode_groups ents
  ok (record { id = mge.multicast_group_id; replicas = replicas; metadata = mge.metadata } ∷ rest)
decode_groups (_ ∷ ents) = decode_groups ents

-- The loop of ReadCloneSessions.
unfoldable pub decode_sessions : List Entity → Result (List CloneSession)
decode_sessions [] = ok []
decode_sessions (clone_session_entry cse ∷ ents) = do
  replicas ← wrapping "pre.ReadCloneSessions" (decode_replicas cse.replicas)
  rest ← decode_sessions ents
  ok (
      record {
        id = cse.session_id;
        replicas = replicas;
        class_of_service = cse.class_of_service;
        packet_length_bytes = cse.packet_length_bytes;
      }
      ∷ rest)
decode_sessions (_ ∷ ents) = decode_sessions ents

abbrev pub decoded :
    {A : Type 0}
    → (List Entity → Result (List A))
    → Option (Result (List Entity))
    → Option (Result (List A))
decoded decode none = none
decoded decode (some (err e)) = some (err e)
decoded decode (some (ok ents)) = some (decode ents)

abbrev pub group_selector : ℕ → Entity
group_selector id =
    multicast_group_entry (record { multicast_group_id = id; replicas = []; metadata = [] })

abbrev pub session_selector : ℕ → Entity
session_selector id =
    clone_session_entry
      (record { session_id = id; replicas = []; class_of_service = 0; packet_length_bytes = pos 0 })

unfoldable pub read_multicast_groups :
    Client
    → ℕ
    → (ReadRequest Entity → ReadReply Entity)
    → List (ReadRequest Entity) × Option (Result (List MulticastGroup))
read_multicast_groups c id rpc =
    let (sent, r) = client_read c (group_selector id ∷ []) rpc in (sent, decoded decode_groups r)

unfoldable pub read_clone_sessions :
    Client
    → ℕ
    → (ReadRequest Entity → ReadReply Entity)
    → List (ReadRequest Entity) × Option (Result (List CloneSession))
read_clone_sessions c id rpc =
    let (sent, r) = client_read c (session_selector id ∷ []) rpc in
    (sent, decoded decode_sessions r)
