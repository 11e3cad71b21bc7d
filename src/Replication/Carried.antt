-- ===== src/Replication/Carried.antt =====
-- What an update of pre/pre.go says of a multicast group or a clone session.
use p4runtime_go_controller.Common.{ℕ, ◌≡◌, refl, List, [], ◌∷◌, Option, none, some, map}
use p4runtime_go_controller.Replication.{
  MulticastGroup, CloneSession, MulticastGroupEntry, CloneSessionEntry, Entity,
  multicast_group_entry, clone_session_entry, UpdateType, Update,
}
use p4runtime_go_controller.Replication.Replicas.{
  Replica, WireReplica, PortKind, egress_port, byte_port, port_kind_of, encode_replicas,
}

-- The oneof has the bytes of a port that is set, and else the number.
pub data PortOf : Option (List ℕ) → ℕ → PortKind → Type 0 where
  as_number : {n : ℕ} → PortOf none n (egress_port n)
  as_bytes : {b : List ℕ} {n : ℕ} → PortOf (some b) n (byte_port b)

-- One message for each replica, with its instance, its port and its backups.
pub data Carries : List Replica → List (Option WireReplica) → Type 0 where
  all_carried : Carries [] []
  carried :
      {r : Replica} {w : WireReplica} {rs : List Replica} {ws : List (Option WireReplica)}
      → w.instance_id ≡ r.instance_id
      → PortOf r.port r.egress_port w.port_kind
      → w.backup_replicas ≡ map some r.backup_replicas
      → Carries rs ws
      → Carries (r ∷ rs) (some w ∷ ws)

port_kind_of-PortOf : (port : Option (List ℕ)) (n : ℕ) → PortOf port n (port_kind_of port n)
port_kind_of-PortOf none n = as_number
port_kind_of-PortOf (some b) n = as_bytes

pub encode_replicas-Carries : (rs : List Replica) → Carries rs (encode_replicas rs)
unfolding encode_replicas
encode_replicas-Carries [] = all_carried
encode_replicas-Carries (r ∷ rs) =
    carried refl (port_kind_of-PortOf r.port r.egress_port) refl (encode_replicas-Carries rs)

pub data IsGroupEntity (g : MulticastGroup) : Entity → Type 0 where
  of_group :
      {e : MulticastGroupEntry}
      → e.multicast_group_id ≡ g.id
      → Carries g.replicas e.replicas
      → e.metadata ≡ g.metadata
      → IsGroupEntity g (multicast_group_entry e)

pub data IsSessionEntity (s : CloneSession) : Entity → Type 0 where
  of_session :
      {e : CloneSessionEntry}
      → e.session_id ≡ s.id
      → Carries s.replicas e.replicas
      → e.class_of_service ≡ s.class_of_service
      → e.packet_length_bytes ≡ s.packet_length_bytes
      → IsSessionEntity s (clone_session_entry e)

abbrev pub IsGroupUpdate : UpdateType → MulticastGroup → Update → Type 0
IsGroupUpdate kind g u = (u.kind ≡ kind) × IsGroupEntity g u.entity

abbrev pub IsSessionUpdate : UpdateType → CloneSession → Update → Type 0
IsSessionUpdate kind s u = (u.kind ≡ kind) × IsSessionEntity s u.entity
