-- ===== src/Replication/Examples.antt =====
-- Groups, sessions and replicas at concrete inputs.
use p4runtime_go_controller.Common.{◌≡◌, ◌↔◌, refl, List, [], ◌∷◌, ◌++◌, none, some}
use p4runtime_go_controller.Common.Int.{pos}
use p4runtime_go_controller.Common.Errors.{ok, err, plain}
use p4runtime_go_controller.Write.{WriteRequest, Reply, accepted}
use p4runtime_go_controller.Read.{ReadRequest, ReadReply, streaming}
use p4runtime_go_controller.Read.Collect.{responses, last_answer, closed}
use p4runtime_go_controller.Client.{Client, stream_config}
use p4runtime_go_controller.Client.Settings.{default_options}
use p4runtime_go_controller.Stream.{init}
use p4runtime_go_controller.Replication.{
  MulticastGroup, CloneSession, Entity, Update, insert_update, multicast_update,
  write_multicast_group, read_multicast_groups, checked_group,
}
use p4runtime_go_controller.Replication.Replicas.{
  Replica, no_port, check_port, check_backups, check_replicas, validate_replicas, encode_replicas,
  decode_replicas, decode_port,
}
use p4runtime_go_controller.Replication.RoundTrip.{decode_replicas-exact}
use p4runtime_go_controller.Replication.Carried.{IsGroupUpdate}
use p4runtime_go_controller.Replication.Valid.{
  AreValid, IsValid, Guards, write_multicast_group-Guards,
}
use p4runtime_go_controller.Replication.Reading.{group_entity, written-read_multicast_groups}

abbrev by_number : Replica
by_number = record { egress_port = 5; instance_id = 1; port = none; backup_replicas = [] }

abbrev by_bytes : Replica
by_bytes = record {
  egress_port = 0;
  instance_id = 2;
  port = some (1 ∷ 2 ∷ []);
  backup_replicas = record { port = 3 ∷ []; instance_id = 4 } ∷ [];
}

abbrev two_ports : Replica
two_ports = record { egress_port = 5; instance_id = 1; port = some (1 ∷ []); backup_replicas = [] }

abbrev replicas : List Replica
replicas = by_number ∷ by_bytes ∷ []

abbrev group : MulticastGroup
group = record { id = 7; replicas = replicas; metadata = [] }

abbrev no_session : CloneSession
no_session = record {
  id = 0;
  replicas = replicas;
  class_of_service = 0;
  packet_length_bytes = pos 0;
}

abbrev client : Client
client = record { opts = default_options; sup = init (stream_config default_options) }

abbrev accepts : WriteRequest Update → Reply
accepts req = accepted

abbrev holds_group : ReadRequest Entity → ReadReply Entity
holds_group req = streaming (responses ((group_entity group ∷ []) ∷ []) ++ last_answer closed ∷ [])

refuses_two_ports :
    validate_replicas (two_ports ∷ [])
    ≡ err (plain "pre: replica must set only one of EgressPort and Port")
unfolding validate_replicas check_replicas check_port
refuses_two_ports = refl

refuses_no_port :
    decode_replicas
      (some (record { instance_id = 1; port_kind = no_port; backup_replicas = [] }) ∷ [])
    ≡ err (plain "pre: replica port is missing")
unfolding decode_replicas decode_port
refuses_no_port = refl

replicas-check : check_replicas replicas ≡ ok tt
unfolding check_replicas check_port check_backups
replicas-check = refl

decode_replicas-exact_example :
    (decode_replicas (encode_replicas replicas) ≡ ok replicas)
    ↔ ((encode_replicas replicas ≡ encode_replicas replicas) × AreValid replicas)
decode_replicas-exact_example = decode_replicas-exact (encode_replicas replicas) replicas

write_multicast_group-Guards_example :
    Guards
      (IsValid 7 replicas)
      (IsGroupUpdate insert_update group)
      client
      accepts
      (write_multicast_group client insert_update group accepts)
write_multicast_group-Guards_example =
    write_multicast_group-Guards client insert_update group accepts

group-writable : checked_group insert_update group ≡ ok (multicast_update insert_update group)
unfolding checked_group validate_replicas check_replicas check_port check_backups
group-writable = refl

written-read_multicast_groups_example :
    (read_multicast_groups client 7 holds_group).1 ≡ some (ok (group ∷ []))
written-read_multicast_groups_example =
    written-read_multicast_groups client 7 holds_group (group ∷ []) ((group_entity group ∷ []) ∷ [])
      (group-writable, tt) refl refl
