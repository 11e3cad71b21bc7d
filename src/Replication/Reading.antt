-- ===== src/Replication/Reading.antt =====
-- What pre/pre.go writes, read back: Write and Read of client/write.go with the entities of the
-- Packet Replication Engine.
use p4runtime_go_controller.Common.{ℕ, ◌≡◌, ◌∙◌, refl, ap, List, [], ◌∷◌, ◌++◌, some, map, arith}
use p4runtime_go_controller.Common.Errors.{ok}
use p4runtime_go_controller.Read.{ReadRequest, ReadReply, streaming}
use p4runtime_go_controller.Read.Collect.{responses, joined, closed, last_answer, read-responses}
use p4runtime_go_controller.Client.{Client, client_read}
use p4runtime_go_controller.Replication.{
  MulticastGroup, Entity, insert_update, multicast_update, checked_group, group_selector,
  decode_groups, decoded, read_multicast_groups,
}
use p4runtime_go_controller.Replication.Replicas.{check_replicas, validate_replicas}
use p4runtime_go_controller.Replication.RoundTrip.{decode-encode_replicas}

-- A group that an insert would send.
abbrev pub IsWritable : MulticastGroup → Type 0
IsWritable g = checked_group insert_update g ≡ ok (multicast_update insert_update g)

abbrev pub AllWritable : List MulticastGroup → Type 0
AllWritable [] = Unit
AllWritable (g ∷ gs) = IsWritable g × AllWritable gs

abbrev pub group_entity : MulticastGroup → Entity
group_entity g = (multicast_update insert_update g).entity

validate-check : (g : MulticastGroup) → IsWritable g → check_replicas g.replicas ≡ ok tt
unfolding checked_group validate_replicas
validate-check g h = ground arith

decode_groups-map :
    (gs : List MulticastGroup) → AllWritable gs → decode_groups (map group_entity gs) ≡ ok gs
unfolding decode_groups multicast_update
decode_groups-map [] h = refl
decode_groups-map (g ∷ gs) (first, rest) =
    ground
      (arith, decode-encode_replicas g.replicas (validate-check g first), decode_groups-map gs rest)

-- ReadMulticastGroups from a target that holds groups which an insert accepts, and answers with
-- their entities in any number of responses, returns those groups in their order.
pub written-read_multicast_groups :
    (c : Client) (id : ℕ) (rpc : ReadRequest Entity → ReadReply Entity) (gs : List MulticastGroup)
    (chunks : List (List Entity))
    → AllWritable gs
    → joined chunks ≡ map group_entity gs
    → rpc (record {
      device_id = c.opts.device_id;
      role = c.opts.role;
      entities = group_selector id ∷ [];
    })
      ≡ streaming (responses chunks ++ last_answer closed ∷ [])
    → (read_multicast_groups c id rpc).1 ≡ some (ok gs)
unfolding read_multicast_groups client_read
written-read_multicast_groups c id rpc gs chunks writable held answers =
    ap (λ out. decoded decode_groups (out.1))
      (read-responses
        (record {
          device_id = c.opts.device_id;
          role = c.opts.role;
          entities = group_selector id ∷ [];
        })
        rpc chunks closed [] (ground arith) answers)
    ∙ ap some (ap decode_groups held ∙ decode_groups-map gs writable)
