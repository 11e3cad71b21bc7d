-- ===== src/Replication/Replicas.antt =====
-- The replicas of pre/pre.go: validateReplicas, encodeReplicas and decodeReplicas.
use p4runtime_go_controller.Common.{
  ℕ, Bool, not, List, [], ◌∷◌, Option, none, some, map, ◌==◌, length, if◌then◌else◌,
}
use p4runtime_go_controller.Common.Errors.{Result, ok, err, plain, ◌>>=◌, ◌>>◌}

pub record BackupReplica : Type 0 where
  pub port : List ℕ
  pub instance_id : ℕ

pub record Replica : Type 0 where
  pub egress_port : ℕ
  pub instance_id : ℕ
  pub port : Option (List ℕ)
  pub backup_replicas : List BackupReplica

-- p4.v1.Replica: its oneof may be missing.
pub data PortKind : Type 0 where
  no_port : PortKind
  egress_port : ℕ → PortKind
  byte_port : List ℕ → PortKind

pub record WireReplica : Type 0 where
  pub instance_id : ℕ
  pub port_kind : PortKind
  pub backup_replicas : List (Option BackupReplica)

abbrev pub is_empty : List ℕ → Bool
is_empty b = length b == 0

-- The first switch of validateReplicas.
unfoldable pub check_port : Option (List ℕ) → ℕ → Result (Unit {0})
check_port (some port) egress =
    if not (egress == 0)
    then err (plain "pre: replica must set only one of EgressPort and Port")
    else if is_empty port
    then err (plain "pre: replica port must not be empty")
    else ok tt
check_port none egress =
    if egress == 0 then err (plain "pre: replica egress port must be non-zero") else ok tt

unfoldable pub check_backups : List BackupReplica → Result (Unit {0})
check_backups [] = ok tt
check_backups (b ∷ bs) =
    let rest = check_backups bs in
    if is_empty b.port then err (plain "pre: replica backup port must not be empty") else rest

-- The loop of validateReplicas.
unfoldable pub check_replicas : List Replica → Result (Unit {0})
check_replicas [] = ok tt
check_replicas (r ∷ rs) =
    check_port r.port r.egress_port >> (check_backups r.backup_replicas >> check_replicas rs)

unfoldable pub validate_replicas : List Replica → Result (Unit {0})
validate_replicas rs =
    if length rs == 0 then err (plain "pre: replicas must not be empty") else check_replicas rs

abbrev pub port_kind_of : Option (List ℕ) → ℕ → PortKind
port_kind_of (some port) egress = byte_port port
port_kind_of none egress = egress_port egress

abbrev pub encode_replica : Replica → WireReplica
encode_replica r = record {
  instance_id = r.instance_id;
  port_kind = port_kind_of r.port r.egress_port;
  backup_replicas = map some r.backup_replicas;
}

unfoldable pub encode_replicas : List Replica → List (Option WireReplica)
encode_replicas [] = []
encode_replicas (r ∷ rs) = some (encode_replica r) ∷ encode_replicas rs

-- The port of a replica: the egress port, and the byte port.
unfoldable pub decode_port : PortKind → Result (ℕ × Option (List ℕ))
decode_port no_port = err (plain "pre: replica port is missing")
decode_port (egress_port p) =
    if p == 0 then err (plain "pre: replica egress port must be non-zero") else ok (p, none)
decode_port (byte_port b) =
    if is_empty b then err (plain "pre: replica port must not be empty") else ok (0, some b)

unfoldable pub decode_backups : List (Option BackupReplica) → Result (List BackupReplica)
decode_backups [] = ok []
decode_backups (none ∷ bs) = err (plain "pre: replica backup port must not be empty")
decode_backups (some b ∷ bs) =
    let rest = decode_backups bs in
    if is_empty b.port
    then err (plain "pre: replica backup port must not be empty")
    else rest >>= λ out. ok (b ∷ out)

abbrev pub decode_replica : Option WireReplica → Result Replica
decode_replica none = err (plain "pre: replica is nil")
decode_replica (some r) = decode_port r.port_kind >>= λ p.
    decode_backups r.backup_replicas >>= λ bs.
    ok (record { egress_port = p.0; instance_id = r.instance_id; port = p.1; backup_replicas = bs })

unfoldable pub decode_replicas : List (Option WireReplica) → Result (List Replica)
decode_replicas [] = ok []
decode_replicas (w ∷ ws) = decode_replica w >>= λ r. decode_replicas ws >>= λ rs. ok (r ∷ rs)
