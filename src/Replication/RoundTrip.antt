-- ===== src/Replication/RoundTrip.antt =====
-- The encoding of replicas of pre/pre.go and its decoding, and the entries that hold them.
use p4runtime_go_controller.Common.{
  ℕ, ◌≡◌, ◌↔◌, refl, subst, ap, ◌∙◌, List, [], ◌∷◌, Option, none, some, map, arith,
}
use p4runtime_go_controller.Common.Errors.{bind-ok, then-ok, ok-injective, ok, ◌>>=◌, ◌>>◌}
use p4runtime_go_controller.Replication.Replicas.{
  BackupReplica, Replica, WireReplica, PortKind, no_port, egress_port, byte_port, check_port,
  check_backups, check_replicas, encode_replica, encode_replicas, port_kind_of, decode_port,
  decode_backups, decode_replica, decode_replicas,
}
use p4runtime_go_controller.Replication.Valid.{
  AreValid, check_replicas_sound, check_replicas_complete,
}

decode_port-port_kind_of :
    (port : Option (List ℕ)) (egress : ℕ)
    → check_port port egress ≡ ok tt
    → decode_port (port_kind_of port egress) ≡ ok (egress, port)
unfolding check_port decode_port
decode_port-port_kind_of none egress h = ground arith
decode_port-port_kind_of (some b) egress h = ground arith

decode_backups-map :
    (bs : List BackupReplica) → check_backups bs ≡ ok tt → decode_backups (map some bs) ≡ ok bs
unfolding check_backups decode_backups
decode_backups-map [] h = refl
decode_backups-map (b ∷ bs) h = ground (arith, decode_backups-map bs)

pub decode-encode_replicas :
    (rs : List Replica) → check_replicas rs ≡ ok tt → decode_replicas (encode_replicas rs) ≡ ok rs
unfolding check_replicas decode_replicas encode_replicas
decode-encode_replicas [] h = refl
decode-encode_replicas (r ∷ rs) h =
    let (port_ok, more) =
      then-ok (check_port r.port r.egress_port)
        (check_backups r.backup_replicas >> check_replicas rs) tt h in
    let (backups_ok, rest_ok) =
      then-ok (check_backups r.backup_replicas) (check_replicas rs) tt more in
    ground (
      arith,
      decode_port-port_kind_of r.port r.egress_port port_ok.1,
      decode_backups-map r.backup_replicas backups_ok.1,
      decode-encode_replicas rs rest_ok,
    )

-- What decode_port accepts, check_port accepts, and it encodes to the same oneof.
decode_port-inverts :
    (w : PortKind) (p : ℕ × Option (List ℕ))
    → decode_port w ≡ ok p
    → (w ≡ port_kind_of (p.1) (p.0)) × (check_port (p.1) (p.0) ≡ ok tt)
unfolding check_port decode_port
decode_port-inverts no_port p h = ground arith
decode_port-inverts (egress_port e) (n, none) h = ground arith
decode_port-inverts (egress_port e) (n, some c) h = ground arith
decode_port-inverts (byte_port b) (n, none) h = ground arith
decode_port-inverts (byte_port b) (n, some c) h = ground arith

decode_backups-inverts :
    (ws : List (Option BackupReplica)) (bs : List BackupReplica)
    → decode_backups ws ≡ ok bs
    → (ws ≡ map some bs) × (check_backups bs ≡ ok tt)
unfolding check_backups decode_backups
decode_backups-inverts [] [] h = (refl, refl)
decode_backups-inverts [] (c ∷ bs) h = cc
decode_backups-inverts (none ∷ ws) bs h = cc
decode_backups-inverts (some b ∷ ws) [] h = ground arith
decode_backups-inverts (some b ∷ ws) (c ∷ bs) h = ground (arith, decode_backups-inverts ws bs)

decode_replica-inverts :
    (w : Option WireReplica) (r : Replica)
    → decode_replica w ≡ ok r
    → (w ≡ some (encode_replica r))
      × (check_port r.port r.egress_port ≡ ok tt)
      × (check_backups r.backup_replicas ≡ ok tt)
decode_replica-inverts none r h = cc
decode_replica-inverts (some w) r h =
    let (p, at_port, h') =
      bind-ok (decode_port w.port_kind)
        (λ p. decode_backups w.backup_replicas >>= λ bs. ok (record {
          egress_port = p.0;
          instance_id = w.instance_id;
          port = p.1;
          backup_replicas = bs;
        }))
        r h in
    let (bs, at_backups, h'') =
      bind-ok (decode_backups w.backup_replicas)
        (λ bs. ok (record {
          egress_port = p.0;
          instance_id = w.instance_id;
          port = p.1;
          backup_replicas = bs;
        }))
        r h' in
    ground (
      arith,
      decode_port-inverts w.port_kind p at_port,
      decode_backups-inverts w.backup_replicas bs at_backups,
    )

decode_replicas-inverts :
    (ws : List (Option WireReplica)) (rs : List Replica)
    → decode_replicas ws ≡ ok rs
    → (ws ≡ encode_replicas rs) × (check_replicas rs ≡ ok tt)
unfolding decode_replicas encode_replicas check_replicas
decode_replicas-inverts [] [] h = (refl, refl)
decode_replicas-inverts [] (r ∷ rs) h = cc
decode_replicas-inverts (w ∷ ws) rs h =
    let (r, first, h') =
      bind-ok (decode_replica w) (λ r. decode_replicas ws >>= λ rs. ok (r ∷ rs)) rs h in
    let (more, later, h'') = bind-ok (decode_replicas ws) (λ rs. ok (r ∷ rs)) rs h' in
    subst (λ out. (w ∷ ws ≡ encode_replicas out) × (check_replicas out ≡ ok tt)) (ok-injective h'')
      (ground (arith, decode_replica-inverts w r first, decode_replicas-inverts ws more later))

-- The messages that decodeReplicas accepts are the encodings of replicas of which each has exactly
-- one port, a number other than 0 or bytes, and backup ports that are not empty; it returns those
-- replicas. An empty list of messages is accepted, unlike in a write.
pub decode_replicas-exact :
    (ws : List (Option WireReplica)) (rs : List Replica)
    → (decode_replicas ws ≡ ok rs) ↔ ((ws ≡ encode_replicas rs) × AreValid rs)
decode_replicas-exact ws rs = (
  λ h.
      let (encoded, checked) = decode_replicas-inverts ws rs h in
      (encoded, check_replicas_sound rs checked),
  λ p. ap decode_replicas (p.0) ∙ decode-encode_replicas rs (check_replicas_complete (p.1)),
)
