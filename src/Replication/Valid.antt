-- ===== src/Replication/Valid.antt =====
-- What the checks of pre/pre.go accept, and the writes of multicast groups and clone sessions.
use p4runtime_go_controller.Common.{
  ℕ, zero, suc, ◌≡◌, ◌↔◌, ◌<◌, refl, ap, List, [], ◌∷◌, Option, none, some, arith, length,
}
use p4runtime_go_controller.Common.Errors.{err-ne-ok, Result, ok, err, then-ok, IsErr, ◌>>◌}
use p4runtime_go_controller.Write.{WriteRequest, Reply}
use p4runtime_go_controller.Client.{Client, client_write}
use p4runtime_go_controller.Replication.{
  MulticastGroup, CloneSession, UpdateType, Update, multicast_update, clone_update, checked_group,
  checked_session, write_update, WriteOutcome, write_multicast_group, write_clone_session,
}
use p4runtime_go_controller.Replication.Replicas.{
  BackupReplica, Replica, check_port, check_backups, check_replicas, validate_replicas,
}
use p4runtime_go_controller.Replication.Carried.{
  IsGroupUpdate, IsSessionUpdate, of_group, of_session, encode_replicas-Carries,
}

-- A port is a number other than 0, or bytes.
pub data HasPort : Option (List ℕ) → ℕ → Type 0 where
  numbered : {n : ℕ} → 0 < n → HasPort none n
  in_bytes : {b : ℕ} {bs : List ℕ} → HasPort (some (b ∷ bs)) 0

pub data HasPorts : List BackupReplica → Type 0 where
  no_backup : HasPorts []
  another :
      {r : BackupReplica} {rs : List BackupReplica}
      → 0 < length r.port
      → HasPorts rs
      → HasPorts (r ∷ rs)

pub data AreValid : List Replica → Type 0 where
  no_replica : AreValid []
  valid :
      {r : Replica} {rs : List Replica}
      → HasPort r.port r.egress_port
      → HasPorts r.backup_replicas
      → AreValid rs
      → AreValid (r ∷ rs)

check_port_sound : (port : Option (List ℕ)) (n : ℕ) → check_port port n ≡ ok tt → HasPort port n
unfolding check_port
check_port_sound none n h = numbered (ground arith)
check_port_sound (some []) zero h = ground arith
check_port_sound (some (b ∷ bs)) zero h = in_bytes
check_port_sound (some bs) (suc n) h = ground arith

check_port_complete : {port : Option (List ℕ)} {n : ℕ} → HasPort port n → check_port port n ≡ ok tt
unfolding check_port
check_port_complete (numbered p) = ground arith
check_port_complete in_bytes = ground arith

check_backups_sound : (bs : List BackupReplica) → check_backups bs ≡ ok tt → HasPorts bs
unfolding check_backups
check_backups_sound [] h = no_backup
check_backups_sound (b ∷ bs) h = another (ground arith) (check_backups_sound bs (ground arith))

check_backups_complete : {bs : List BackupReplica} → HasPorts bs → check_backups bs ≡ ok tt
unfolding check_backups
check_backups_complete no_backup = refl
check_backups_complete (another p rest) = ground (arith, check_backups_complete rest)

pub check_replicas_sound : (rs : List Replica) → check_replicas rs ≡ ok tt → AreValid rs
unfolding check_replicas
check_replicas_sound [] h = no_replica
check_replicas_sound (r ∷ rs) h =
    let (port_ok, more) =
      then-ok (check_port r.port r.egress_port)
        (check_backups r.backup_replicas >> check_replicas rs) tt h in
    let (backups_ok, rest_ok) =
      then-ok (check_backups r.backup_replicas) (check_replicas rs) tt more in
    valid (check_port_sound r.port r.egress_port (port_ok.1))
      (check_backups_sound r.backup_replicas (backups_ok.1)) (check_replicas_sound rs rest_ok)

pub check_replicas_complete : {rs : List Replica} → AreValid rs → check_replicas rs ≡ ok tt
unfolding check_replicas
check_replicas_complete no_replica = refl
check_replicas_complete (valid port backups rest) =
    ground (
      arith,
      check_port_complete port,
      check_backups_complete backups,
      check_replicas_complete rest,
    )

-- validateReplicas accepts the replicas of which there is one at least, each with exactly one
-- port, and with backup ports that are not empty.
pub validate_replicas-exact :
    (rs : List Replica) → (validate_replicas rs ≡ ok tt) ↔ ((0 < length rs) × AreValid rs)
unfolding validate_replicas
validate_replicas-exact rs = (
  λ h. (ground arith, check_replicas_sound rs (ground arith)),
  λ p. ground (arith, check_replicas_complete (p.1)),
)

-- A group or session whose ID is not 0, and whose replicas are valid.
abbrev pub IsValid : ℕ → List Replica → Type 0
IsValid id rs = (0 < id) × (0 < length rs) × AreValid rs

checked_group-IsValid :
    (kind : UpdateType) (g : MulticastGroup) (u : Update)
    → checked_group kind g ≡ ok u
    → IsValid g.id g.replicas
unfolding checked_group
checked_group-IsValid kind g u h =
    let (rs_ok, h') =
      then-ok (validate_replicas g.replicas) (ok (multicast_update kind g)) u (ground arith) in
    let (some_replica, are_valid) = (validate_replicas-exact g.replicas).0 (rs_ok.1) in
    (ground arith, some_replica, are_valid)

checked_session-IsValid :
    (kind : UpdateType) (s : CloneSession) (u : Update)
    → checked_session kind s ≡ ok u
    → IsValid s.id s.replicas
unfolding checked_session
checked_session-IsValid kind s u h =
    let (rs_ok, h') =
      then-ok (validate_replicas s.replicas) (ok (clone_update kind s)) u (ground arith) in
    let (some_replica, are_valid) = (validate_replicas-exact s.replicas).0 (rs_ok.1) in
    (ground arith, some_replica, are_valid)

checked_group-accepts :
    (kind : UpdateType) (g : MulticastGroup)
    → IsValid g.id g.replicas
    → checked_group kind g ≡ ok (multicast_update kind g)
unfolding checked_group
checked_group-accepts kind g (id_ok, some_replica, are_valid) =
    ground (arith, (validate_replicas-exact g.replicas).1 (some_replica, are_valid))

checked_session-accepts :
    (kind : UpdateType) (s : CloneSession)
    → IsValid s.id s.replicas
    → checked_session kind s ≡ ok (clone_update kind s)
unfolding checked_session
checked_session-accepts kind s (id_ok, some_replica, are_valid) =
    ground (arith, (validate_replicas-exact s.replicas).1 (some_replica, are_valid))

-- A write of something that is valid is one update, which describes it, for the client's Write;
-- nothing is sent for something that is not.
pub data Guards (valid_input : Type 0) (describes : Update → Type 0) (c : Client)
    (rpc : WriteRequest Update → Reply) (outcome : WriteOutcome) : Type 0 where
  passes :
      {u : Update}
      → valid_input
      → describes u
      → outcome ≡ ((client_write c (u ∷ []) rpc).0, ok ((client_write c (u ∷ []) rpc).1))
      → Guards valid_input describes c rpc outcome
  refuses :
      ¬ valid_input
      → outcome.0 ≡ []
      → IsErr (outcome.1)
      → Guards valid_input describes c rpc outcome

write_update-Guards :
    {valid_input : Type 0} {describes : Update → Type 0} (c : Client)
    (rpc : WriteRequest Update → Reply) (u : Update) (r : Result Update)
    → describes u
    → ((x : Update) → r ≡ ok x → valid_input)
    → (valid_input → r ≡ ok u)
    → Guards valid_input describes c rpc (write_update c rpc r)
write_update-Guards c rpc u (ok x) described sound complete =
    passes (sound x refl) described (ap (write_update c rpc) (complete (sound x refl)))
write_update-Guards c rpc u (err e) described sound complete =
    refuses (λ v. err-ne-ok (complete v)) refl tt

multicast_update-IsGroupUpdate :
    (kind : UpdateType) (g : MulticastGroup) → IsGroupUpdate kind g (multicast_update kind g)
unfolding multicast_update
multicast_update-IsGroupUpdate kind g =
    (refl, of_group refl (encode_replicas-Carries g.replicas) refl)

clone_update-IsSessionUpdate :
    (kind : UpdateType) (s : CloneSession) → IsSessionUpdate kind s (clone_update kind s)
unfolding clone_update
clone_update-IsSessionUpdate kind s =
    (refl, of_session refl (encode_replicas-Carries s.replicas) refl refl)

-- A multicast group that is not valid is not written: nothing is sent, whatever the role of the
-- client, and the call returns an error. A valid group is passed to the client's Write in one update
-- of the kind asked for, with the ID and the metadata of the group, and its replicas, ports and
-- backups in their order.
pub write_multicast_group-Guards :
    (c : Client) (kind : UpdateType) (g : MulticastGroup) (rpc : WriteRequest Update → Reply)
    → Guards
        (IsValid g.id g.replicas)
        (IsGroupUpdate kind g)
        c
        rpc
        (write_multicast_group c kind g rpc)
unfolding write_multicast_group
write_multicast_group-Guards c kind g rpc =
    write_update-Guards c rpc (multicast_update kind g) (checked_group kind g)
      (multicast_update-IsGroupUpdate kind g) (checked_group-IsValid kind g)
      (checked_group-accepts kind g)

-- The same for a clone session.
pub write_clone_session-Guards :
    (c : Client) (kind : UpdateType) (s : CloneSession) (rpc : WriteRequest Update → Reply)
    → Guards
        (IsValid s.id s.replicas)
        (IsSessionUpdate kind s)
        c
        rpc
        (write_clone_session c kind s rpc)
unfolding write_clone_session
write_clone_session-Guards c kind s rpc =
    write_update-Guards c rpc (clone_update kind s) (checked_session kind s)
      (clone_update-IsSessionUpdate kind s) (checked_session-IsValid kind s)
      (checked_session-accepts kind s)
