-- ===== src/Client/Waiting.antt =====
-- The waiting loops of client/client.go: when Dial and BecomePrimary return, and with what.
use p4runtime_go_controller.Common.{
  ◌≡◌, ◌≢◌, ◌↔◌, inl, inr, refl, ap, sym, ◌∙◌, subst, true, false, ◌||◌, List, [], ◌∷◌, Option,
  none, some, arith, Bool-cases, All,
}
use p4runtime_go_controller.Common.Errors.{Error, Result, ok, err}
use p4runtime_go_controller.Election.{is_zero}
use p4runtime_go_controller.Stream.{Supervisor, primary, backup, is_state, init}
use p4runtime_go_controller.Stream.Loop.{Action, run_all}
use p4runtime_go_controller.Stream.Channel.{is_state_iff}
use p4runtime_go_controller.Client.Settings.{Options, apply_options, default_options}
use p4runtime_go_controller.Client.{
  Client, stream_config, new_client, DialWake, DialRound, tick, dial_loop, dialed, dial,
  state_changed, PrimaryRound, become_primary,
}

-- A round that sees the primary state in time, after rounds that only a change of state ends.
pub data SeesPrimary : List PrimaryRound → Type 0 where
  now :
      {r : PrimaryRound} {rs : List PrimaryRound}
      → r.ended ≡ false
      → is_state r.state primary ≡ true
      → SeesPrimary (r ∷ rs)
  later :
      {r : PrimaryRound} {rs : List PrimaryRound}
      → r.ended ≡ false
      → is_state r.state primary ≡ false
      → r.wake ≡ state_changed
      → SeesPrimary rs
      → SeesPrimary (r ∷ rs)

primary-SeesPrimary : (rs : List PrimaryRound) → become_primary rs ≡ some none → SeesPrimary rs
unfolding become_primary
primary-SeesPrimary [] h = cc
primary-SeesPrimary (r ∷ rs) h = elim (Bool-cases (is_state r.state primary)) [
  | inl s ↦ now (ground arith) s
  | inr s ↦ later (ground arith) s (ground arith) (primary-SeesPrimary rs (ground arith))
]

SeesPrimary-primary : {rs : List PrimaryRound} → SeesPrimary rs → become_primary rs ≡ some none
unfolding become_primary
SeesPrimary-primary (now e s) = ground arith
SeesPrimary-primary (later e s w rest) = ground (arith, SeesPrimary-primary rest)

-- A round of BecomePrimary after which it still waits.
abbrev pub WaitsOn : PrimaryRound → Type 0
WaitsOn r = (r.ended ≡ false) × (is_state r.state primary ≡ false) × (r.wake ≡ state_changed)

waiting-WaitsOn : (rs : List PrimaryRound) → become_primary rs ≡ none → All WaitsOn rs
unfolding become_primary
waiting-WaitsOn [] h = tt
waiting-WaitsOn (r ∷ rs) h =
    ((ground arith, ground arith, ground arith), waiting-WaitsOn rs (ground arith))

WaitsOn-waiting : (rs : List PrimaryRound) → All WaitsOn rs → become_primary rs ≡ none
unfolding become_primary
WaitsOn-waiting [] w = refl
WaitsOn-waiting (r ∷ rs) (w, ws) = ground (arith, w, WaitsOn-waiting rs ws)

-- BecomePrimary returns nil just when some round sees the primary state before the client's context
-- has ended, and every round before it was ended by a change of state. It still waits just when
-- each round saw a client that had not ended and was not primary, and was woken by a change of
-- state: any other round makes it return.
pub become_primary-exact :
    (rs : List PrimaryRound)
    → ((become_primary rs ≡ some none) ↔ SeesPrimary rs)
      × ((become_primary rs ≡ none) ↔ All WaitsOn rs)
become_primary-exact rs =
    ((primary-SeesPrimary rs, SeesPrimary-primary), (waiting-WaitsOn rs, WaitsOn-waiting rs))

-- The supervisor is arbitrated.
pub data IsArbitrated (sup : Supervisor) : Type 0 where
  is_primary_now : sup.state ≡ primary → IsArbitrated sup
  is_backup_now : sup.state ≡ backup → IsArbitrated sup

tested-IsArbitrated :
    (sup : Supervisor)
    → (is_state sup.state primary || is_state sup.state backup) ≡ true
    → IsArbitrated sup
tested-IsArbitrated sup h = elim (Bool-cases (is_state sup.state primary)) [
  | inl e ↦ is_primary_now ((is_state_iff sup.state primary).0 e)
  | inr e ↦ is_backup_now ((is_state_iff sup.state backup).0 (ground arith))
]

IsArbitrated-tested :
    {sup : Supervisor}
    → IsArbitrated sup
    → (is_state sup.state primary || is_state sup.state backup) ≡ true
IsArbitrated-tested {sup = sup} (is_primary_now e) =
    ground (arith, (is_state_iff sup.state primary).1 e)
IsArbitrated-tested {sup = sup} (is_backup_now e) =
    ground (arith, (is_state_iff sup.state backup).1 e)

not-IsArbitrated :
    (sup : Supervisor)
    → ¬ IsArbitrated sup
    → (is_state sup.state primary || is_state sup.state backup) ≡ false
not-IsArbitrated sup n =
    elim (Bool-cases (is_state sup.state primary || is_state sup.state backup)) [
      | inl e ↦ absurd (n (tested-IsArbitrated sup e))
      | inr e ↦ e
    ]

-- From a supervisor, the first round that sees it arbitrated, after rounds that a tick ended, and
-- the supervisor that this round sees.
pub data Settles : Supervisor → List DialRound → Supervisor → Type 0 where
  settled :
      {sup : Supervisor} {steps : List Action} {w : DialWake} {rs : List DialRound}
      {seen : Supervisor}
      → seen ≡ run_all sup steps
      → IsArbitrated seen
      → Settles sup ((steps, w) ∷ rs) seen
  unsettled :
      {sup : Supervisor} {steps : List Action} {w : DialWake} {rs : List DialRound}
      {seen : Supervisor}
      → ¬ IsArbitrated (run_all sup steps)
      → w ≡ tick
      → Settles (run_all sup steps) rs seen
      → Settles sup ((steps, w) ∷ rs) seen

dial_loop-Settles :
    (sup : Supervisor) (rs : List DialRound) (seen : Supervisor)
    → dial_loop sup rs ≡ some (ok seen)
    → Settles sup rs seen
unfolding dial_loop
dial_loop-Settles sup [] seen h = cc
dial_loop-Settles sup ((steps, w) ∷ rs) seen h =
    let now = run_all sup steps in
    elim (Bool-cases (is_state now.state primary || is_state now.state backup)) [
      | inl yes_it_is ↦
          let at_seen : seen ≡ now = ground arith in
          settled at_seen (subst IsArbitrated (sym at_seen) (tested-IsArbitrated now yes_it_is))
      | inr not_yet ↦
          unsettled (λ a. ground (arith, IsArbitrated-tested a)) (ground arith)
            (dial_loop-Settles now rs seen (ground arith))
    ]

Settles-dial_loop :
    {sup : Supervisor} {rs : List DialRound} {seen : Supervisor}
    → Settles sup rs seen
    → dial_loop sup rs ≡ some (ok seen)
unfolding dial_loop
Settles-dial_loop (settled e a) = ground (arith, IsArbitrated-tested (subst IsArbitrated e a))
Settles-dial_loop {sup = sup} (unsettled {steps = steps} n w rest) =
    ground (arith, Settles-dial_loop rest, not-IsArbitrated (run_all sup steps) n)

-- What Dial asks of the options and of the connection.
abbrev pub MayDial : Options → Option Error → Type 0
MayDial o conn =
    (o.device_id ≢ 0) × ¬ ((o.election_id.high ≡ 0) × (o.election_id.low ≡ 0)) × (conn ≡ none)

abbrev pub started : Options → Client
started o = record { opts = o; sup = init (stream_config o) }

new_client-MayDial :
    (options : List (Options → Options)) (conn : Option Error) (c : Client)
    → new_client options conn ≡ ok c
    → MayDial (apply_options options default_options) conn
      × (c ≡ started (apply_options options default_options))
unfolding new_client is_zero
new_client-MayDial options none c h = ground arith
new_client-MayDial options (some e) c h = ground arith

MayDial-new_client :
    (options : List (Options → Options)) (conn : Option Error)
    → MayDial (apply_options options default_options) conn
    → new_client options conn ≡ ok (started (apply_options options default_options))
unfolding new_client is_zero
MayDial-new_client options none (id_ok, election_ok, no_error) = ground arith
MayDial-new_client options (some e) (id_ok, election_ok, no_error) = cc

-- The two parts of Dial, where it succeeds.
both-ok :
    (r : Result Client) (rounds : List DialRound) (c : Client)
    → elim r [ err e ↦ some (err e) | ok d ↦ dialed d (dial_loop d.sup rounds) ] ≡ some (ok c)
    → (d : Client) × (r ≡ ok d) × (dial_loop d.sup rounds ≡ some (ok c.sup)) × (c.opts ≡ d.opts)
both-ok (err e) rounds c h = cc
both-ok (ok d) rounds c h =
    let (seen, same) = waited (dial_loop d.sup rounds) h in (d, refl, seen, same)
  where
    waited :
        (w : Option (Result Supervisor))
        → dialed d w ≡ some (ok c)
        → (w ≡ some (ok c.sup)) × (c.opts ≡ d.opts)
    waited none h = cc
    waited (some (ok sup)) h = ground arith
    waited (some (err e)) h = cc

-- Dial returns a client just when the options give a device ID and an election ID, neither of them
-- zero, gRPC gives a connection, and a round sees the supervisor, started from these options, in
-- the primary or the backup state before the context ends or the deadline passes. The client then
-- has those options, and its supervisor is the one that this round saw.
pub dial-exact :
    (options : List (Options → Options)) (conn : Option Error) (rounds : List DialRound)
    (c : Client)
    → (dial options conn rounds ≡ some (ok c)) ↔ (
        MayDial (apply_options options default_options) conn
        × Settles (init (stream_config (apply_options options default_options))) rounds c.sup
        × (c.opts ≡ apply_options options default_options))
unfolding dial
dial-exact options conn rounds c = (
  λ h.
      let (d, made, waited, same) = both-ok (new_client options conn) rounds c h in
      let (may, at_d) = new_client-MayDial options conn d made in
      (
        may,
        subst (λ (x : Client). Settles x.sup rounds c.sup) at_d
            (dial_loop-Settles d.sup rounds c.sup waited),
        same ∙ ap (λ (x : Client). x.opts) at_d,
      ),
  λ p. ground (arith, MayDial-new_client options conn (p.0), Settles-dial_loop (p.1), p.2),
)
