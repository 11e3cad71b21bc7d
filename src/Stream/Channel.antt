-- ===== src/Stream/Channel.antt =====
-- setState, WatchState and applyArbitration of internal/stream/supervisor.go.
use mathlib.Core.Logic.{if_pos, if_neg}
use p4runtime_go_controller.Common.{
  ℕ, suc, ◌≤◌, ◌≡◌, ◌≢◌, ◌↔◌, refl, true, false, [], ◌∷◌, Option, length, length-append, arith,
}
use p4runtime_go_controller.Common.Errors.{Error}
use p4runtime_go_controller.Stream.{
  State, State-discrete, Supervisor, is_state, set_state, apply_arbitration, backup, is_primary,
  status_ok,
}

is_state_refl : (a : State) → is_state a a ≡ true
unfolding State-discrete
is_state_refl a = ground arith

pub is_state_iff : (a b : State) → (is_state a b ≡ true) ↔ (a ≡ b)
is_state_iff a b = elim (State-discrete a b) [
  | yes e ↦ (λ h. e, λ h. rw (if_pos _ e) refl)
  | no n ↦ (λ h. absurd (cc (rw (if_neg _ n) at h)), λ h. absurd (n h))
]

pub set_state-same :
    (s : Supervisor) (st : State) (e : Option Error)
    → s.state ≡ st
    → (set_state s st e).changed ≡ s.changed
unfolding set_state
set_state-same s st e h = rw ((is_state_iff s.state st).1 h) refl

pub set_state-other :
    (s : Supervisor) (st : State) (e : Option Error)
    → s.state ≢ st
    → (set_state s st e).changed ≡ suc s.changed
unfolding set_state
set_state-other s st e h = ground (arith, h, (is_state_iff s.state st).0)

pub set_state-events :
    (s : Supervisor) (st : State) (e : Option Error)
    → length s.events ≤ 16
    → length (set_state s st e).events ≤ 16
unfolding set_state
set_state-events s st e h =
    ground (arith, length-append s.events (record { state = st; cause = e } ∷ []))

-- After setState the supervisor is in the new state with the new error, the watched channel is the
-- same one exactly when the state is the same, and channels are never used again.
pub set_state_watch :
    (s : Supervisor) (st : State) (e : Option Error)
    → ((set_state s st e).state ≡ st)
      × ((set_state s st e).last_err ≡ e)
      × (s.changed ≤ (set_state s st e).changed)
      × (((set_state s st e).changed ≡ s.changed) ↔ (s.state ≡ st))
set_state_watch s st e = (
  unfold set_state in refl,
  unfold set_state in refl,
  grows (State-discrete s.state st),
  (sound (State-discrete s.state st), set_state-same s st e),
)
  where
    grows : Dec (s.state ≡ st) → s.changed ≤ (set_state s st e).changed
    grows (yes h) = omega (arith, set_state-same s st e h)
    grows (no h) = omega (arith, set_state-other s st e h)

    sound : Dec (s.state ≡ st) → (set_state s st e).changed ≡ s.changed → s.state ≡ st
    sound (yes h) same = h
    sound (no h) same = absurd (omega (arith, set_state-other s st e h, same))

-- The client is primary after an arbitration update exactly when the update has no status or the
-- code OK; otherwise it is a backup.
pub apply_arbitration_state :
    (s : Supervisor) (status : Option ℕ)
    → (is_primary (apply_arbitration s status) ≡ status_ok status)
      × (status_ok status ≡ false → (apply_arbitration s status).state ≡ backup)
unfolding apply_arbitration is_primary State-discrete
apply_arbitration_state s status = (ground arith, λ h. rw h refl)
