-- ===== src/Stream/Invariant.antt =====
-- An invariant of internal/stream/supervisor.go on its buffers and on the channels that the
-- senders watched, for the operations that the goroutine and its callers share.
pub mod History
use p4runtime_go_controller.Common.{
  ℕ, suc, ◌+◌, ◌≤◌, ◌<◌, ◌≡◌, ◌≢◌, ◌↔◌, refl, sym, ap, ◌∙◌, subst, Bool, true, false, not, List, [],
  ◌∷◌, ◌++◌, Option, none, some, length, length-append, arith, All, All-append, if-elim, ltb→lt,
  ==_iff, ◌==◌,
}
use p4runtime_go_controller.Common.Int.{ℤ}
use p4runtime_go_controller.Common.Errors.{Error, Result, ok, err, sentinel, not_primary}
use p4runtime_go_controller.Stream.{
  State, State-discrete, primary, disconnected, Event, Request, Supervisor, Phase, starting,
  opening, arbitrating, sleeping, serving, ended, finishing, Config, init, set_state,
  apply_arbitration, watch, enqueue, offer, close, close_gracefully, close_from, connecting,
  fail_pending, finish, is_primary, put_request, closed_error,
}
use p4runtime_go_controller.Stream.Loop.{
  at_phase, go_quiet, submit, with_gate, attempt_failed, finish_request, stream_broke, after_send,
  first_error, take_request, Action, watches, submits, closes, closes_gracefully, rounds, dials,
  arbitrates, wakes, serves, finishes, Served, context_done, stop_seen, update, recv_ends, takes,
  Finished, interrupted, late_update, final_status, arbitrate, shutdown, round_begins, dial_returns,
  arbitration_returns, sleep_returns, serve_message, serve_close, serve_request, serve,
  finish_stream, step, run_all, same_channel, run,
}
use p4runtime_go_controller.Stream.Backoff.{next_backoff}
use p4runtime_go_controller.Stream.Channel.{
  set_state-same, set_state-other, set_state-events, is_state_iff,
}

-- The channel that a request watched is not of the future; while it is still open, the supervisor
-- is in the state that the sender saw.
abbrev pub FreshAt : ℕ → State → Option ℕ → State → Type 0
FreshAt c st none seen = Unit
FreshAt c st (some w) seen = (w ≤ c) × (w ≡ c → seen ≡ st)

abbrev pub Fresh : ℕ → State → Request → Type 0
Fresh c st r = FreshAt c st r.state r.seen

abbrev pub FreshSender : ℕ → State → Option Request → Type 0
FreshSender c st none = Unit
FreshSender c st (some r) = Fresh c st r

abbrev pub SeenPrimary : Request → Type 0
SeenPrimary r = r.seen ≡ primary

pub record InvOf (events : List Event) (send_ch : List Request) (sender : Option Request)
    (sent : List Request) (c : ℕ) (st : State) : Type 0 where
  pub events_fit : length events ≤ 16
  pub queue_fits : length send_ch ≤ 16
  pub queue_fresh : All (Fresh c st) send_ch
  pub sender_fresh : FreshSender c st sender
  pub sent_primary : All SeenPrimary sent

pub record Inv (s : Supervisor) : Type 0 where
  pub holds : InvOf s.events s.send_ch s.sender s.sent s.changed s.state

module _ (s : Supervisor) (st : State) (e : Option Error) where
  Fresh-set_state :
      (w : Option ℕ) (seen : State)
      → FreshAt s.changed s.state w seen
      → FreshAt (set_state s st e).changed (set_state s st e).state w seen
  Fresh-set_state none seen h = tt
  Fresh-set_state (some w) seen h = fresh (State-discrete s.state st)
    where
      state_set : (set_state s st e).state ≡ st
      state_set = unfold set_state in refl

      fresh :
          Dec (s.state ≡ st)
          → FreshAt (set_state s st e).changed (set_state s st e).state (some w) seen
      fresh (yes same) =
          let kept = set_state-same s st e same in
          (omega (arith, kept, h.0), λ q. h.1 (q ∙ kept) ∙ same ∙ sym state_set)
      fresh (no other) =
          let next = set_state-other s st e other in
          (omega (arith, next, h.0), λ q. absurd (omega (arith, next, q, h.0)))

  All-Fresh-set_state :
      (rs : List Request)
      → All (Fresh s.changed s.state) rs
      → All (Fresh (set_state s st e).changed (set_state s st e).state) rs
  All-Fresh-set_state [] h = tt
  All-Fresh-set_state (r ∷ rs) h = (Fresh-set_state r.state r.seen h.0, All-Fresh-set_state rs h.1)

  sender-set_state :
      (o : Option Request)
      → FreshSender s.changed s.state o
      → FreshSender (set_state s st e).changed (set_state s st e).state o
  sender-set_state none h = tt
  sender-set_state (some r) h = Fresh-set_state r.state r.seen h

  set_state-InvOf :
      (q : List Request) (o : Option Request) (sent : List Request)
      → InvOf s.events q o sent s.changed s.state
      → InvOf (set_state s st e).events q o sent (set_state s st e).changed (set_state s st e).state
  set_state-InvOf q o sent v = record {
    events_fit = set_state-events s st e v.events_fit;
    queue_fits = v.queue_fits;
    queue_fresh = All-Fresh-set_state q v.queue_fresh;
    sender_fresh = sender-set_state o v.sender_fresh;
    sent_primary = v.sent_primary;
  }

pub set_state-Inv :
    (s : Supervisor) (st : State) (e : Option Error) → Inv s → Inv (set_state s st e)
set_state-Inv s st e v = record {
  holds = unfold set_state in set_state-InvOf s st e s.send_ch s.sender s.sent v.holds;
}

pub apply_arbitration-Inv :
    (s : Supervisor) (status : Option ℕ) → Inv s → Inv (apply_arbitration s status)
unfolding apply_arbitration
apply_arbitration-Inv s status v = set_state-Inv s _ none v

pub fail_pending-Inv : (s : Supervisor) (e : Option Error) → Inv s → Inv (fail_pending s e)
unfolding fail_pending
fail_pending-Inv s e v = record {
  holds = record {
    events_fit = v.holds.events_fit;
    queue_fits = omega arith;
    queue_fresh = tt;
    sender_fresh = v.holds.sender_fresh;
    sent_primary = v.holds.sent_primary;
  };
}

go_quiet-Inv : (s : Supervisor) → Inv s → Inv (go_quiet s)
unfolding go_quiet
go_quiet-Inv s v = if-elim Inv _ _ _ (λ _. v) (λ _. set_state-Inv s disconnected none v)

pub shutdown-Inv : (s : Supervisor) → Inv s → Inv (shutdown s)
unfolding shutdown
shutdown-Inv s v = record {
  holds = (fail_pending-Inv (go_quiet s) (some closed_error) (go_quiet-Inv s v)).holds;
}

pub watch-Inv : (s : Supervisor) (m : ℕ) → Inv s → Inv (watch s m)
unfolding watch
watch-Inv s m v = record {
  holds = record {
    events_fit = v.holds.events_fit;
    queue_fits = v.holds.queue_fits;
    queue_fresh = v.holds.queue_fresh;
    sender_fresh = (omega arith, λ q. refl);
    sent_primary = v.holds.sent_primary;
  };
}

no_sender-Inv : (s : Supervisor) → Inv s → Inv (record s { sender = none })
no_sender-Inv s v = record {
  holds = record {
    events_fit = v.holds.events_fit;
    queue_fits = v.holds.queue_fits;
    queue_fresh = v.holds.queue_fresh;
    sender_fresh = tt;
    sent_primary = v.holds.sent_primary;
  };
}

put_request-Inv :
    (s : Supervisor) (r : Request)
    → length s.send_ch < 16
    → Fresh s.changed s.state r
    → Inv s
    → Inv (put_request s r)
put_request-Inv s r room f v = record {
  holds = record {
    events_fit = v.holds.events_fit;
    queue_fits = omega (arith, length-append s.send_ch (r ∷ []));
    queue_fresh =
        All-append (Fresh s.changed s.state) s.send_ch (r ∷ []) v.holds.queue_fresh (f, tt);
    sender_fresh = tt;
    sent_primary = v.holds.sent_primary;
  };
}

enqueue-Inv :
    (s : Supervisor) (r : Request) (cancelled : Option Error)
    → Fresh s.changed s.state r
    → Inv s
    → Inv (enqueue s r cancelled)
unfolding enqueue
enqueue-Inv s r (some c) f v = no_sender-Inv s v
enqueue-Inv s r none f v =
    if-elim Inv _ _ _ (λ _. no_sender-Inv s v)
      λ _. if-elim Inv _ _ _ (λ room. put_request-Inv s r (ltb→lt _ _ room) f v) (λ _. v)

offer_refused-Inv :
    (s : Supervisor) (l : List (ℕ × Option Error))
    → Inv s
    → Inv (record s { sender = none; finished = l })
offer_refused-Inv s l v = record { holds = (no_sender-Inv s v).holds }

pub at_phase-Inv : (s : Supervisor) (p : Phase) → Inv s → Inv (at_phase s p)
at_phase-Inv s p v = record { holds = v.holds }

pub next_round-Inv :
    (s : Supervisor) (p : Phase) (b : ℤ) → Inv s → Inv (record s { phase = p; backoff = b })
next_round-Inv s p b v = record { holds = v.holds }

offer-Inv :
    (s : Supervisor) (r : Request) (cancelled : Option Error)
    → Fresh s.changed s.state r
    → Inv s
    → Inv (offer s r cancelled)
unfolding offer
offer-Inv s r (some c) f v = offer_refused-Inv s _ v
offer-Inv s r none f v =
    if-elim Inv _ _ _ (λ _. offer_refused-Inv s (finish s.finished r.id (some closed_error)) v)
      λ _. if-elim Inv _ _ _ (λ room. put_request-Inv s r (ltb→lt _ _ room) f v) (λ _. v)

pub submit-Inv :
    (s : Supervisor) (o : Option Request) (cancelled : Option Error)
    → s.sender ≡ o
    → Inv s
    → Inv (submit s o cancelled)
submit-Inv s none cancelled e v = v
submit-Inv s (some r) cancelled e v = by_message r.message
  where
    fresh : Fresh s.changed s.state r
    fresh = subst (FreshSender s.changed s.state) e v.holds.sender_fresh

    by_message :
        (m : Option ℕ)
        → Inv (elim m [ some m ↦ enqueue s r cancelled | none ↦ offer s r cancelled ])
    by_message (some m) = enqueue-Inv s r cancelled fresh v
    by_message none = offer-Inv s r cancelled fresh v

pub close_from-Inv : (s : Supervisor) (g : Option ℕ) → Inv s → Inv (close_from s g)
close_from-Inv s (some id) v = v
close_from-Inv s none v = record {
  holds = record {
    events_fit = v.holds.events_fit;
    queue_fits = v.holds.queue_fits;
    queue_fresh = v.holds.queue_fresh;
    sender_fresh = tt;
    sent_primary = v.holds.sent_primary;
  };
}

pub with_gate-Inv : (s t : Supervisor) (o : Option Request) → Inv s → Inv t → Inv (with_gate s o t)
with_gate-Inv s t none v w = w
with_gate-Inv s t (some r) v w = v
