-- ===== src/Stream/Invariant/History.antt =====
-- The steps of the goroutine of internal/stream/supervisor.go and of its callers, for the invariant
-- on buffers and watched channels.
use p4runtime_go_controller.Common.{
  ℕ, ◌≡◌, refl, ap, ◌∙◌, subst, Bool, true, not, List, [], ◌∷◌, Option, none, some, length, arith,
  All, if-elim, ==_iff,
}
use p4runtime_go_controller.Common.Errors.{Error, Result, ok, err, sentinel, not_primary}
use p4runtime_go_controller.Stream.{
  primary, disconnected, Request, Supervisor, Phase, starting, opening, arbitrating, sleeping,
  stopping, serving, finishing, Config, init, set_state, close, close_gracefully, connecting,
  is_primary, closed_error,
}
use p4runtime_go_controller.Stream.Loop.{
  attempt_failed, finish_request, stream_broke, after_send, first_error, take_request, Action,
  watches, submits, closes, closes_gracefully, stops, rounds, dials, arbitrates, wakes, serves,
  finishes, Served, context_done, stop_seen, update, recv_ends, takes, Finished, interrupted,
  late_update, final_status, arbitrate, round_begins, dial_returns, arbitration_returns,
  sleep_returns, serve_message, serve_close, serve_request, serve, finish_stream, step, run_all,
  same_channel, run,
}
use p4runtime_go_controller.Stream.Backoff.{next_backoff}
use p4runtime_go_controller.Stream.Channel.{is_state_iff}
use p4runtime_go_controller.Stream.Invariant.{
  Inv, Fresh, FreshAt, SeenPrimary, set_state-Inv, apply_arbitration-Inv, fail_pending-Inv,
  shutdown-Inv, watch-Inv, submit-Inv, close_from-Inv, with_gate-Inv, at_phase-Inv, next_round-Inv,
}

round_begins-Inv : (s : Supervisor) (c : Bool) → Inv s → Inv (round_begins s c)
unfolding round_begins
round_begins-Inv s c v =
    if-elim Inv _ _ _ (λ _. shutdown-Inv s v)
      λ _. at_phase-Inv (set_state s connecting none) opening (set_state-Inv s connecting none v)

attempt_failed-Inv : (s : Supervisor) (e : Error) → Inv s → Inv (attempt_failed s e)
attempt_failed-Inv s e v = record { holds = (set_state-Inv s disconnected (some e) v).holds }

dial_returns-Inv : (s : Supervisor) (o : Option Error) → Inv s → Inv (dial_returns s o)
unfolding dial_returns
dial_returns-Inv s none v = record { holds = v.holds }
dial_returns-Inv s (some e) v = attempt_failed-Inv s e v

arbitration_returns-Inv :
    (s : Supervisor) (r : Result (Option ℕ)) → Inv s → Inv (arbitration_returns s r)
unfolding arbitration_returns
arbitration_returns-Inv s (err e) v = attempt_failed-Inv s e v
arbitration_returns-Inv s (ok status) v = record {
  holds = (apply_arbitration-Inv s status v).holds;
}

sleep_returns-Inv : (s : Supervisor) (c : Bool) → Inv s → Inv (sleep_returns s c)
unfolding sleep_returns
sleep_returns-Inv s c v =
    if-elim Inv _ _ _ (λ _. shutdown-Inv s v)
      (λ _. next_round-Inv s starting (next_backoff s.backoff s.cfg.backoff_max) v)

finish_request-Inv :
    (s : Supervisor) (r : Request) (e : Option Error) → Inv s → Inv (finish_request s r e)
finish_request-Inv s r e v = record { holds = v.holds }

stream_broke-Inv : (s : Supervisor) (e : Error) → Inv s → Inv (stream_broke s e)
stream_broke-Inv s e v = record {
  holds =
      (fail_pending-Inv (set_state s disconnected (some e)) (some e)
        (set_state-Inv s disconnected (some e) v)).holds;
}

after_send-Inv : (s : Supervisor) (r : Request) (e : Option Error) → Inv s → Inv (after_send s r e)
after_send-Inv s r none v = finish_request-Inv s r none v
after_send-Inv s r (some e) v =
    stream_broke-Inv (finish_request s r (some e)) e (finish_request-Inv s r (some e) v)

-- The two tests before `stream.Send` make the sender's state the present one.
seen_primary :
    (s : Supervisor) (r : Request)
    → Fresh s.changed s.state r
    → is_primary s ≡ true
    → same_channel r.state s.changed ≡ true
    → SeenPrimary r
unfolding is_primary
seen_primary s r f p h = by_watch r.state f h ∙ (is_state_iff s.state primary).0 p
  where
    by_watch :
        (w : Option ℕ)
        → FreshAt s.changed s.state w r.seen
        → same_channel w s.changed ≡ true
        → r.seen ≡ s.state
    by_watch none g q = absurd (cc)
    by_watch (some w) g q = g.1 ((==_iff w s.changed).0 q)

sends-Inv :
    (s : Supervisor) (r : Request) → SeenPrimary r → Inv s → Inv (record s { sent = r ∷ s.sent })
sends-Inv s r p v = record {
  holds = record {
    events_fit = v.holds.events_fit;
    queue_fits = v.holds.queue_fits;
    queue_fresh = v.holds.queue_fresh;
    sender_fresh = v.holds.sender_fresh;
    sent_primary = (p, v.holds.sent_primary);
  };
}

serve_message-Inv :
    (s : Supervisor) (r : Request) (e a : Option Error)
    → Fresh s.changed s.state r
    → Inv s
    → Inv (serve_message s r e a)
unfolding serve_message
serve_message-Inv s r e a f v =
    if-elim Inv (not (is_primary s)) _ _
      (λ _. finish_request-Inv s r (some (sentinel not_primary)) v)
      λ p.
        if-elim Inv (not (same_channel r.state s.changed)) _ _
          (λ _. finish_request-Inv s r (some closed_error) v)
          λ q.
            after_send-Inv (record s { sent = r ∷ s.sent }) r (first_error a e)
              (sends-Inv s r (seen_primary s r f (ground arith) (ground arith)) v)

serve_close-Inv :
    (s : Supervisor) (r : Request) (e a : Option Error) → Inv s → Inv (serve_close s r e a)
unfolding serve_close
serve_close-Inv s r none a v = record { holds = v.holds }
serve_close-Inv s r (some e) none v = shutdown-Inv _ (finish_request-Inv s r _ v)
serve_close-Inv s r (some e) (some c) v = shutdown-Inv _ (finish_request-Inv s r _ v)

serve_request-Inv :
    (s : Supervisor) (r : Request) (c e a : Option Error)
    → Fresh s.changed s.state r
    → Inv s
    → Inv (serve_request s r c e a)
unfolding serve_request
serve_request-Inv s r (some c) e a f v = finish_request-Inv s r _ v
serve_request-Inv s r none e a f v = by_message r.message
  where
    by_message :
        (m : Option ℕ)
        → Inv (elim m [ none ↦ serve_close s r e a | some m ↦ serve_message s r e a ])
    by_message none = serve_close-Inv s r e a v
    by_message (some m) = serve_message-Inv s r e a f v

take_request-Inv :
    (s : Supervisor) (rs : List Request) (c e a : Option Error)
    → s.send_ch ≡ rs
    → Inv s
    → Inv (take_request s rs c e a)
take_request-Inv s [] c e a q v = v
take_request-Inv s (r ∷ rs) c e a q v =
    serve_request-Inv (record s { send_ch = rs }) r c e a fresh.0
      (record {
        holds = record {
          events_fit = v.holds.events_fit;
          queue_fits = omega (arith, v.holds.queue_fits, ap (length {A = Request}) q);
          queue_fresh = fresh.1;
          sender_fresh = v.holds.sender_fresh;
          sent_primary = v.holds.sent_primary;
        };
      })
  where
    fresh : All (Fresh s.changed s.state) (r ∷ rs)
    fresh = subst (All (Fresh s.changed s.state)) q v.holds.queue_fresh

serve-Inv : (s : Supervisor) (i : Served) → Inv s → Inv (serve s i)
unfolding serve
serve-Inv s context_done v = record { holds = v.holds }
serve-Inv s stop_seen v = record { holds = v.holds }
serve-Inv s (update status) v = apply_arbitration-Inv s status v
serve-Inv s (recv_ends e) v = stream_broke-Inv s _ v
serve-Inv s (takes c e a) v = take_request-Inv s s.send_ch c e a refl v

finish_stream-Inv : (s : Supervisor) (id : ℕ) (i : Finished) → Inv s → Inv (finish_stream s id i)
unfolding finish_stream
finish_stream-Inv s id interrupted v = shutdown-Inv _ (record { holds = v.holds })
finish_stream-Inv s id (late_update status) v = apply_arbitration-Inv s status v
finish_stream-Inv s id (final_status e c) v = shutdown-Inv _ (record { holds = v.holds })

run-Inv : (s : Supervisor) (p : Phase) (a : Action) → Inv s → Inv (run s p a)
run-Inv s starting (rounds c) v = round_begins-Inv s c v
run-Inv s opening (dials e) v = dial_returns-Inv s e v
run-Inv s arbitrating (arbitrates a) v = arbitration_returns-Inv s (arbitrate a) v
run-Inv s sleeping (wakes c) v = sleep_returns-Inv s c v
run-Inv s serving (serves i) v = serve-Inv s i v
run-Inv s (finishing id) (finishes i) v = finish_stream-Inv s id i v
run-Inv s stopping stops v = record { holds = v.holds }
run-Inv s _ _ v = v

pub step-Inv : (s : Supervisor) (a : Action) → Inv s → Inv (step s a)
unfolding step
step-Inv s (watches m) v = with_gate-Inv s _ s.sender v (watch-Inv s m v)
step-Inv s (submits c) v = submit-Inv s s.sender c refl v
step-Inv s closes v = unfold close in record { holds = v.holds }
step-Inv s closes_gracefully v =
    unfold close_gracefully in with_gate-Inv s _ s.sender v (close_from-Inv s s.grace v)
step-Inv s (rounds c) v = run-Inv s s.phase (rounds c) v
step-Inv s (dials e) v = run-Inv s s.phase (dials e) v
step-Inv s (arbitrates a) v = run-Inv s s.phase (arbitrates a) v
step-Inv s (wakes c) v = run-Inv s s.phase (wakes c) v
step-Inv s (serves i) v = run-Inv s s.phase (serves i) v
step-Inv s (finishes i) v = run-Inv s s.phase (finishes i) v
step-Inv s stops v = run-Inv s s.phase stops v

run_all-Inv : (s : Supervisor) (actions : List Action) → Inv s → Inv (run_all s actions)
unfolding run_all
run_all-Inv s [] v = v
run_all-Inv s (a ∷ rest) v = run_all-Inv (step s a) rest (step-Inv s a v)

init-Inv : (cfg : Config) → Inv (init cfg)
unfolding init
init-Inv cfg = record {
  holds = record {
    events_fit = omega arith;
    queue_fits = omega arith;
    queue_fresh = tt;
    sender_fresh = tt;
    sent_primary = tt;
  };
}

-- After any actions of the goroutine and its callers, in any order: the event and send buffers hold
-- at most 16 entries; every waiting request watched a channel of the past or the present, and saw
-- the present state if that channel is still open; and every request that was ever passed to
-- `stream.Send` came from a sender that saw the client as primary.
pub run_all-init-Inv : (cfg : Config) (actions : List Action) → Inv (run_all (init cfg) actions)
run_all-init-Inv cfg actions = run_all-Inv (init cfg) actions (init-Inv cfg)
