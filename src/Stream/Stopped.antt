-- ===== src/Stream/Stopped.antt =====
-- The end of `run` in internal/stream/supervisor.go, and the calls of `wait` after it.
use p4runtime_go_controller.Common.{
  ℕ, ◌≡◌, ◌≢◌, refl, sym, subst, ◌∙◌, Bool, true, false, not, ◌&&◌, ◌||◌, List, [], ◌∷◌, Option,
  none, some, if-elim, arith, if◌then◌else◌, ltb, length,
}
use p4runtime_go_controller.Common.Int.{pos, leb_ℤ}
use p4runtime_go_controller.Common.Errors.{Error, Result, ok, err, sentinel, not_primary}
use p4runtime_go_controller.Stream.{
  Supervisor, Request, Phase, State, disconnected, connecting, starting, opening, arbitrating,
  sleeping, serving, stopping, ended, finishing, Config, init, set_state, apply_arbitration,
  fail_pending, finish, closed_error, watch, enqueue, offer, put_request, close, close_gracefully,
  close_from, is_primary, buffer_size, wait,
}
use p4runtime_go_controller.Stream.Results.{stopped_wait, go_quiet-disconnected}
use p4runtime_go_controller.Stream.Backoff.{next_backoff}
use p4runtime_go_controller.Stream.Loop.{
  arbitrate, recv_error, Served, context_done, stop_seen, update, recv_ends, takes, Finished,
  interrupted, late_update, final_status, Action, watches, submits, closes, closes_gracefully,
  stops, rounds, dials, arbitrates, wakes, serves, finishes, go_quiet, shutdown, at_phase,
  round_begins, dial_returns, arbitration_returns, sleep_returns, stream_broke, finish_request,
  same_channel, first_error, after_send, serve_message, serve_close, serve_request, take_request,
  serve, finish_stream, submit, with_gate, run, step, run_all,
}

-- Where `run` stands: it is over only once `stopped` is closed, and from its deferred calls on the
-- state is disconnected.
abbrev StandsAt : Phase → State → Bool → Type 0
StandsAt stopping st stopped = (st ≡ disconnected) × (stopped ≡ false)
StandsAt ended st stopped = st ≡ disconnected
StandsAt starting st stopped = stopped ≡ false
StandsAt opening st stopped = stopped ≡ false
StandsAt arbitrating st stopped = stopped ≡ false
StandsAt sleeping st stopped = stopped ≡ false
StandsAt serving st stopped = stopped ≡ false
StandsAt (finishing id) st stopped = stopped ≡ false

record Stands (s : Supervisor) : Type 0 where
  stands : StandsAt s.phase s.state s.stopped

-- The phases in which the state changes while the phase stays.
data IsPumping : Phase → Type 0 where
  is_serving : IsPumping serving
  is_finishing : {id : ℕ} → IsPumping (finishing id)

pumping-StandsAt :
    {p : Phase} (st : State) (stopped : Bool)
    → IsPumping p
    → stopped ≡ false
    → StandsAt p st stopped
pumping-StandsAt st stopped is_serving h = h
pumping-StandsAt st stopped is_finishing h = h

pumping-Stands :
    (s : Supervisor) {p : Phase} → IsPumping p → s.phase ≡ p → s.stopped ≡ false → Stands s
pumping-Stands s l q h = record {
  stands =
      subst (λ p. StandsAt p s.state s.stopped) (sym q) (pumping-StandsAt s.state s.stopped l h);
}

go_quiet-stopped : (s : Supervisor) → (go_quiet s).stopped ≡ s.stopped
unfolding go_quiet set_state
go_quiet-stopped s = ground arith

shutdown-Stands : (s : Supervisor) → s.stopped ≡ false → Stands (shutdown s)
unfolding shutdown fail_pending
shutdown-Stands s h = record { stands = (go_quiet-disconnected s, go_quiet-stopped s ∙ h) }

round_begins-Stands : (s : Supervisor) (c : Bool) → s.stopped ≡ false → Stands (round_begins s c)
unfolding round_begins set_state
round_begins-Stands s c h =
    if-elim Stands (c || s.stop || s.draining) (shutdown s)
      (at_phase (set_state s connecting none) opening) (λ _. shutdown-Stands s h)
      λ _. record { stands = h }

dial_returns-Stands :
    (s : Supervisor) (e : Option Error) → s.stopped ≡ false → Stands (dial_returns s e)
unfolding dial_returns set_state
dial_returns-Stands s none h = record { stands = h }
dial_returns-Stands s (some e) h = record { stands = h }

arbitration_returns-Stands :
    (s : Supervisor) (r : Result (Option ℕ)) → s.stopped ≡ false → Stands (arbitration_returns s r)
unfolding arbitration_returns apply_arbitration set_state
arbitration_returns-Stands s (err e) h = record { stands = h }
arbitration_returns-Stands s (ok status) h = record { stands = h }

sleep_returns-Stands : (s : Supervisor) (c : Bool) → s.stopped ≡ false → Stands (sleep_returns s c)
unfolding sleep_returns
sleep_returns-Stands s c h =
    if-elim Stands (not (leb_ℤ s.backoff (pos 0)) && (c || s.stop || s.draining)) (shutdown s)
      (record s { phase = starting; backoff = next_backoff s.backoff s.cfg.backoff_max })
      (λ _. shutdown-Stands s h) λ _. record { stands = h }

stream_broke-Stands : (s : Supervisor) (e : Error) → s.stopped ≡ false → Stands (stream_broke s e)
unfolding fail_pending set_state
stream_broke-Stands s e h = record { stands = h }

apply_arbitration-Stands :
    (s : Supervisor) {p : Phase} (status : Option ℕ)
    → IsPumping p
    → s.phase ≡ p
    → s.stopped ≡ false
    → Stands (apply_arbitration s status)
unfolding apply_arbitration set_state
apply_arbitration-Stands s status l q h = pumping-Stands _ l q h

after_send-Stands :
    (s : Supervisor) (r : Request) (e : Option Error)
    → s.phase ≡ serving
    → s.stopped ≡ false
    → Stands (after_send s r e)
after_send-Stands s r none q h = pumping-Stands _ is_serving q h
after_send-Stands s r (some e) q h = stream_broke-Stands _ e h

serve_message-Stands :
    (s : Supervisor) (r : Request) (e c : Option Error)
    → s.phase ≡ serving
    → s.stopped ≡ false
    → Stands (serve_message s r e c)
unfolding serve_message
serve_message-Stands s r e c q h =
    if-elim Stands (not (is_primary s)) (finish_request s r (some (sentinel not_primary)))
      (if not (same_channel r.state s.changed)
        then finish_request s r (some closed_error)
        else after_send (record s { sent = r ∷ s.sent }) r (first_error c e))
      (λ _. pumping-Stands _ is_serving q h)
      λ _.
        if-elim Stands (not (same_channel r.state s.changed))
          (finish_request s r (some closed_error))
          (after_send (record s { sent = r ∷ s.sent }) r (first_error c e))
          (λ _. pumping-Stands _ is_serving q h)
          λ _. after_send-Stands (record s { sent = r ∷ s.sent }) r (first_error c e) q h

serve_close-Stands :
    (s : Supervisor) (r : Request) (e c : Option Error)
    → s.stopped ≡ false
    → Stands (serve_close s r e c)
unfolding serve_close
serve_close-Stands s r none c h = record { stands = h }
serve_close-Stands s r (some e) none h = shutdown-Stands _ h
serve_close-Stands s r (some e) (some c) h = shutdown-Stands _ h

take_request-Stands :
    (s : Supervisor) (rs : List Request) (c e a : Option Error)
    → s.phase ≡ serving
    → s.stopped ≡ false
    → Stands (take_request s rs c e a)
unfolding serve_request
take_request-Stands s [] c e a q h = pumping-Stands s is_serving q h
take_request-Stands s (r ∷ rs) (some c) e a q h = pumping-Stands _ is_serving q h
take_request-Stands s (r ∷ rs) none e a q h = by_message r.message
  where
    t : Supervisor
    t = record s { send_ch = rs }

    by_message :
        (m : Option ℕ)
        → Stands (elim m [ none ↦ serve_close t r e a | some n ↦ serve_message t r e a ])
    by_message none = serve_close-Stands t r e a h
    by_message (some n) = serve_message-Stands t r e a q h

serve-Stands :
    (s : Supervisor) (i : Served) → s.phase ≡ serving → s.stopped ≡ false → Stands (serve s i)
unfolding serve
serve-Stands s context_done q h = record { stands = h }
serve-Stands s stop_seen q h = record { stands = h }
serve-Stands s (update status) q h = apply_arbitration-Stands s status is_serving q h
serve-Stands s (recv_ends e) q h = stream_broke-Stands s (recv_error e) h
serve-Stands s (takes c e a) q h = take_request-Stands s s.send_ch c e a q h

finish_stream-Stands :
    (s : Supervisor) (id : ℕ) (i : Finished)
    → s.phase ≡ finishing id
    → s.stopped ≡ false
    → Stands (finish_stream s id i)
unfolding finish_stream
finish_stream-Stands s id interrupted q h = shutdown-Stands _ h
finish_stream-Stands s id (late_update status) q h =
    apply_arbitration-Stands s status is_finishing q h
finish_stream-Stands s id (final_status e c) q h = shutdown-Stands _ h

-- What holds in a phase that the goroutine is known to stand at.
stood : (s : Supervisor) {p : Phase} → s.phase ≡ p → Stands s → StandsAt p s.state s.stopped
stood s q k = subst (λ p. StandsAt p s.state s.stopped) q k.stands

run-Stands : (s : Supervisor) (p : Phase) (a : Action) → s.phase ≡ p → Stands s → Stands (run s p a)
run-Stands s starting (rounds c) q k = round_begins-Stands s c (stood s q k)
run-Stands s opening (dials e) q k = dial_returns-Stands s e (stood s q k)
run-Stands s arbitrating (arbitrates a) q k =
    arbitration_returns-Stands s (arbitrate a) (stood s q k)
run-Stands s sleeping (wakes c) q k = sleep_returns-Stands s c (stood s q k)
run-Stands s serving (serves i) q k = serve-Stands s i q (stood s q k)
run-Stands s (finishing id) (finishes i) q k = finish_stream-Stands s id i q (stood s q k)
run-Stands s stopping stops q k = record { stands = (stood s q k).0 }
run-Stands s _ _ q k = k

with_gate-Stands :
    (s t : Supervisor) (o : Option Request) → Stands s → Stands t → Stands (with_gate s o t)
with_gate-Stands s t none k l = l
with_gate-Stands s t (some r) k l = k

room-Stands :
    (s : Supervisor) (r : Request)
    → Stands s
    → Stands (if ltb (length s.send_ch) buffer_size then put_request s r else s)
room-Stands s r k =
    if-elim Stands (ltb (length s.send_ch) buffer_size) (put_request s r) s
      (λ _. record { stands = k.stands }) λ _. k

enqueue-Stands :
    (s : Supervisor) (r : Request) (c : Option Error) → Stands s → Stands (enqueue s r c)
unfolding enqueue
enqueue-Stands s r (some c) k = record { stands = k.stands }
enqueue-Stands s r none k =
    if-elim Stands (s.draining || s.stop || s.stopped) (record s { sender = none })
      (if ltb (length s.send_ch) buffer_size then put_request s r else s)
      (λ _. record { stands = k.stands }) λ _. room-Stands s r k

offer-Stands : (s : Supervisor) (r : Request) (c : Option Error) → Stands s → Stands (offer s r c)
unfolding offer
offer-Stands s r (some c) k = record { stands = k.stands }
offer-Stands s r none k =
    if-elim Stands s.stopped
      (record s { sender = none; finished = finish s.finished r.id (some closed_error) })
      (if ltb (length s.send_ch) buffer_size then put_request s r else s)
      (λ _. record { stands = k.stands }) λ _. room-Stands s r k

submit-Stands :
    (s : Supervisor) (o : Option Request) (c : Option Error) → Stands s → Stands (submit s o c)
submit-Stands s none c k = k
submit-Stands s (some r) c k = by_message r.message
  where
    by_message : (m : Option ℕ) → Stands (elim m [ some n ↦ enqueue s r c | none ↦ offer s r c ])
    by_message (some n) = enqueue-Stands s r c k
    by_message none = offer-Stands s r c k

close_from-Stands : (s : Supervisor) (g : Option ℕ) → Stands s → Stands (close_from s g)
close_from-Stands s (some id) k = k
close_from-Stands s none k = record { stands = k.stands }

step-Stands : (s : Supervisor) (a : Action) → Stands s → Stands (step s a)
unfolding step
step-Stands s (watches m) k =
    with_gate-Stands s _ s.sender k (unfold watch in record { stands = k.stands })
step-Stands s (submits c) k = submit-Stands s s.sender c k
step-Stands s closes k = unfold close in record { stands = k.stands }
step-Stands s closes_gracefully k =
    unfold close_gracefully in with_gate-Stands s _ s.sender k (close_from-Stands s s.grace k)
step-Stands s (rounds c) k = run-Stands s s.phase (rounds c) refl k
step-Stands s (dials e) k = run-Stands s s.phase (dials e) refl k
step-Stands s (arbitrates a) k = run-Stands s s.phase (arbitrates a) refl k
step-Stands s (wakes c) k = run-Stands s s.phase (wakes c) refl k
step-Stands s (serves i) k = run-Stands s s.phase (serves i) refl k
step-Stands s (finishes i) k = run-Stands s s.phase (finishes i) refl k
step-Stands s stops k = run-Stands s s.phase stops refl k

run_all-Stands : (s : Supervisor) (actions : List Action) → Stands s → Stands (run_all s actions)
unfolding run_all
run_all-Stands s [] k = k
run_all-Stands s (a ∷ rest) k = run_all-Stands (step s a) rest (step-Stands s a k)

init-Stands : (cfg : Config) → Stands (init cfg)
unfolding init
init-Stands cfg = record { stands = refl }

stopped-ended :
    (p : Phase) (st : State) (stopped : Bool)
    → StandsAt p st stopped
    → stopped ≡ true
    → (p ≡ ended) × (st ≡ disconnected)
stopped-ended stopping st stopped k h = absurd (cc)
stopped-ended ended st stopped k h = (refl, k)
stopped-ended starting st stopped k h = absurd (cc)
stopped-ended opening st stopped k h = absurd (cc)
stopped-ended arbitrating st stopped k h = absurd (cc)
stopped-ended sleeping st stopped k h = absurd (cc)
stopped-ended serving st stopped k h = absurd (cc)
stopped-ended (finishing id) st stopped k h = absurd (cc)

-- After any actions of the goroutine and its callers, in any order, that lead to a closed `stopped`:
-- `run` has returned, the supervisor is disconnected, and no call of `wait`, for whichever request
-- and with whichever context, goes on waiting, also for a request that is left in the channel.
pub run_all-init-stopped :
    (cfg : Config) (actions : List Action)
    → (run_all (init cfg) actions).stopped ≡ true
    → ((run_all (init cfg) actions).phase ≡ ended)
      × ((run_all (init cfg) actions).state ≡ disconnected)
      × ((id : ℕ) (c : Option Error) → wait (run_all (init cfg) actions) id c ≢ none)
run_all-init-stopped cfg actions h =
    let s = run_all (init cfg) actions in
    let (over, quiet) =
      stopped-ended s.phase s.state s.stopped
        ((run_all-Stands (init cfg) actions (init-Stands cfg)).stands) h in
    (over, quiet, λ id c. stopped_wait s id c h)
