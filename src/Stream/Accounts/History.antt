-- ===== src/Stream/Accounts/History.antt =====
-- The steps of the goroutine of internal/stream/supervisor.go and of its callers, for the places of
-- accepted requests.
use p4runtime_go_controller.Common.{
  ℕ, ◌≡◌, ◌⊎◌, inl, inr, refl, ap, subst, Bool, not, List, [], ◌∷◌, ◌++◌, Option, none, some,
  if-elim, ◌||◌, ltb, length, if◌then◌else◌, All,
}
use p4runtime_go_controller.Common.Int.{ℤ}
use p4runtime_go_controller.Stream.Backoff.{next_backoff}
use p4runtime_go_controller.Common.Errors.{Error, Result, ok, err, sentinel, not_primary}
use p4runtime_go_controller.Stream.{
  disconnected, connecting, Request, Supervisor, Phase, starting, opening, arbitrating, sleeping,
  stopping, serving, finishing, Config, init, set_state, apply_arbitration, finish, watch, enqueue,
  offer, close, close_gracefully, close_from, closed_error, is_primary, put_request, buffer_size,
}
use p4runtime_go_controller.Stream.Loop.{
  Action, watches, submits, closes, closes_gracefully, stops, rounds, dials, arbitrates, wakes,
  serves, finishes, Served, context_done, stop_seen, update, recv_ends, takes, Finished,
  interrupted, late_update, final_status, arbitrate, run_returns, round_begins, dial_returns,
  arbitration_returns, sleep_returns, serve_message, serve_close, serve_request, serve,
  finish_stream, step, run_all, run, submit, with_gate, take_request, after_send, first_error,
  same_channel, finish_request, recv_error, final_error, attempt_failed,
}
use p4runtime_go_controller.Stream.Results.{HasResult, finish-KeepsResults}
use p4runtime_go_controller.Stream.Accounts.{
  Queued, held, Placed, Acc, Accounts, All-imp, Queued-append, none-Accounts, Acc-set_state,
  Acc-finish, Acc-shutdown, Acc-stream_broke, Acc-at_phase,
}

Acc-finish_request :
    (s : Supervisor) (r : Request) (e : Option Error)
    → Acc (some r.id) s
    → Acc none (finish_request s r e)
Acc-finish_request s r e k = Acc-finish (some r.id) s r.id e refl k

Acc-after_send :
    (s : Supervisor) (r : Request) (e : Option Error)
    → Acc (some r.id) s
    → Acc none (after_send s r e)
Acc-after_send s r none k = Acc-finish_request s r none k
Acc-after_send s r (some e) k =
    Acc-stream_broke (finish_request s r (some e)) e (Acc-finish_request s r (some e) k)

Acc-serve_message :
    (s : Supervisor) (r : Request) (e a : Option Error)
    → Acc (some r.id) s
    → Acc none (serve_message s r e a)
unfolding serve_message
Acc-serve_message s r e a k =
    if-elim (Acc none) (not (is_primary s)) _ _
      (λ _. Acc-finish_request s r (some (sentinel not_primary)) k)
      λ _.
        if-elim (Acc none) (not (same_channel r.state s.changed)) _ _
          (λ _. Acc-finish_request s r (some closed_error) k)
          λ _.
            Acc-after_send (record s { sent = r ∷ s.sent }) r (first_error a e)
              (record { placed = k.placed })

serve_close-Accounts :
    (s : Supervisor) (r : Request) (e a : Option Error)
    → Acc (some r.id) s
    → Accounts (serve_close s r e a)
unfolding serve_close
serve_close-Accounts s r none a k = record { placed = k.placed }
serve_close-Accounts s r (some e) none k =
    none-Accounts _ (Acc-shutdown _ (Acc-finish_request s r _ k))
serve_close-Accounts s r (some e) (some c) k =
    none-Accounts _ (Acc-shutdown _ (Acc-finish_request s r _ k))

serve_request-Accounts :
    (s : Supervisor) (r : Request) (c e a : Option Error)
    → Acc (some r.id) s
    → Accounts (serve_request s r c e a)
unfolding serve_request
serve_request-Accounts s r (some c) e a k = none-Accounts _ (Acc-finish_request s r (some c) k)
serve_request-Accounts s r none e a k = by_message r.message
  where
    by_message :
        (m : Option ℕ)
        → Accounts (elim m [ none ↦ serve_close s r e a | some m ↦ serve_message s r e a ])
    by_message none = serve_close-Accounts s r e a k
    by_message (some m) = none-Accounts _ (Acc-serve_message s r e a k)

take_request-Accounts :
    (s : Supervisor) (rs : List Request) (c e a : Option Error)
    → s.send_ch ≡ rs
    → Acc none s
    → Accounts (take_request s rs c e a)
take_request-Accounts s [] c e a q k = none-Accounts s k
take_request-Accounts s (r ∷ rs) c e a q k =
    serve_request-Accounts (record s { send_ch = rs }) r c e a
      (record { placed = All-imp (Placed none s.send_ch s.finished) _ moved s.accepted k.placed })
  where
    head : (i : ℕ) → Queued (r ∷ rs) i ⊎ HasResult s.finished i → Placed (some r.id) rs s.finished i
    head i (inl (inl e)) = inl (ap some e)
    head i (inl (inr x)) = inr (inl x)
    head i (inr x) = inr (inr x)

    moved : (i : ℕ) → Placed none s.send_ch s.finished i → Placed (some r.id) rs s.finished i
    moved i (inl p) = absurd (cc)
    moved i (inr x) = head i (subst (λ l. Queued l i ⊎ HasResult s.finished i) q x)

apply_arbitration-Accounts :
    (s : Supervisor) (status : Option ℕ) → Accounts s → Accounts (apply_arbitration s status)
apply_arbitration-Accounts s status k = record {
  placed = unfold apply_arbitration set_state in k.placed;
}

Acc-apply_arbitration :
    (s : Supervisor) (status : Option ℕ) → Acc none s → Acc none (apply_arbitration s status)
unfolding apply_arbitration
Acc-apply_arbitration s status k = Acc-set_state none s _ none k

serve-Accounts : (s : Supervisor) (i : Served) → Acc none s → Accounts (serve s i)
unfolding serve
serve-Accounts s context_done k = none-Accounts _ (Acc-at_phase none s starting k)
serve-Accounts s stop_seen k = none-Accounts _ (Acc-at_phase none s starting k)
serve-Accounts s (update status) k = none-Accounts _ (Acc-apply_arbitration s status k)
serve-Accounts s (recv_ends e) k = none-Accounts _ (Acc-stream_broke s (recv_error e) k)
serve-Accounts s (takes c e a) k = take_request-Accounts s s.send_ch c e a refl k

finish_stream-Accounts :
    (s : Supervisor) (id : ℕ) (i : Finished)
    → Acc (some id) s
    → Accounts s
    → Accounts (finish_stream s id i)
unfolding finish_stream
finish_stream-Accounts s id interrupted k a =
    none-Accounts _ (Acc-shutdown _ (Acc-finish (some id) s id (some closed_error) refl k))
finish_stream-Accounts s id (late_update status) k a = apply_arbitration-Accounts s status a
finish_stream-Accounts s id (final_status e c) k a =
    none-Accounts _ (Acc-shutdown _ (Acc-finish (some id) s id (final_error e c) refl k))

Acc-round_begins : (s : Supervisor) (c : Bool) → Acc none s → Acc none (round_begins s c)
unfolding round_begins
Acc-round_begins s c k =
    if-elim (Acc none) _ _ _ (λ _. Acc-shutdown s k)
      λ _.
        Acc-at_phase none (set_state s connecting none) opening
          (Acc-set_state none s connecting none k)

Acc-attempt_failed : (s : Supervisor) (e : Error) → Acc none s → Acc none (attempt_failed s e)
Acc-attempt_failed s e k = record { placed = (Acc-set_state none s disconnected (some e) k).placed }

Acc-dial_returns : (s : Supervisor) (o : Option Error) → Acc none s → Acc none (dial_returns s o)
unfolding dial_returns
Acc-dial_returns s none k = Acc-at_phase none s arbitrating k
Acc-dial_returns s (some e) k = Acc-attempt_failed s e k

Acc-arbitration_returns :
    (s : Supervisor) (r : Result (Option ℕ)) → Acc none s → Acc none (arbitration_returns s r)
unfolding arbitration_returns
Acc-arbitration_returns s (err e) k = Acc-attempt_failed s e k
Acc-arbitration_returns s (ok status) k = record {
  placed = (Acc-apply_arbitration s status k).placed;
}

Acc-next_round :
    (s : Supervisor) (p : Phase) (b : ℤ)
    → Acc none s
    → Acc none (record s { phase = p; backoff = b })
Acc-next_round s p b k = record { placed = k.placed }

Acc-sleep_returns : (s : Supervisor) (c : Bool) → Acc none s → Acc none (sleep_returns s c)
unfolding sleep_returns
Acc-sleep_returns s c k =
    if-elim (Acc none) _ _ _ (λ _. Acc-shutdown s k)
      λ _. Acc-next_round s starting (next_backoff s.backoff s.cfg.backoff_max) k

Acc-run_returns : (s : Supervisor) → Acc none s → Acc none (run_returns s)
Acc-run_returns s k = record { placed = k.placed }

held_now : (s : Supervisor) (p : Phase) → s.phase ≡ p → Accounts s → Acc (held p) s
held_now s p q k = record {
  placed = subst (λ p. All (λ r. Placed (held p) s.send_ch s.finished r.id) s.accepted) q k.placed;
}

run-Accounts :
    (s : Supervisor) (p : Phase) (a : Action) → s.phase ≡ p → Accounts s → Accounts (run s p a)
run-Accounts s starting (rounds c) q k =
    none-Accounts _ (Acc-round_begins s c (held_now s starting q k))
run-Accounts s opening (dials e) q k =
    none-Accounts _ (Acc-dial_returns s e (held_now s opening q k))
run-Accounts s arbitrating (arbitrates a) q k =
    none-Accounts _ (Acc-arbitration_returns s (arbitrate a) (held_now s arbitrating q k))
run-Accounts s sleeping (wakes c) q k =
    none-Accounts _ (Acc-sleep_returns s c (held_now s sleeping q k))
run-Accounts s serving (serves i) q k = serve-Accounts s i (held_now s serving q k)
run-Accounts s (finishing id) (finishes i) q k =
    finish_stream-Accounts s id i (held_now s (finishing id) q k) k
run-Accounts s stopping stops q k = none-Accounts _ (Acc-run_returns s (held_now s stopping q k))
run-Accounts s _ _ q k = k

put_request-Accounts : (s : Supervisor) (r : Request) → Accounts s → Accounts (put_request s r)
put_request-Accounts s r k = record {
  placed = (
    inr (inl (Queued-append s.send_ch r r.id (inr refl))),
    All-imp (Placed (held s.phase) s.send_ch s.finished) _ moved s.accepted k.placed,
  );
}
  where
    moved :
        (i : ℕ)
        → Placed (held s.phase) s.send_ch s.finished i
        → Placed (held s.phase) (s.send_ch ++ r ∷ []) s.finished i
    moved i (inl p) = inl p
    moved i (inr (inl x)) = inr (inl (Queued-append s.send_ch r i (inl x)))
    moved i (inr (inr x)) = inr (inr x)

no_sender-Accounts : (s : Supervisor) → Accounts s → Accounts (record s { sender = none })
no_sender-Accounts s k = record { placed = k.placed }

offer_refused-Accounts :
    (s : Supervisor) (id : ℕ) (e : Option Error)
    → Accounts s
    → Accounts (record s { sender = none; finished = finish s.finished id e })
offer_refused-Accounts s id e k = record {
  placed = All-imp (Placed (held s.phase) s.send_ch s.finished) _ moved s.accepted k.placed;
}
  where
    moved :
        (i : ℕ)
        → Placed (held s.phase) s.send_ch s.finished i
        → Placed (held s.phase) s.send_ch (finish s.finished id e) i
    moved i (inl p) = inl p
    moved i (inr (inl x)) = inr (inl x)
    moved i (inr (inr (d, x))) = inr (inr (d, finish-KeepsResults s.finished id e i d x))

room-Accounts :
    (s : Supervisor) (r : Request)
    → Accounts s
    → Accounts (if ltb (length s.send_ch) buffer_size then put_request s r else s)
room-Accounts s r k =
    if-elim Accounts (ltb (length s.send_ch) buffer_size) _ _ (λ _. put_request-Accounts s r k)
      (λ _. k)

enqueue-Accounts :
    (s : Supervisor) (r : Request) (c : Option Error) → Accounts s → Accounts (enqueue s r c)
unfolding enqueue
enqueue-Accounts s r (some c) k = no_sender-Accounts s k
enqueue-Accounts s r none k =
    if-elim Accounts (s.draining || s.stop || s.stopped) _
      (if ltb (length s.send_ch) buffer_size then put_request s r else s)
      (λ _. no_sender-Accounts s k) λ _. room-Accounts s r k

offer-Accounts :
    (s : Supervisor) (r : Request) (c : Option Error) → Accounts s → Accounts (offer s r c)
unfolding offer
offer-Accounts s r (some c) k = offer_refused-Accounts s r.id (some c) k
offer-Accounts s r none k =
    if-elim Accounts s.stopped _ (if ltb (length s.send_ch) buffer_size then put_request s r else s)
      (λ _. offer_refused-Accounts s r.id (some closed_error) k) λ _. room-Accounts s r k

submit-Accounts :
    (s : Supervisor) (o : Option Request) (c : Option Error) → Accounts s → Accounts (submit s o c)
submit-Accounts s none c k = k
submit-Accounts s (some r) c k = by_message r.message
  where
    by_message : (m : Option ℕ) → Accounts (elim m [ some m ↦ enqueue s r c | none ↦ offer s r c ])
    by_message (some m) = enqueue-Accounts s r c k
    by_message none = offer-Accounts s r c k

close_from-Accounts : (s : Supervisor) (g : Option ℕ) → Accounts s → Accounts (close_from s g)
close_from-Accounts s (some id) k = k
close_from-Accounts s none k = record { placed = k.placed }

with_gate-Accounts :
    (s t : Supervisor) (o : Option Request) → Accounts s → Accounts t → Accounts (with_gate s o t)
with_gate-Accounts s t none k h = h
with_gate-Accounts s t (some r) k h = k

step-Accounts : (s : Supervisor) (a : Action) → Accounts s → Accounts (step s a)
unfolding step
step-Accounts s (watches m) k =
    with_gate-Accounts s _ s.sender k (record { placed = unfold watch in k.placed })
step-Accounts s (submits c) k = submit-Accounts s s.sender c k
step-Accounts s closes k = record { placed = unfold close in k.placed }
step-Accounts s closes_gracefully k =
    unfold close_gracefully in with_gate-Accounts s _ s.sender k (close_from-Accounts s s.grace k)
step-Accounts s (rounds c) k = run-Accounts s s.phase (rounds c) refl k
step-Accounts s (dials e) k = run-Accounts s s.phase (dials e) refl k
step-Accounts s (arbitrates a) k = run-Accounts s s.phase (arbitrates a) refl k
step-Accounts s (wakes c) k = run-Accounts s s.phase (wakes c) refl k
step-Accounts s (serves i) k = run-Accounts s s.phase (serves i) refl k
step-Accounts s (finishes i) k = run-Accounts s s.phase (finishes i) refl k
step-Accounts s stops k = run-Accounts s s.phase stops refl k

run_all-Accounts :
    (s : Supervisor) (actions : List Action) → Accounts s → Accounts (run_all s actions)
unfolding run_all
run_all-Accounts s [] k = k
run_all-Accounts s (a ∷ rest) k = run_all-Accounts (step s a) rest (step-Accounts s a k)

-- After any actions of the goroutine and its callers, in any order: each request that ever went into
-- the send channel still waits there, or has its result, or is the half-close whose final status the
-- goroutine awaits. None is lost.
pub run_all-init-Accounts :
    (cfg : Config) (actions : List Action) → Accounts (run_all (init cfg) actions)
run_all-init-Accounts cfg actions =
    run_all-Accounts (init cfg) actions (record { placed = unfold init in tt })
