-- ===== src/Stream/Kept.antt =====
-- The steps of internal/stream/supervisor.go and the results that requests already have.
use p4runtime_go_controller.Common.{
  ℕ, ◌≡◌, refl, sym, subst, Bool, not, List, [], ◌∷◌, Option, none, some, if-elim, ◌||◌, ltb,
  length, if◌then◌else◌,
}
use p4runtime_go_controller.Common.Int.{ℤ}
use p4runtime_go_controller.Stream.Backoff.{next_backoff}
use p4runtime_go_controller.Common.Errors.{Error, Result, ok, err, sentinel, not_primary}
use p4runtime_go_controller.Stream.{
  State, disconnected, connecting, Request, Supervisor, Phase, starting, opening, arbitrating,
  sleeping, stopping, serving, finishing, set_state, apply_arbitration, finish, fail_pending, watch,
  enqueue, offer, close, close_gracefully, close_from, closed_error, is_primary, put_request,
  buffer_size,
}
use p4runtime_go_controller.Stream.Loop.{
  Action, watches, submits, closes, closes_gracefully, stops, rounds, dials, arbitrates, wakes,
  serves, finishes, Served, context_done, stop_seen, update, recv_ends, takes, Finished,
  interrupted, late_update, final_status, arbitrate, shutdown, run_returns, go_quiet, round_begins,
  dial_returns, arbitration_returns, sleep_returns, serve_message, serve_close, serve_request,
  serve, finish_stream, step, run_all, run, submit, with_gate, take_request, after_send,
  stream_broke, first_error, same_channel, finish_request, recv_error, final_error, at_phase,
}
use p4runtime_go_controller.Stream.Results.{
  KeepsResults, finish-KeepsResults, finish_all-KeepsResults,
}

-- The results in `l` stay in the state.
pub record Keeps (l : List (ℕ × Option Error)) (t : Supervisor) : Type 0 where
  pub kept : KeepsResults l t.finished

module _ (l : List (ℕ × Option Error)) where
  Keeps-same : (s t : Supervisor) → t.finished ≡ s.finished → Keeps l s → Keeps l t
  Keeps-same s t e k = record { kept = subst (KeepsResults l) (sym e) k.kept }

  Keeps-set_state :
      (s : Supervisor) (st : State) (e : Option Error) → Keeps l s → Keeps l (set_state s st e)
  Keeps-set_state s st e k = Keeps-same s (set_state s st e) (unfold set_state in refl) k

  Keeps-apply_arbitration :
      (s : Supervisor) (status : Option ℕ) → Keeps l s → Keeps l (apply_arbitration s status)
  unfolding apply_arbitration
  Keeps-apply_arbitration s status k = Keeps-set_state s _ none k

  Keeps-finish :
      (s : Supervisor) (id : ℕ) (e : Option Error)
      → Keeps l s
      → Keeps l (record s { finished = finish s.finished id e })
  Keeps-finish s id e k = record {
    kept = λ i x h. finish-KeepsResults s.finished id e i x (k.kept i x h);
  }

  Keeps-fail_pending : (s : Supervisor) (e : Option Error) → Keeps l s → Keeps l (fail_pending s e)
  unfolding fail_pending
  Keeps-fail_pending s e k = record {
    kept = λ i x h. finish_all-KeepsResults s.finished s.send_ch e i x (k.kept i x h);
  }

  Keeps-go_quiet : (s : Supervisor) → Keeps l s → Keeps l (go_quiet s)
  unfolding go_quiet
  Keeps-go_quiet s k = if-elim (Keeps l) _ _ _ (λ _. k) (λ _. Keeps-set_state s disconnected none k)

  Keeps-shutdown : (s : Supervisor) → Keeps l s → Keeps l (shutdown s)
  unfolding shutdown
  Keeps-shutdown s k = record {
    kept = (Keeps-fail_pending (go_quiet s) (some closed_error) (Keeps-go_quiet s k)).kept;
  }

  Keeps-stream_broke : (s : Supervisor) (e : Error) → Keeps l s → Keeps l (stream_broke s e)
  Keeps-stream_broke s e k = record {
    kept =
        (Keeps-fail_pending (set_state s disconnected (some e)) (some e)
          (Keeps-set_state s disconnected (some e) k)).kept;
  }

  Keeps-no_sender : (s : Supervisor) → Keeps l s → Keeps l (record s { sender = none })
  Keeps-no_sender s k = record { kept = k.kept }

  Keeps-put_request : (s : Supervisor) (r : Request) → Keeps l s → Keeps l (put_request s r)
  Keeps-put_request s r k = record { kept = k.kept }

  Keeps-offer_refused :
      (s : Supervisor) (id : ℕ) (e : Option Error)
      → Keeps l s
      → Keeps l (record s { sender = none; finished = finish s.finished id e })
  Keeps-offer_refused s id e k = record { kept = (Keeps-finish s id e k).kept }

  Keeps-at_phase : (s : Supervisor) (p : Phase) → Keeps l s → Keeps l (at_phase s p)
  Keeps-at_phase s p k = record { kept = k.kept }

  Keeps-next_round :
      (s : Supervisor) (p : Phase) (b : ℤ)
      → Keeps l s
      → Keeps l (record s { phase = p; backoff = b })
  Keeps-next_round s p b k = record { kept = k.kept }

  Keeps-enqueue :
      (s : Supervisor) (r : Request) (c : Option Error) → Keeps l s → Keeps l (enqueue s r c)
  unfolding enqueue
  Keeps-enqueue s r (some c) k = record { kept = k.kept }
  Keeps-enqueue s r none k =
      if-elim (Keeps l) (s.draining || s.stop || s.stopped) _
        (if ltb (length s.send_ch) buffer_size then put_request s r else s)
        (λ _. Keeps-no_sender s k)
        λ _.
          if-elim (Keeps l) (ltb (length s.send_ch) buffer_size) _ _ (λ _. Keeps-put_request s r k)
            (λ _. k)

  Keeps-offer :
      (s : Supervisor) (r : Request) (c : Option Error) → Keeps l s → Keeps l (offer s r c)
  unfolding offer
  Keeps-offer s r (some c) k = record { kept = (Keeps-finish s r.id (some c) k).kept }
  Keeps-offer s r none k =
      if-elim (Keeps l) s.stopped _
        (if ltb (length s.send_ch) buffer_size then put_request s r else s)
        (λ _. Keeps-offer_refused s r.id (some closed_error) k)
        λ _.
          if-elim (Keeps l) (ltb (length s.send_ch) buffer_size) _ _ (λ _. Keeps-put_request s r k)
            (λ _. k)

  Keeps-submit :
      (s : Supervisor) (o : Option Request) (c : Option Error) → Keeps l s → Keeps l (submit s o c)
  Keeps-submit s none c k = k
  Keeps-submit s (some r) c k = by_message r.message
    where
      by_message : (m : Option ℕ) → Keeps l (elim m [ some m ↦ enqueue s r c | none ↦ offer s r c ])
      by_message (some m) = Keeps-enqueue s r c k
      by_message none = Keeps-offer s r c k

  Keeps-close_from : (s : Supervisor) (g : Option ℕ) → Keeps l s → Keeps l (close_from s g)
  Keeps-close_from s (some id) k = k
  Keeps-close_from s none k = record { kept = k.kept }

  Keeps-with_gate :
      (s t : Supervisor) (o : Option Request) → Keeps l s → Keeps l t → Keeps l (with_gate s o t)
  Keeps-with_gate s t none k h = h
  Keeps-with_gate s t (some r) k h = k

  Keeps-after_send :
      (s : Supervisor) (r : Request) (e : Option Error) → Keeps l s → Keeps l (after_send s r e)
  Keeps-after_send s r none k = Keeps-finish s r.id none k
  Keeps-after_send s r (some e) k =
      Keeps-stream_broke (finish_request s r (some e)) e (Keeps-finish s r.id (some e) k)

  Keeps-serve_message :
      (s : Supervisor) (r : Request) (e a : Option Error)
      → Keeps l s
      → Keeps l (serve_message s r e a)
  unfolding serve_message
  Keeps-serve_message s r e a k =
      if-elim (Keeps l) (not (is_primary s)) _ _
        (λ _. Keeps-finish s r.id (some (sentinel not_primary)) k)
        λ _.
          if-elim (Keeps l) (not (same_channel r.state s.changed)) _ _
            (λ _. Keeps-finish s r.id (some closed_error) k)
            λ _.
              Keeps-after_send (record s { sent = r ∷ s.sent }) r (first_error a e)
                (record { kept = k.kept })

  Keeps-serve_close :
      (s : Supervisor) (r : Request) (e a : Option Error)
      → Keeps l s
      → Keeps l (serve_close s r e a)
  unfolding serve_close
  Keeps-serve_close s r none a k = record { kept = k.kept }
  Keeps-serve_close s r (some e) none k = Keeps-shutdown _ (Keeps-finish s r.id _ k)
  Keeps-serve_close s r (some e) (some c) k = Keeps-shutdown _ (Keeps-finish s r.id _ k)

  Keeps-serve_request :
      (s : Supervisor) (r : Request) (c e a : Option Error)
      → Keeps l s
      → Keeps l (serve_request s r c e a)
  unfolding serve_request
  Keeps-serve_request s r (some c) e a k = Keeps-finish s r.id (some c) k
  Keeps-serve_request s r none e a k = by_message r.message
    where
      by_message :
          (m : Option ℕ)
          → Keeps l (elim m [ none ↦ serve_close s r e a | some m ↦ serve_message s r e a ])
      by_message none = Keeps-serve_close s r e a k
      by_message (some m) = Keeps-serve_message s r e a k

  Keeps-take_request :
      (s : Supervisor) (rs : List Request) (c e a : Option Error)
      → Keeps l s
      → Keeps l (take_request s rs c e a)
  Keeps-take_request s [] c e a k = k
  Keeps-take_request s (r ∷ rs) c e a k =
      Keeps-serve_request (record s { send_ch = rs }) r c e a (record { kept = k.kept })

  Keeps-serve : (s : Supervisor) (i : Served) → Keeps l s → Keeps l (serve s i)
  unfolding serve
  Keeps-serve s context_done k = record { kept = k.kept }
  Keeps-serve s stop_seen k = record { kept = k.kept }
  Keeps-serve s (update status) k = Keeps-apply_arbitration s status k
  Keeps-serve s (recv_ends e) k = Keeps-stream_broke s (recv_error e) k
  Keeps-serve s (takes c e a) k = Keeps-take_request s s.send_ch c e a k

  Keeps-finish_stream :
      (s : Supervisor) (id : ℕ) (i : Finished) → Keeps l s → Keeps l (finish_stream s id i)
  unfolding finish_stream
  Keeps-finish_stream s id interrupted k =
      Keeps-shutdown _ (Keeps-finish s id (some closed_error) k)
  Keeps-finish_stream s id (late_update status) k = Keeps-apply_arbitration s status k
  Keeps-finish_stream s id (final_status e c) k =
      Keeps-shutdown _ (Keeps-finish s id (final_error e c) k)

  Keeps-round_begins : (s : Supervisor) (c : Bool) → Keeps l s → Keeps l (round_begins s c)
  unfolding round_begins
  Keeps-round_begins s c k =
      if-elim (Keeps l) _ _ _ (λ _. Keeps-shutdown s k)
        λ _.
          Keeps-at_phase (set_state s connecting none) opening (Keeps-set_state s connecting none k)

  Keeps-dial_returns : (s : Supervisor) (o : Option Error) → Keeps l s → Keeps l (dial_returns s o)
  unfolding dial_returns
  Keeps-dial_returns s none k = record { kept = k.kept }
  Keeps-dial_returns s (some e) k = record {
    kept = (Keeps-set_state s disconnected (some e) k).kept;
  }

  Keeps-arbitration_returns :
      (s : Supervisor) (r : Result (Option ℕ)) → Keeps l s → Keeps l (arbitration_returns s r)
  unfolding arbitration_returns
  Keeps-arbitration_returns s (err e) k = record {
    kept = (Keeps-set_state s disconnected (some e) k).kept;
  }
  Keeps-arbitration_returns s (ok status) k = record {
    kept = (Keeps-apply_arbitration s status k).kept;
  }

  Keeps-sleep_returns : (s : Supervisor) (c : Bool) → Keeps l s → Keeps l (sleep_returns s c)
  unfolding sleep_returns
  Keeps-sleep_returns s c k =
      if-elim (Keeps l) _ _ _ (λ _. Keeps-shutdown s k)
        (λ _. Keeps-next_round s starting (next_backoff s.backoff s.cfg.backoff_max) k)

  Keeps-run : (s : Supervisor) (p : Phase) (a : Action) → Keeps l s → Keeps l (run s p a)
  Keeps-run s starting (rounds c) k = Keeps-round_begins s c k
  Keeps-run s opening (dials e) k = Keeps-dial_returns s e k
  Keeps-run s arbitrating (arbitrates a) k = Keeps-arbitration_returns s (arbitrate a) k
  Keeps-run s sleeping (wakes c) k = Keeps-sleep_returns s c k
  Keeps-run s serving (serves i) k = Keeps-serve s i k
  Keeps-run s (finishing id) (finishes i) k = Keeps-finish_stream s id i k
  Keeps-run s stopping stops k = Keeps-same s (run_returns s) refl k
  Keeps-run s _ _ k = k

  Keeps-step : (s : Supervisor) (a : Action) → Keeps l s → Keeps l (step s a)
  unfolding step
  Keeps-step s (watches m) k =
      Keeps-with_gate s _ s.sender k (Keeps-same s (watch s m) (unfold watch in refl) k)
  Keeps-step s (submits c) k = Keeps-submit s s.sender c k
  Keeps-step s closes k = Keeps-same s (close s) (unfold close in refl) k
  Keeps-step s closes_gracefully k =
      unfold close_gracefully in Keeps-with_gate s _ s.sender k (Keeps-close_from s s.grace k)
  Keeps-step s (rounds c) k = Keeps-run s s.phase (rounds c) k
  Keeps-step s (dials e) k = Keeps-run s s.phase (dials e) k
  Keeps-step s (arbitrates a) k = Keeps-run s s.phase (arbitrates a) k
  Keeps-step s (wakes c) k = Keeps-run s s.phase (wakes c) k
  Keeps-step s (serves i) k = Keeps-run s s.phase (serves i) k
  Keeps-step s (finishes i) k = Keeps-run s s.phase (finishes i) k
  Keeps-step s stops k = Keeps-run s s.phase stops k

  Keeps-run_all : (s : Supervisor) (actions : List Action) → Keeps l s → Keeps l (run_all s actions)
  unfolding run_all
  Keeps-run_all s [] k = k
  Keeps-run_all s (a ∷ rest) k = Keeps-run_all (step s a) rest (Keeps-step s a k)

-- From any state, and through any actions of the goroutine and its callers: a request that has a
-- result keeps that result.
pub run_all-KeepsResults :
    (s : Supervisor) (actions : List Action) → KeepsResults s.finished (run_all s actions).finished
run_all-KeepsResults s actions =
    (Keeps-run_all s.finished s actions (record { kept = λ i x h. h })).kept
