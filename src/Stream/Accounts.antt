-- ===== src/Stream/Accounts.antt =====
-- Where an accepted request of internal/stream/supervisor.go can be: in the channel, among the
-- results, or held by the goroutine as the half-close that it is finishing.
pub mod History
use p4runtime_go_controller.Common.{
  ℕ, ◌≡◌, ◌⊎◌, inl, inr, refl, sym, ap, subst, ◌∙◌, Bool, true, false, not, List, [], ◌∷◌, ◌++◌,
  Option, none, some, if-elim, ◌||◌, ltb, length, if◌then◌else◌, All,
}
use p4runtime_go_controller.Common.Int.{ℤ}
use p4runtime_go_controller.Stream.Backoff.{next_backoff}
use p4runtime_go_controller.Common.Errors.{Error, Result, ok, err, sentinel, not_primary}
use p4runtime_go_controller.Stream.{
  State, disconnected, connecting, Request, Supervisor, Phase, starting, opening, arbitrating,
  sleeping, serving, ended, finishing, Config, init, set_state, apply_arbitration, finish,
  fail_pending, watch, enqueue, offer, close, close_gracefully, close_from, closed_error,
  is_primary, put_request, buffer_size, finish_all,
}
use p4runtime_go_controller.Stream.Loop.{
  Action, watches, submits, closes, closes_gracefully, rounds, dials, arbitrates, wakes, serves,
  finishes, Served, context_done, stop_seen, update, recv_ends, takes, Finished, interrupted,
  late_update, final_status, arbitrate, shutdown, go_quiet, round_begins, dial_returns,
  arbitration_returns, sleep_returns, serve_message, serve_close, serve_request, serve,
  finish_stream, step, run_all, run, submit, with_gate, take_request, after_send, stream_broke,
  first_error, same_channel, finish_request, recv_error, final_error, at_phase,
}
use p4runtime_go_controller.Stream.Results.{
  HasResult, finish-KeepsResults, finish_all-KeepsResults, finish-HasResult, finish_all-HasResult,
}

abbrev pub Queued : List Request → ℕ → Type 0
Queued [] id = ⊥
Queued (r ∷ rs) id = (r.id ≡ id) ⊎ Queued rs id

-- The request that the goroutine holds.
abbrev pub held : Phase → Option ℕ
held (finishing id) = some id
held _ = none

abbrev pub Placed : Option ℕ → List Request → List (ℕ × Option Error) → ℕ → Type 0
Placed h q l id = (h ≡ some id) ⊎ (Queued q id ⊎ HasResult l id)

pub record Acc (h : Option ℕ) (s : Supervisor) : Type 0 where
  pub placed : All (λ r. Placed h s.send_ch s.finished r.id) s.accepted

-- Each accepted request is waiting, held or finished.
pub record Accounts (s : Supervisor) : Type 0 where
  pub placed : All (λ r. Placed (held s.phase) s.send_ch s.finished r.id) s.accepted

pub All-imp :
    (P Q : ℕ → Type 0)
    → ((id : ℕ) → P id → Q id)
    → (rs : List Request) → All (λ r. P r.id) rs
    → All (λ r. Q r.id) rs
All-imp P Q f [] h = tt
All-imp P Q f (r ∷ rs) h = (f r.id h.0, All-imp P Q f rs h.1)

pub Queued-append :
    (q : List Request) (r : Request) (id : ℕ)
    → (Queued q id ⊎ (r.id ≡ id))
    → Queued (q ++ r ∷ []) id
Queued-append [] r id (inl x) = absurd x
Queued-append [] r id (inr e) = inl e
Queued-append (a ∷ q) r id (inl (inl e)) = inl e
Queued-append (a ∷ q) r id (inl (inr x)) = inr (Queued-append q r id (inl x))
Queued-append (a ∷ q) r id (inr e) = inr (Queued-append q r id (inr e))

pub none-Accounts : (s : Supervisor) → Acc none s → Accounts s
none-Accounts s a = record {
  placed =
      All-imp (Placed none s.send_ch s.finished) (Placed (held s.phase) s.send_ch s.finished) weaker
        s.accepted a.placed;
}
  where
    weaker :
        (id : ℕ)
        → Placed none s.send_ch s.finished id
        → Placed (held s.phase) s.send_ch s.finished id
    weaker id (inl e) = absurd (cc)
    weaker id (inr x) = inr x

pub Acc-set_state :
    (h : Option ℕ) (s : Supervisor) (st : State) (e : Option Error)
    → Acc h s
    → Acc h (set_state s st e)
Acc-set_state h s st e a = record { placed = unfold set_state in a.placed }

pub Acc-finish :
    (h : Option ℕ) (s : Supervisor) (id : ℕ) (e : Option Error)
    → h ≡ some id
    → Acc h s
    → Acc none (record s { finished = finish s.finished id e })
Acc-finish h s id e q a = record {
  placed =
      All-imp (Placed h s.send_ch s.finished) (Placed none s.send_ch (finish s.finished id e)) moved
        s.accepted a.placed;
}
  where
    same : (i : ℕ) → h ≡ some i → id ≡ i
    same i p = cc

    moved :
        (i : ℕ) → Placed h s.send_ch s.finished i → Placed none s.send_ch (finish s.finished id e) i
    moved i (inl p) = inr (
        inr (
          subst (HasResult (finish s.finished id e)) (same i p) (finish-HasResult s.finished id e)))
    moved i (inr (inl x)) = inr (inl x)
    moved i (inr (inr (d, x))) = inr (inr (d, finish-KeepsResults s.finished id e i d x))

Queued-result :
    (rs : List Request) (l : List (ℕ × Option Error)) (i : ℕ)
    → All (λ r. HasResult l r.id) rs
    → Queued rs i
    → HasResult l i
Queued-result [] l i h x = absurd x
Queued-result (r ∷ rs) l i h (inl e) = subst (HasResult l) e h.0
Queued-result (r ∷ rs) l i h (inr x) = Queued-result rs l i h.1 x

pub Acc-fail_pending :
    (s : Supervisor) (e : Option Error) → Acc none s → Acc none (fail_pending s e)
unfolding fail_pending
Acc-fail_pending s e a = record {
  placed = All-imp (Placed none s.send_ch s.finished) _ moved s.accepted a.placed;
}
  where
    moved :
        (i : ℕ)
        → Placed none s.send_ch s.finished i
        → Placed none [] (finish_all s.finished s.send_ch e) i
    moved i (inl p) = absurd (cc)
    moved i (inr (inl x)) = inr (
        inr (
          Queued-result s.send_ch (finish_all s.finished s.send_ch e) i
            (finish_all-HasResult s.finished s.send_ch e) x))
    moved i (inr (inr (d, x))) = inr (inr (d, finish_all-KeepsResults s.finished s.send_ch e i d x))

pub Acc-go_quiet : (s : Supervisor) → Acc none s → Acc none (go_quiet s)
unfolding go_quiet
Acc-go_quiet s k = if-elim (Acc none) _ _ _ (λ _. k) (λ _. Acc-set_state none s disconnected none k)

pub Acc-shutdown : (s : Supervisor) → Acc none s → Acc none (shutdown s)
unfolding shutdown
Acc-shutdown s k = record {
  placed = (Acc-fail_pending (go_quiet s) (some closed_error) (Acc-go_quiet s k)).placed;
}

pub Acc-stream_broke : (s : Supervisor) (e : Error) → Acc none s → Acc none (stream_broke s e)
Acc-stream_broke s e k = record {
  placed =
      (Acc-fail_pending (set_state s disconnected (some e)) (some e)
        (Acc-set_state none s disconnected (some e) k)).placed;
}

pub Acc-at_phase : (h : Option ℕ) (s : Supervisor) (p : Phase) → Acc h s → Acc h (at_phase s p)
Acc-at_phase h s p k = record { placed = k.placed }
