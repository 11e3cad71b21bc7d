-- ===== src/Stream/Pauses.antt =====
-- The pauses between failed attempts of `run` in internal/stream/supervisor.go, before their jitter.
use p4runtime_go_controller.Common.{
  ℕ, suc, ◌^◌, ◌*◌, ◌<◌, ◌≤◌, ◌≡◌, refl, ap, ap₂, subst, ◌∙◌, sym, false, List, [], ◌∷◌, ◌++◌, none,
  some, arith, length,
}
use Prim.Native.Nat.{min}
use p4runtime_go_controller.Common.Int.{pos}
use p4runtime_go_controller.Common.Errors.{Error, err}
use p4runtime_go_controller.Common.Power.{pow_double, pow-pos}
use p4runtime_go_controller.Stream.{
  Supervisor, starting, opening, arbitrating, sleeping, connecting, set_state,
}
use p4runtime_go_controller.Stream.Backoff.{next_backoff, next_backoff-min, capped}
use p4runtime_go_controller.Stream.Loop.{
  Arbitration, arbitrate, Action, rounds, dials, arbitrates, wakes, round_begins, dial_returns,
  arbitration_returns, sleep_returns, at_phase, run, step, run_all,
}

-- An attempt that fails: the stream does not open, or the arbitration ends with an error.
pub data Failed : Type 0 where
  no_stream : Error → Failed
  no_arbitration : (a : Arbitration) (e : Error) → arbitrate a ≡ err e → Failed

-- What the goroutine does up to the pause.
abbrev pub attempt : Failed → List Action
attempt (no_stream e) = rounds false ∷ dials (some e) ∷ []
attempt (no_arbitration a e h) = rounds false ∷ dials none ∷ arbitrates a ∷ []

-- Failed attempts, each with its pause.
abbrev pub attempts : List Failed → List Action
attempts [] = []
attempts (f ∷ fs) = attempt f ++ wakes false ∷ attempts fs

-- A supervisor whose next attempt pauses for `c`, and that nobody closes.
pub record IsReady (s : Supervisor) (c m : ℕ) : Type 0 where
  pub at_start : s.phase ≡ starting
  pub not_stopped : s.stop ≡ false
  pub not_draining : s.draining ≡ false
  pub paused_next : s.backoff ≡ pos c
  pub max_pause : s.cfg.backoff_max ≡ pos m

-- The goroutine pauses, for `c` before the jitter.
pub record Pauses (s : Supervisor) (c m : ℕ) : Type 0 where
  pub at_sleep : s.phase ≡ sleeping
  pub no_stop : s.stop ≡ false
  pub no_drain : s.draining ≡ false
  pub pause : s.backoff ≡ pos c
  pub limit : s.cfg.backoff_max ≡ pos m

begins :
    (s : Supervisor) (c m : ℕ)
    → IsReady s c m
    → step s (rounds false) ≡ at_phase (set_state s connecting none) opening
unfolding step round_begins
begins s c m r = ground (arith, r.at_start, r.not_stopped, r.not_draining)

attempt-Pauses :
    (s : Supervisor) (c m : ℕ) (f : Failed) → IsReady s c m → Pauses (run_all s (attempt f)) c m
unfolding run_all step dial_returns set_state
attempt-Pauses s c m (no_stream e) r =
    subst (λ t. Pauses (step t (dials (some e))) c m) (sym (begins s c m r))
      (record {
        at_sleep = refl;
        no_stop = r.not_stopped;
        no_drain = r.not_draining;
        pause = r.paused_next;
        limit = r.max_pause;
      })
attempt-Pauses s c m (no_arbitration a e h) r =
    subst (λ t. Pauses (step (step t (dials none)) (arbitrates a)) c m) (sym (begins s c m r))
      (subst (λ x. Pauses (arbitration_returns opened x) c m) (sym h)
        (unfold arbitration_returns in
          record {
            at_sleep = refl;
            no_stop = r.not_stopped;
            no_drain = r.not_draining;
            pause = r.paused_next;
            limit = r.max_pause;
          }))
  where
    opened : Supervisor
    opened = at_phase (at_phase (set_state s connecting none) opening) arbitrating

wakes-IsReady :
    (s : Supervisor) (c m : ℕ)
    → 0 < c
    → c < 2 ^ 63
    → m < 2 ^ 63
    → Pauses s c m
    → IsReady (step s (wakes false)) (min (2 * c) m) m
unfolding step sleep_returns
wakes-IsReady s c m hc h63 hm p =
    subst (λ t. IsReady t (min (2 * c) m) m) (sym woken)
      (record {
        at_start = refl;
        not_stopped = p.no_stop;
        not_draining = p.no_drain;
        paused_next = ap₂ next_backoff p.pause p.limit ∙ next_backoff-min c m hc h63 hm;
        max_pause = p.limit;
      })
  where
    woken :
        run s s.phase (wakes false)
        ≡ record s { phase = starting; backoff = next_backoff s.backoff s.cfg.backoff_max }
    woken = ground (arith, p.at_sleep, p.no_stop, p.no_drain)

run_all-append :
    (s : Supervisor) (before after : List Action)
    → run_all s (before ++ after) ≡ run_all (run_all s before) after
unfolding run_all
run_all-append s [] after = refl
run_all-append s (a ∷ before) after = run_all-append (step s a) before after

attempts-IsReady :
    (s : Supervisor) (fs : List Failed) (c m : ℕ)
    → 0 < c
    → c ≤ m
    → m < 2 ^ 63
    → IsReady s c m
    → IsReady (run_all s (attempts fs)) (min (2 ^ length fs * c) m) m
unfolding run_all
attempts-IsReady s [] c m hc h hm r = subst (λ k. IsReady s k m) (omega arith) r
attempts-IsReady s (f ∷ fs) c m hc h hm r =
    subst (λ t. IsReady t (min (2 ^ suc (length fs) * c) m) m)
      (sym (run_all-append s (attempt f) (wakes false ∷ attempts fs)))
      (subst (λ k. IsReady (run_all woken (attempts fs)) k m) doubled
        (attempts-IsReady woken fs (min (2 * c) m) m (omega arith) (omega arith) hm (
          wakes-IsReady (run_all s (attempt f)) c m hc (omega arith) hm
            (attempt-Pauses s c m f r))))
  where
    woken : Supervisor
    woken = step (run_all s (attempt f)) (wakes false)

    doubled : min (2 ^ length fs * min (2 * c) m) m ≡ min (2 ^ suc (length fs) * c) m
    doubled =
        capped (2 ^ length fs) c m (pow-pos (length fs))
        ∙ ap (λ (t : ℕ). min (t * c) m) (sym (pow_double (length fs)))

-- A supervisor that nobody closes, at the start of a round with the backoff `c`, positive and
-- within the maximum `m`: after any k failed attempts, each with its pause, and one more, `run`
-- sleeps, and its backoff, which the jitter is then applied to, is c * 2^k, capped at `m`. The first
-- failure thus pauses for `c`.
pub run_all-Pauses :
    (s : Supervisor) (fs : List Failed) (f : Failed) (c m : ℕ)
    → 0 < c
    → c ≤ m
    → m < 2 ^ 63
    → IsReady s c m
    → Pauses (run_all (run_all s (attempts fs)) (attempt f)) (min (2 ^ length fs * c) m) m
run_all-Pauses s fs f c m hc h hm r =
    attempt-Pauses (run_all s (attempts fs)) (min (2 ^ length fs * c) m) m f
      (attempts-IsReady s fs c m hc h hm r)
