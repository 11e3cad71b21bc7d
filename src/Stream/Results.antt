-- ===== src/Stream/Results.antt =====
-- The results of requests in internal/stream/supervisor.go: `finish`, `failPending`, `wait` and the
-- deferred calls of `run`.
use p4runtime_go_controller.Common.{
  ℕ, ◌≡◌, ◌≢◌, refl, true, false, List, [], ◌∷◌, Option, none, some, if◌then◌else◌, ==_iff, All,
  arith,
}
use p4runtime_go_controller.Common.Errors.{Error}
use p4runtime_go_controller.Stream.{
  Supervisor, Request, disconnected, result_of, finish, finish_all, fail_pending, closed_error,
  wait, set_state,
}
use p4runtime_go_controller.Stream.Channel.{is_state_iff}
use p4runtime_go_controller.Stream.Loop.{go_quiet}

-- The request of the number has a result.
abbrev pub HasResult : List (ℕ × Option Error) → ℕ → Type 0
HasResult l id = (e : Option Error) × (result_of id l ≡ some e)

-- Results of `l` are results of `m`.
abbrev pub KeepsResults : List (ℕ × Option Error) → List (ℕ × Option Error) → Type 0
KeepsResults l m = (id : ℕ) (e : Option Error) → result_of id l ≡ some e → result_of id m ≡ some e

pub finish-KeepsResults :
    (l : List (ℕ × Option Error)) (j : ℕ) (x : Option Error) → KeepsResults l (finish l j x)
unfolding finish
finish-KeepsResults l j x id e h = go (result_of j l) refl
  where
    go :
        (r : Option (Option Error))
        → result_of j l ≡ r
        → result_of id (if elim r [ none ↦ false | some d ↦ true ] then l else (j, x) ∷ l) ≡ some e
    go (some d) q = ground (arith, h)
    go none q = unfold result_of in ground (arith, h, q, ==_iff j id)

pub finish-HasResult :
    (l : List (ℕ × Option Error)) (j : ℕ) (x : Option Error) → HasResult (finish l j x) j
unfolding finish
finish-HasResult l j x = go (result_of j l) refl
  where
    go :
        (r : Option (Option Error))
        → result_of j l ≡ r
        → HasResult (if elim r [ none ↦ false | some d ↦ true ] then l else (j, x) ∷ l) j
    go (some d) q = (d, ground (arith, q))
    go none q = (x, unfold result_of in ground (arith, ==_iff j j))

pub finish_all-KeepsResults :
    (l : List (ℕ × Option Error)) (rs : List Request) (x : Option Error)
    → KeepsResults l (finish_all l rs x)
unfolding finish_all
finish_all-KeepsResults l [] x id e h = h
finish_all-KeepsResults l (r ∷ rs) x id e h =
    finish_all-KeepsResults (finish l r.id x) rs x id e (finish-KeepsResults l r.id x id e h)

pub finish_all-HasResult :
    (l : List (ℕ × Option Error)) (rs : List Request) (x : Option Error)
    → All (λ r. HasResult (finish_all l rs x) r.id) rs
unfolding finish_all
finish_all-HasResult l [] x = tt
finish_all-HasResult l (r ∷ rs) x =
    let (e, h) = finish-HasResult l r.id x in
    (
      (e, finish_all-KeepsResults (finish l r.id x) rs x r.id e h),
      finish_all-HasResult (finish l r.id x) rs x,
    )

-- failPending empties the channel, leaves a result with every request that waited in it, and changes
-- no result that was there before.
pub fail_pending-HasResult :
    (s : Supervisor) (x : Option Error)
    → ((fail_pending s x).send_ch ≡ [])
      × All (λ r. HasResult (fail_pending s x).finished r.id) s.send_ch
      × KeepsResults s.finished (fail_pending s x).finished
unfolding fail_pending
fail_pending-HasResult s x = (
  refl,
  finish_all-HasResult s.finished s.send_ch x,
  finish_all-KeepsResults s.finished s.send_ch x,
)

-- Once `stopped` is closed, no call of `wait` goes on waiting.
pub stopped_wait :
    (s : Supervisor) (id : ℕ) (c : Option Error) → s.stopped ≡ true → wait s id c ≢ none
unfolding wait
stopped_wait s id c h = go (result_of id s.finished) c
  where
    go :
        (r : Option (Option Error)) (c : Option Error)
        → elim r [
          | some e ↦ some e
          | none ↦ elim c [
            | some e ↦ some (some e)
            | none ↦ if s.stopped then some (some closed_error) else none
          ]
        ]
          ≢ none
    go (some e) c q = absurd (cc)
    go none (some e) q = absurd (cc)
    go none none q = absurd (ground (arith, h))

pub go_quiet-disconnected : (s : Supervisor) → (go_quiet s).state ≡ disconnected
unfolding go_quiet set_state
go_quiet-disconnected s = ground (arith, is_state_iff s.state disconnected)
