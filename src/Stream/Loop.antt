-- ===== src/Stream/Loop.antt =====
-- The goroutine of internal/stream/supervisor.go: `run`, `arbitrate`, `serve`, `finishStream` and
-- `sleep` as a machine. An action is one wait of the goroutine with what came out of it, or one
-- call by another goroutine up to its next wait; the environment chooses the actions and their
-- order. An action that the machine cannot take where it stands changes nothing.
use p4runtime_go_controller.Common.{
  ℕ, Bool, true, false, not, ◌&&◌, ◌||◌, List, [], ◌∷◌, Option, none, some, ◌==◌, if◌then◌else◌,
}
use p4runtime_go_controller.Common.Int.{pos, leb_ℤ}
use p4runtime_go_controller.Common.Errors.{
  Error, Result, ok, err, sentinel, plain, wrap, stream_closed, not_primary,
}
use p4runtime_go_controller.Stream.{
  disconnected, connecting, Phase, starting, opening, arbitrating, sleeping, serving, stopping,
  ended, finishing, Supervisor, Request, is_state, is_primary, set_state, apply_arbitration, finish,
  fail_pending, closed_error, watch, enqueue, offer, close, close_gracefully,
}
use p4runtime_go_controller.Stream.Backoff.{next_backoff}

-- The ways in which `arbitrate` ends: the first message is an arbitration update with a status
-- code or none, or the wait failed.
pub data Arbitration : Type 0 where
  send_failed : Error → Arbitration
  stop_first : Arbitration
  timed_out : Error → Arbitration
  recv_failed : Error → Arbitration
  other_message : Arbitration
  first_update : Option ℕ → Arbitration

unfoldable pub arbitrate : Arbitration → Result (Option ℕ)
arbitrate (send_failed e) = err (wrap "send arbitration" e)
arbitrate stop_first = err (wrap "arbitration" (sentinel stream_closed))
arbitrate (timed_out e) = err (wrap "arbitration" e)
arbitrate (recv_failed e) = err (wrap "arbitration recv" e)
arbitrate other_message = err (plain "unexpected first stream message, expected arbitration")
arbitrate (first_update status) = ok status

-- The error of `stream.Recv`.
pub data RecvError : Type 0 where
  eof : RecvError
  failure : Error → RecvError

abbrev pub recv_error : RecvError → Error
recv_error eof = plain "EOF"
recv_error (failure e) = e

-- What `serve` wakes on. For a request: the error of its context, what CloseSend and Send return,
-- and the error of its context after the call.
pub data Served : Type 0 where
  context_done stop_seen : Served
  update : Option ℕ → Served
  recv_ends : RecvError → Served
  takes : Option Error → Option Error → Option Error → Served

-- What `finishStream` wakes on. The Boolean says that the stream's context has ended.
pub data Finished : Type 0 where
  interrupted : Finished
  late_update : Option ℕ → Finished
  final_status : RecvError → Bool → Finished

pub data Action : Type 0 where
  watches : ℕ → Action
  submits : Option Error → Action
  closes closes_gracefully stops : Action
  rounds : Bool → Action
  dials : Option Error → Action
  arbitrates : Arbitration → Action
  wakes : Bool → Action
  serves : Served → Action
  finishes : Finished → Action

-- The deferred calls of `run`, in the order in which they are made, up to the closing of `stopped`.
-- A request that goes into the channel between them is as one that went in before: what puts it
-- there reads neither the state nor the results. One that goes in after them stays.
unfoldable pub go_quiet : Supervisor → Supervisor
go_quiet s = if is_state s.state disconnected then s else set_state s disconnected none

unfoldable pub shutdown : Supervisor → Supervisor
shutdown s =
    let drained = fail_pending (go_quiet s) (some closed_error) in
    record drained { phase = stopping }

-- The last deferred call.
abbrev pub run_returns : Supervisor → Supervisor
run_returns s = record s { phase = ended; stopped = true }

abbrev pub at_phase : Supervisor → Phase → Supervisor
at_phase s p = record s { phase = p }

unfoldable pub round_begins : Supervisor → Bool → Supervisor
round_begins s cancelled =
    if cancelled || s.stop || s.draining
    then shutdown s
    else at_phase (set_state s connecting none) opening

-- A failed attempt: the error is published and the goroutine sleeps.
abbrev pub attempt_failed : Supervisor → Error → Supervisor
attempt_failed s e = at_phase (set_state s disconnected (some e)) sleeping

unfoldable pub dial_returns : Supervisor → Option Error → Supervisor
dial_returns s none = at_phase s arbitrating
dial_returns s (some e) = attempt_failed s e

unfoldable pub arbitration_returns : Supervisor → Result (Option ℕ) → Supervisor
arbitration_returns s (err e) = attempt_failed s e
arbitration_returns s (ok status) =
    let served = apply_arbitration s status in
    record served { phase = serving; backoff = s.cfg.backoff_initial }

-- The end of `sleep`, and of the round.
unfoldable pub sleep_returns : Supervisor → Bool → Supervisor
sleep_returns s cancelled =
    if not (leb_ℤ s.backoff (pos 0)) && (cancelled || s.stop || s.draining)
    then shutdown s
    else record s { phase = starting; backoff = next_backoff s.backoff s.cfg.backoff_max }

-- The stream broke: the state is published, the waiting requests fail, and a new round begins.
abbrev pub stream_broke : Supervisor → Error → Supervisor
stream_broke s e = at_phase (fail_pending (set_state s disconnected (some e)) (some e)) starting

abbrev pub finish_request : Supervisor → Request → Option Error → Supervisor
finish_request s r e = record s { finished = finish s.finished r.id e }

abbrev pub same_channel : Option ℕ → ℕ → Bool
same_channel none c = false
same_channel (some w) c = w == c

-- What a request ends with after `stream.Send`: the error of its context stands first.
abbrev pub first_error : Option Error → Option Error → Option Error
first_error none e = e
first_error (some c) e = some c

abbrev pub after_send : Supervisor → Request → Option Error → Supervisor
after_send s r none = finish_request s r none
after_send s r (some e) = stream_broke (finish_request s r (some e)) e

-- A request with a message, whose context has not ended.
unfoldable pub serve_message : Supervisor → Request → Option Error → Option Error → Supervisor
serve_message s r send_err ctx_after =
    if not (is_primary s)
    then finish_request s r (some (sentinel not_primary))
    else if not (same_channel r.state s.changed)
    then finish_request s r (some closed_error)
    else after_send (record s { sent = r ∷ s.sent }) r (first_error ctx_after send_err)

-- The request that closes the send direction; it ends `run` when CloseSend fails.
unfoldable pub serve_close : Supervisor → Request → Option Error → Option Error → Supervisor
serve_close s r none ctx_after = at_phase s (finishing r.id)
serve_close s r (some e) none = shutdown (finish_request s r (some e))
serve_close s r (some e) (some c) = shutdown (finish_request s r (some closed_error))

unfoldable pub serve_request :
    Supervisor → Request → Option Error → Option Error → Option Error → Supervisor
serve_request s r (some c) send_err ctx_after = finish_request s r (some c)
serve_request s r none send_err ctx_after = elim r.message [
  | none ↦ serve_close s r send_err ctx_after
  | some m ↦ serve_message s r send_err ctx_after
]

abbrev pub take_request :
    Supervisor → List Request → Option Error → Option Error → Option Error → Supervisor
take_request s [] c e a = s
take_request s (r ∷ rs) c e a = serve_request (record s { send_ch = rs }) r c e a

unfoldable pub serve : Supervisor → Served → Supervisor
serve s context_done = at_phase s starting
serve s stop_seen = at_phase s starting
serve s (update status) = apply_arbitration s status
serve s (recv_ends e) = stream_broke s (recv_error e)
serve s (takes c e a) = take_request s s.send_ch c e a

abbrev pub final_error : RecvError → Bool → Option Error
final_error e true = some closed_error
final_error eof false = none
final_error (failure e) false = some e

unfoldable pub finish_stream : Supervisor → ℕ → Finished → Supervisor
finish_stream s id interrupted =
    shutdown (record s { finished = finish s.finished id (some closed_error) })
finish_stream s id (late_update status) = apply_arbitration s status
finish_stream s id (final_status e cancelled) =
    shutdown (record s { finished = finish s.finished id (final_error e cancelled) })

abbrev pub submit : Supervisor → Option Request → Option Error → Supervisor
submit s none cancelled = s
submit s (some r) cancelled = elim r.message [
  | some m ↦ enqueue s r cancelled
  | none ↦ offer s r cancelled
]

abbrev pub with_gate : Supervisor → Option Request → Supervisor → Supervisor
with_gate s none t = t
with_gate s (some r) t = s

-- What the goroutine does in its phase.
abbrev pub run : Supervisor → Phase → Action → Supervisor
run s starting (rounds cancelled) = round_begins s cancelled
run s opening (dials e) = dial_returns s e
run s arbitrating (arbitrates a) = arbitration_returns s (arbitrate a)
run s sleeping (wakes cancelled) = sleep_returns s cancelled
run s serving (serves i) = serve s i
run s (finishing id) (finishes i) = finish_stream s id i
run s stopping stops = run_returns s
run s _ _ = s

unfoldable pub step : Supervisor → Action → Supervisor
step s (watches m) = with_gate s s.sender (watch s m)
step s (submits cancelled) = submit s s.sender cancelled
step s closes = close s
step s closes_gracefully = with_gate s s.sender (close_gracefully s)
step s (rounds c) = run s s.phase (rounds c)
step s (dials e) = run s s.phase (dials e)
step s (arbitrates a) = run s s.phase (arbitrates a)
step s (wakes c) = run s s.phase (wakes c)
step s (serves i) = run s s.phase (serves i)
step s (finishes i) = run s s.phase (finishes i)
step s stops = run s s.phase stops

unfoldable pub run_all : Supervisor → List Action → Supervisor
run_all s [] = s
run_all s (a ∷ rest) = run_all (step s a) rest
