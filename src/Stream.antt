-- ===== src/Stream.antt =====
-- internal/stream/supervisor.go: the supervisor of one StreamChannel. This file has its state and
-- the operations that run under its lock or on its channels; `Loop` has the goroutine that serves
-- the stream, as a machine whose steps the environment chooses.
-- A channel that is closed on the next state change is known by its number: each change closes the
-- current one and makes the next. What a request ends with is kept under the request's number.
pub mod Backoff
pub mod Loop
pub mod Channel
pub mod Results
pub mod Stopped
pub mod Pauses
pub mod Kept
pub mod Accounts
pub mod Invariant
mod Examples
use mathlib.Core.Logic.{ite}
use p4runtime_go_controller.Common.{
  ℕ, suc, ◌+◌, Bool, true, false, ◌||◌, List, [], ◌∷◌, ◌++◌, Option, none, some, length, ltb, ◌==◌,
  if◌then◌else◌, String,
}
use p4runtime_go_controller.Common.Int.{ℤ, pos, leb_ℤ}
use p4runtime_go_controller.Common.Errors.{
  Error, Result, ok, err, sentinel, plain, wrap, stream_closed, not_primary,
}

pub data State : Type 0 where
  disconnected connecting backup primary : State

unfoldable pub State-discrete : Discrete State
State-discrete = hlevel

pub record Event : Type 0 where
  pub state : State
  pub cause : Option Error

-- Durations are int64 nanoseconds.
pub record Config : Type 0 where
  pub device_id : ℕ
  pub election_high : ℕ
  pub election_low : ℕ
  pub role : List ℕ
  pub arbitration_timeout : ℤ
  pub backoff_initial : ℤ
  pub backoff_max : ℤ

-- A request with no message closes the send direction. `state` is the channel that its sender
-- watched, and `seen` the state that it saw there; `seen` is read by the theorems alone.
pub record Request : Type 0 where
  pub id : ℕ
  pub message : Option ℕ
  pub state : Option ℕ
  pub seen : State

-- Where the goroutine of `run` stands. In `finishing` it waits for the final status of the stream,
-- for the request of the given number.
pub data Phase : Type 0 where
  starting opening arbitrating sleeping serving stopping ended : Phase
  finishing : ℕ → Phase

-- The fields of the program's struct, then what its channels hold: `sender` is the request that the
-- holder of the send gate is about to put into the channel. `accepted` and `sent` record, newest
-- first, the requests that went into the channel and those passed to `stream.Send`.
pub record Supervisor : Type 0 where
  pub cfg : Config
  pub state : State
  pub last_err : Option Error
  pub changed : ℕ
  pub grace : Option ℕ
  pub events : List Event
  pub send_ch : List Request
  pub sender : Option Request
  pub next_id : ℕ
  pub finished : List (ℕ × Option Error)
  pub accepted : List Request
  pub sent : List Request
  pub draining : Bool
  pub stop : Bool
  pub stopped : Bool
  pub phase : Phase
  pub backoff : ℤ

abbrev pub buffer_size : ℕ
buffer_size = 16

abbrev or_default : ℤ → ℕ → ℤ
or_default d n = if leb_ℤ d (pos 0) then pos n else d

unfoldable pub with_defaults : Config → Config
with_defaults cfg = record cfg {
  arbitration_timeout = or_default cfg.arbitration_timeout 10_000_000_000;
  backoff_initial = or_default cfg.backoff_initial 500_000_000;
  backoff_max = or_default cfg.backoff_max 30_000_000_000;
}

-- New, then Start: the first round of `run` uses the initial backoff.
unfoldable pub init : Config → Supervisor
init cfg = record {
  cfg = with_defaults cfg;
  state = disconnected;
  last_err = none;
  changed = 0;
  grace = none;
  events = [];
  send_ch = [];
  sender = none;
  next_id = 0;
  finished = [];
  accepted = [];
  sent = [];
  draining = false;
  stop = false;
  stopped = false;
  phase = starting;
  backoff = (with_defaults cfg).backoff_initial;
}

abbrev pub is_state : State → State → Bool
is_state a b = ite (State-discrete a b) true false

unfoldable pub is_primary : Supervisor → Bool
is_primary s = is_state s.state primary

-- An event is dropped when the buffer is full.
abbrev publish : List Event → Event → List Event
publish events e = if ltb (length events) buffer_size then events ++ e ∷ [] else events

unfoldable pub set_state : Supervisor → State → Option Error → Supervisor
set_state s st cause = record s {
  state = st;
  changed = if is_state s.state st then s.changed else suc s.changed;
  last_err = cause;
  events = publish s.events (record { state = st; cause = cause });
}

-- The status of an update is its code, `none` where it has no status.
unfoldable pub status_ok : Option ℕ → Bool
status_ok none = true
status_ok (some code) = code == 0

unfoldable pub apply_arbitration : Supervisor → Option ℕ → Supervisor
unfolding status_ok set_state
apply_arbitration s status = set_state s (if status_ok status then primary else backup) none

unfoldable pub result_of : ℕ → List (ℕ × Option Error) → Option (Option Error)
result_of id [] = none
result_of id ((j, e) ∷ l) = if j == id then some e else result_of id l

abbrev pub is_done : ℕ → List (ℕ × Option Error) → Bool
is_done id l = elim (result_of id l) [ none ↦ false | some e ↦ true ]

-- sendRequest.finish: the first result stays.
unfoldable pub finish : List (ℕ × Option Error) → ℕ → Option Error → List (ℕ × Option Error)
finish l id e = if is_done id l then l else (id, e) ∷ l

unfoldable pub finish_all :
    List (ℕ × Option Error) → List Request → Option Error → List (ℕ × Option Error)
finish_all l [] e = l
finish_all l (r ∷ rs) e = finish_all (finish l r.id e) rs e

-- Drains the send channel.
unfoldable pub fail_pending : Supervisor → Option Error → Supervisor
fail_pending s e = record s { finished = finish_all s.finished s.send_ch e; send_ch = [] }

abbrev pub closed_error : Error
closed_error = sentinel stream_closed

-- What `wait` returns: the result of its request, else the error of its context where that has
-- ended, else the stopped error once the supervisor has stopped; `none` while it waits.
unfoldable pub wait : Supervisor → ℕ → Option Error → Option (Option Error)
wait s id cancelled = elim (result_of id s.finished) [
  | some e ↦ some e
  | none ↦ elim cancelled [
    | some e ↦ some (some e)
    | none ↦ if s.stopped then some (some closed_error) else none
  ]
]

-- A sender that holds the gate has watched the state and made its request.
unfoldable pub watch : Supervisor → ℕ → Supervisor
watch s message = record s {
  sender =
      some
        (record { id = s.next_id; message = some message; state = some s.changed; seen = s.state });
  next_id = suc s.next_id;
}

abbrev pub put_request : Supervisor → Request → Supervisor
put_request s r = record s {
  sender = none;
  send_ch = s.send_ch ++ r ∷ [];
  accepted = r ∷ s.accepted;
}

-- `enqueue` and the return of the gate. A full channel blocks the sender, who keeps the gate.
unfoldable pub enqueue : Supervisor → Request → Option Error → Supervisor
enqueue s r (some cancelled) = record s { sender = none }
enqueue s r none =
    if s.draining || s.stop || s.stopped
    then record s { sender = none }
    else if ltb (length s.send_ch) buffer_size
    then put_request s r
    else s

-- The error that `enqueue` returns, for a request that does not go into the channel.
unfoldable pub enqueue_error : Supervisor → Option Error → Option Error
enqueue_error s (some cancelled) = some cancelled
enqueue_error s none = if s.draining || s.stop || s.stopped then some closed_error else none

-- The last select of CloseGracefully.
unfoldable pub offer : Supervisor → Request → Option Error → Supervisor
offer s r (some cancelled) = record s {
  sender = none;
  finished = finish s.finished r.id (some cancelled);
}
offer s r none =
    if s.stopped
    then record s { sender = none; finished = finish s.finished r.id (some closed_error) }
    else if ltb (length s.send_ch) buffer_size
    then put_request s r
    else s

-- Close: the stop channel is closed once.
unfoldable pub close : Supervisor → Supervisor
close s = record s { stop = true }

-- CloseGracefully by a caller that holds the gate, up to the last select: one half-close is made at
-- most, and requests that come later are refused.
abbrev pub close_from : Supervisor → Option ℕ → Supervisor
close_from s (some id) = s
close_from s none = record s {
  grace = some s.next_id;
  draining = true;
  next_id = suc s.next_id;
  sender = some (record { id = s.next_id; message = none; state = none; seen = s.state });
}

unfoldable pub close_gracefully : Supervisor → Supervisor
close_gracefully s = close_from s s.grace
