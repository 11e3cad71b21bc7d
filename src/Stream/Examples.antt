-- ===== src/Stream/Examples.antt =====
-- The theorems of the supervisor at small runs of it.
use p4runtime_go_controller.Common.{
  ℕ, Option, ◌≢◌, ◌≡◌, refl, length, true, false, List, [], ◌∷◌, none, some, arith,
}
use p4runtime_go_controller.Common.Int.{pos}
use p4runtime_go_controller.Common.Errors.{Error, plain}
use p4runtime_go_controller.Stream.{
  Supervisor, primary, disconnected, ended, wait, with_defaults, watch, enqueue, set_state,
  apply_arbitration, fail_pending, State-discrete, status_ok, finish_all,
}
use p4runtime_go_controller.Stream.Loop.{
  shutdown, step, round_begins, dial_returns, arbitration_returns, arbitrate, serve, go_quiet,
  other_message, context_done, stops,
}
use p4runtime_go_controller.Stream.Accounts.{Accounts}
use p4runtime_go_controller.Stream.Accounts.History.{run_all-init-Accounts}
use p4runtime_go_controller.Stream.Results.{KeepsResults}
use p4runtime_go_controller.Stream.Stopped.{run_all-init-stopped}
use p4runtime_go_controller.Stream.Kept.{run_all-KeepsResults}
use p4runtime_go_controller.Stream.{Config, init}
use p4runtime_go_controller.Stream.Pauses.{
  Failed, no_stream, no_arbitration, attempt, attempts, IsReady, Pauses, run_all-Pauses,
}
use p4runtime_go_controller.Stream.Loop.{
  Action, rounds, dials, arbitrates, first_update, watches, submits, serves, takes, update, run_all,
}
use p4runtime_go_controller.Stream.Invariant.{Inv}
use p4runtime_go_controller.Stream.Invariant.History.{run_all-init-Inv}

abbrev config : Config
config = record {
  device_id = 1;
  election_high = 0;
  election_low = 7;
  role = [];
  arbitration_timeout = pos 0;
  backoff_initial = pos 0;
  backoff_max = pos 0;
}

-- The client becomes primary, a caller sends a message, and the stream takes it.
abbrev sends_one : List Action
sends_one =
    rounds false
    ∷ dials none
    ∷ arbitrates (first_update none)
    ∷ watches 5
    ∷ submits none
    ∷ serves (takes none none none)
    ∷ []

abbrev demoted : List Action
demoted =
    rounds false
    ∷ dials none
    ∷ arbitrates (first_update none)
    ∷ watches 5
    ∷ submits none
    ∷ serves (update (some 6))
    ∷ serves (update none)
    ∷ serves (takes none none none)
    ∷ []

abbrev refused_connection : Failed
refused_connection = no_stream (plain "connection refused")

abbrev six : List Failed
six =
    refused_connection
    ∷ no_arbitration other_message (plain "unexpected first stream message, expected arbitration")
        (unfold arbitrate in refl)
    ∷ refused_connection
    ∷ refused_connection
    ∷ refused_connection
    ∷ refused_connection
    ∷ []

config-IsReady : IsReady (init config) 500_000_000 30_000_000_000
unfolding init with_defaults
config-IsReady = record {
  at_start = refl;
  not_stopped = refl;
  not_draining = refl;
  paused_next = refl;
  max_pause = refl;
}

run_all-Pauses_example :
    Pauses
      (run_all (run_all (init config) (attempts six)) (attempt refused_connection))
      30_000_000_000
      30_000_000_000
run_all-Pauses_example =
    run_all-Pauses (init config) six refused_connection 500_000_000 30_000_000_000 (omega arith)
      (omega arith) (omega arith) config-IsReady

-- The client's context ends, and a request comes after `run` has failed the waiting ones.
abbrev stops_late : List Action
stops_late =
    rounds false
    ∷ dials none
    ∷ arbitrates (first_update none)
    ∷ serves context_done
    ∷ rounds true
    ∷ watches 5
    ∷ submits none
    ∷ stops
    ∷ []

leaves_a_request :
    (length ((run_all (init config) stops_late).send_ch) ≡ 1)
    × ((run_all (init config) stops_late).stopped ≡ true)
unfolding run_all step init with_defaults round_begins dial_returns arbitration_returns arbitrate
    serve watch enqueue set_state apply_arbitration shutdown go_quiet fail_pending State-discrete
    status_ok finish_all
leaves_a_request = (refl, refl)

run_all-init-stopped_example :
    ((run_all (init config) stops_late).phase ≡ ended)
    × ((run_all (init config) stops_late).state ≡ disconnected)
    × ((id : ℕ) (c : Option Error) → wait (run_all (init config) stops_late) id c ≢ none)
run_all-init-stopped_example = run_all-init-stopped config stops_late (leaves_a_request.1)

run_all-init-Inv_example : Inv (run_all (init config) demoted)
run_all-init-Inv_example = run_all-init-Inv config demoted

-- A request waits when the stream breaks.
abbrev waiting : Supervisor
waiting = record (init config) {
  send_ch = record { id = 3; message = some 5; state = some 0; seen = primary } ∷ [];
  finished = (2, none) ∷ [];
}

run_all-KeepsResults_example : KeepsResults waiting.finished (run_all waiting demoted).finished
run_all-KeepsResults_example = run_all-KeepsResults waiting demoted

run_all-init-Accounts_example : Accounts (run_all (init config) demoted)
run_all-init-Accounts_example = run_all-init-Accounts config demoted
