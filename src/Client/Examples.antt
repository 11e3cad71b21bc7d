-- ===== src/Client/Examples.antt =====
-- The client's options, waits and handlers at concrete inputs.
use mathlib.Core.List.{Perm, reverse_perm}
use p4runtime_go_controller.Common.{
  ℕ, ◌+◌, ◌*◌, ◌≡◌, ◌↔◌, refl, true, false, List, [], ◌∷◌, ◌++◌, reverse, none, some, arith, All,
}
use p4runtime_go_controller.Common.Errors.{ok, err, plain, sentinel, wrap, stream_closed}
use p4runtime_go_controller.Stream.{
  State-discrete, primary, backup, init, set_state, apply_arbitration,
}
use p4runtime_go_controller.Stream.Loop.{
  rounds, dials, arbitrates, first_update, run_all, step, round_begins, dial_returns,
  arbitration_returns, arbitrate,
}
use p4runtime_go_controller.Election.{is_zero}
use p4runtime_go_controller.Client.Settings.{
  TlsConfig, Options, tls_credentials, with_device_id, with_election_id, with_tls, with_insecure,
  with_role, default_options, apply_options, transport_credentials, grpc_dial_options,
}
use p4runtime_go_controller.Client.Security.{first_option, LeastVersion, with_tls-lasts}
use p4runtime_go_controller.Client.{
  Client, stream_config, DialRound, tick, context_done, dial_loop, dial, new_client, PrimaryRound,
  state_changed, client_done, become_primary,
}
use p4runtime_go_controller.Client.Waiting.{
  MayDial, Settles, SeesPrimary, WaitsOn, dial-exact, become_primary-exact,
}
use p4runtime_go_controller.Client.Dispatch.{
  StreamMessage, digest_message, Orders, dispatch, run_calls, calls, selected, new_dispatch,
  add_digest_list, add_stream, cancel_digest_list, delete,
}
use p4runtime_go_controller.Client.Registered.{
  Use, registers, cancels, digests, on_digest_list, on_stream_message, slots_after, registrations,
  live, Runs, message_calls, kind_calls, Reorders,
}
use p4runtime_go_controller.Client.Registered.Calls.{dispatch-live_calls}

abbrev options : List (Options → Options)
options = with_device_id 1 ∷ with_election_id (record { high = 0; low = 9 }) ∷ []

-- A first round that comes while the supervisor connects, and one after the first update of the
-- target.
abbrev dial_rounds : List DialRound
dial_rounds =
    (rounds false ∷ [], tick) ∷ (dials none ∷ arbitrates (first_update (some 0)) ∷ [], tick) ∷ []

abbrev dialed_client : Client
dialed_client = record {
  opts = apply_options options default_options;
  sup =
      run_all (init (stream_config (apply_options options default_options)))
        (rounds false ∷ dials none ∷ arbitrates (first_update (some 0)) ∷ []);
}

dials_with_a_device :
    dial [] none dial_rounds
    ≡ some (err (wrap "client.Dial" (plain "device ID required (use WithDeviceID)")))
unfolding dial new_client apply_options default_options
dials_with_a_device = refl

stops_at_the_context :
    dial_loop
      (init (stream_config default_options))
      ((rounds false ∷ [], context_done (plain "canceled")) ∷ dial_rounds)
    ≡ some (err (plain "canceled"))
unfolding dial_loop run_all step State-discrete round_begins set_state init
stops_at_the_context = refl

dials_the_target : dial options none dial_rounds ≡ some (ok dialed_client)
unfolding dial dial_loop new_client apply_options default_options with_device_id with_election_id
    is_zero run_all step State-discrete round_begins dial_returns arbitration_returns arbitrate
    apply_arbitration set_state init
dials_the_target = refl

dial-exact_example : (dial options none dial_rounds ≡ some (ok dialed_client)) ↔ (
    MayDial (apply_options options default_options) none
    × Settles
        (init (stream_config (apply_options options default_options)))
        dial_rounds
        dialed_client.sup
    × (dialed_client.opts ≡ apply_options options default_options))
dial-exact_example = dial-exact options none dial_rounds dialed_client

abbrev primary_rounds : List PrimaryRound
primary_rounds =
    record { ended = false; state = backup; wake = state_changed }
    ∷ record { ended = false; state = primary; wake = client_done }
    ∷ []

closed_at_once :
    become_primary (record { ended = true; state = primary; wake = state_changed } ∷ [])
    ≡ some (some (sentinel stream_closed))
unfolding become_primary
closed_at_once = refl

become_primary-exact_example :
    ((become_primary primary_rounds ≡ some none) ↔ SeesPrimary primary_rounds)
    × ((become_primary primary_rounds ≡ none) ↔ All WaitsOn primary_rounds)
become_primary-exact_example = become_primary-exact primary_rounds

abbrev tls : TlsConfig
tls = record { min_version = 0; rest = 4 }

with_tls-lasts_example :
    (used : TlsConfig) × (first_option (
        grpc_dial_options (
          apply_options
            ((with_insecure ∷ []) ++ with_tls (some tls) ∷ with_role (5 ∷ []) ∷ [])
            default_options))
      ≡ some (transport_credentials (tls_credentials used)))
    × (used.rest ≡ 4)
    × LeastVersion 0 used.min_version
with_tls-lasts_example =
    with_tls-lasts (with_insecure ∷ []) (with_role (5 ∷ []) ∷ []) tls default_options
      (keeps_role, tt)
  where
    keeps_role : (o : Options) → (with_role (5 ∷ []) o).credentials ≡ o.credentials
    keeps_role o = unfold with_role in refl

-- The handlers count in the state what they are handed.
abbrev uses : List (Use ℕ)
uses =
    cancels digests 0
    ∷ registers (on_stream_message (λ msg n. n * 10))
    ∷ registers (on_digest_list (λ msg n. n + 2))
    ∷ registers (on_digest_list (λ msg n. n + 1))
    ∷ []

abbrev digest_response : StreamMessage
digest_response = digest_message none

-- The values in the opposite order, and the registrations in a state that only counts.
abbrev backwards : Orders ℕ
backwards = record {
  packet_order = reverse;
  digest_order = reverse;
  idle_order = reverse;
  stream_order = reverse;
}

backwards-Reorders : Reorders backwards
backwards-Reorders = record {
  packets_all = λ m. reverse_perm m;
  digests_all = λ m. reverse_perm m;
  idles_all = λ m. reverse_perm m;
  messages_all = λ m. reverse_perm m;
}

counts_the_live_handlers : dispatch backwards (λ n. slots_after uses) digest_response 3 ≡ 32
unfolding dispatch selected run_calls slots_after calls new_dispatch add_digest_list add_stream
    cancel_digest_list delete
counts_the_live_handlers = refl

dispatch-live_calls_example :
    (every : List (ℕ → ℕ)) × (own : List (ℕ → ℕ)) × Runs
      (every ++ own)
      3
      (dispatch backwards (λ n. slots_after uses) digest_response 3)
    × Perm every (message_calls (live uses) digest_response)
    × Perm own (kind_calls (live uses) digest_response)
dispatch-live_calls_example =
    dispatch-live_calls backwards (λ n. slots_after uses) uses digest_response 3 backwards-Reorders
      (unfold registrations in omega arith) refl
