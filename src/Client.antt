-- ===== src/Client.antt =====
-- client/client.go, and the RPC methods of client/write.go for a client. A client is its options and
-- its supervisor. Dial and BecomePrimary wait in loops, whose rounds are arguments, in order: what the
-- supervisor does before a round of Dial looks at it, or the state that a round of BecomePrimary
-- sees, and what wakes the round; `none` says that the loop still waits.
-- Where Dial fails it closes its client, which nobody gets.
pub mod Settings
pub mod Waiting
pub mod Security
pub mod Dispatch
pub mod Registered
mod Examples
use p4runtime_go_controller.Common.{
  ℕ, Bool, true, false, ◌||◌, List, [], ◌∷◌, Option, none, some, ◌==◌, if◌then◌else◌,
}
use p4runtime_go_controller.Common.Int.{ℤ}
use p4runtime_go_controller.Common.Errors.{
  Error, Result, ok, err, sentinel, plain, wrap, election_id_zero, arbitration_failed,
  stream_closed, not_primary,
}
use p4runtime_go_controller.Election.{is_zero}
use p4runtime_go_controller.Stream.{
  Supervisor, State, primary, backup, Config, init, is_state, is_primary,
}
use p4runtime_go_controller.Stream.Loop.{Action, run_all}
use p4runtime_go_controller.Write.{WriteRequest, WriteResult, Reply, write}
use p4runtime_go_controller.Read.{ReadRequest, ReadReply, read}
use p4runtime_go_controller.Client.Dispatch.{PacketMetadata}
use p4runtime_go_controller.Client.Settings.{Options, default_options, apply_options}

pub record Client : Type 0 where
  pub opts : Options
  pub sup : Supervisor

abbrev pub stream_config : Options → Config
stream_config o = record {
  device_id = o.device_id;
  election_high = o.election_id.high;
  election_low = o.election_id.low;
  role = o.role;
  arbitration_timeout = o.arbitration_timeout;
  backoff_initial = o.backoff_initial;
  backoff_max = o.backoff_max;
}

-- The checks of Dial, and the client that it makes; `conn` is what grpc.NewClient returns.
unfoldable pub new_client : List (Options → Options) → Option Error → Result Client
new_client opts conn =
    let o = apply_options opts default_options in
    if o.device_id == 0
    then err (wrap "client.Dial" (plain "device ID required (use WithDeviceID)"))
    else if is_zero o.election_id
    then err (wrap "client.Dial" (sentinel election_id_zero))
    else elim conn [
      | some e ↦ err (wrap "grpc.NewClient" e)
      | none ↦ ok (record { opts = o; sup = init (stream_config o) })
    ]

-- What ends a round of Dial's loop, where the state does not.
pub data DialWake : Type 0 where
  context_done : Error → DialWake
  deadline_passed tick : DialWake

abbrev pub dial_wakes : DialWake → Option (Result Supervisor) → Option (Result Supervisor)
dial_wakes (context_done e) later = some (err e)
dial_wakes deadline_passed later = some (err (wrap "client.Dial" (sentinel arbitration_failed)))
dial_wakes tick later = later

-- A round of Dial's loop: what the supervisor's goroutine and its callers do before the round looks
-- at the state, and what wakes the round.
abbrev pub DialRound : Type 0
DialRound = List Action × DialWake

-- The loop of Dial, from the supervisor as it is before; the result is the supervisor that the last
-- round saw.
unfoldable pub dial_loop : Supervisor → List DialRound → Option (Result Supervisor)
dial_loop sup [] = none
dial_loop sup ((steps, wake) ∷ rounds) =
    let seen = run_all sup steps in
    let later = dial_loop seen rounds in
    if is_state seen.state primary || is_state seen.state backup
    then some (ok seen)
    else dial_wakes wake later

abbrev pub dialed : Client → Option (Result Supervisor) → Option (Result Client)
dialed c none = none
dialed c (some (ok sup)) = some (ok (record c { sup = sup }))
dialed c (some (err e)) = some (err e)

unfoldable pub dial :
    List (Options → Options) → Option Error → List DialRound → Option (Result Client)
dial options conn rounds = elim (new_client options conn) [
  | err e ↦ some (err e)
  | ok c ↦ dialed c (dial_loop c.sup rounds)
]

-- What ends a wait of BecomePrimary.
pub data PrimaryWake : Type 0 where
  caller_done : Error → PrimaryWake
  state_changed client_done client_closed : PrimaryWake

abbrev pub primary_wakes : PrimaryWake → Option (Option Error) → Option (Option Error)
primary_wakes (caller_done e) later = some (some e)
primary_wakes state_changed later = later
primary_wakes client_done later = some (some (sentinel stream_closed))
primary_wakes client_closed later = some (some (sentinel stream_closed))

-- A round of BecomePrimary: whether the client's context has ended, the state, and what wakes it.
pub record PrimaryRound : Type 0 where
  pub ended : Bool
  pub state : State
  pub wake : PrimaryWake

unfoldable pub become_primary : List PrimaryRound → Option (Option Error)
become_primary [] = none
become_primary (r ∷ rounds) =
    let later = become_primary rounds in
    if r.ended
    then some (some (sentinel stream_closed))
    else if is_state r.state primary
    then some none
    else primary_wakes r.wake later

-- Client.Write with the zero options.
unfoldable pub client_write :
    {U : Type 0} → Client → List U → (WriteRequest U → Reply) → List (WriteRequest U) × WriteResult
client_write c updates rpc =
    write (is_primary c.sup)
      (record {
        device_id = c.opts.device_id;
        election_high = c.opts.election_id.high;
        election_low = c.opts.election_id.low;
        role = c.opts.role;
        updates = updates;
        atomicity = 0;
      })
      rpc

-- Client.Read
unfoldable pub client_read :
    {E : Type 0}
    → Client
    → List E
    → (ReadRequest E → ReadReply E)
    → List (ReadRequest E) × Option (Result (List E))
client_read c entities rpc =
    read (record { device_id = c.opts.device_id; role = c.opts.role; entities = entities }) rpc

-- p4.v1.PacketOut and DigestListAck, in a StreamMessageRequest.
pub record PacketOutMessage : Type 0 where
  pub payload : List ℕ
  pub metadata : List PacketMetadata

pub record DigestListAck : Type 0 where
  pub digest_id : ℕ
  pub list_id : ℕ

pub data StreamRequest : Type 0 where
  packet_request : PacketOutMessage → StreamRequest
  ack_request : DigestListAck → StreamRequest

-- SendStreamRequest, where `send` is the supervisor's Send: the requests that are passed to it, and
-- the error.
unfoldable pub send_stream_request :
    Client → StreamRequest → (StreamRequest → Option Error) → List StreamRequest × Option Error
send_stream_request c req send =
    if is_primary c.sup then (req ∷ [], send req) else ([], some (sentinel not_primary))

unfoldable pub send_packet_out :
    Client
    → Option PacketOutMessage
    → (StreamRequest → Option Error)
    → List StreamRequest × Option Error
send_packet_out c none send = ([], some (plain "client.SendPacketOut: nil packet"))
send_packet_out c (some pkt) send = send_stream_request c (packet_request pkt) send

unfoldable pub send_digest_ack :
    Client
    → Option DigestListAck
    → (StreamRequest → Option Error)
    → List StreamRequest × Option Error
send_digest_ack c none send = ([], some (plain "client.SendDigestAck: nil ack"))
send_digest_ack c (some ack) send = send_stream_request c (ack_request ack) send
