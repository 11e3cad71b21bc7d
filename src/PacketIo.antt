-- ===== src/PacketIo.antt =====
-- packetio/packetio.go: packets with named metadata. A metadata map is a list of its assignments,
-- the newest first.
pub mod Sending
pub mod RoundTrip
mod Examples
use p4runtime_go_controller.Common.{
  ℕ, Bool, true, false, List, [], ◌∷◌, Option, none, some, ◌==◌, length, if◌then◌else◌,
}
use p4runtime_go_controller.Common.Errors.{Error, Result, ok, err, plain, wrapping, ◌>>=◌, ◌>>◌}
use p4runtime_go_controller.Codec.{encode_bytes}
use p4runtime_go_controller.Pipeline.{Pipeline, get, packet_metadata, field, field_by_id}
use p4runtime_go_controller.Pipeline.Resource.{PacketMetadataField, ControllerPacketMetadataDef}
use p4runtime_go_controller.Common.Text.{codes}
use p4runtime_go_controller.Client.Dispatch.{
  PacketMetadata, PacketInMessage, PacketInHandler, DispatchSlots, add_packet_in,
}
use p4runtime_go_controller.Client.{Client, StreamRequest, PacketOutMessage, send_packet_out}

pub record Subscriber : Type 0 where
  pub client : Client
  pub in_meta : Option ControllerPacketMetadataDef
  pub out_meta : Option ControllerPacketMetadataDef

-- NewSubscriber, for a client and a pipeline that are not nil.
unfoldable pub new_subscriber : Client → Pipeline → Subscriber
new_subscriber c p = record {
  client = c;
  in_meta = packet_metadata p (codes "packet_in");
  out_meta = packet_metadata p (codes "packet_out");
}

pub record PacketIn : Type 0 where
  pub payload : List ℕ
  pub metadata : List (List ℕ × List ℕ)

pub record PacketOut : Type 0 where
  pub payload : List ℕ
  pub metadata : List (List ℕ × List ℕ)

-- The first loop of Send: each name is one of the header.
unfoldable pub check_names :
    ControllerPacketMetadataDef → List (List ℕ × List ℕ) → Result (Unit {0})
check_names d [] = ok tt
check_names d ((name, value) ∷ m) =
    let rest = check_names d m in
    elim (field d name) [ none ↦ err (plain "packetio.Send: unknown metadata") | some f ↦ rest ]

abbrev pub supplied : Option (List ℕ) → Result (List ℕ)
supplied none = err (plain "packetio.Send: missing metadata")
supplied (some value) = ok value

-- The second loop of Send: each field of the header in order.
unfoldable pub encode_fields :
    List PacketMetadataField → List (List ℕ × List ℕ) → Result (List PacketMetadata)
encode_fields [] m = ok []
encode_fields (f ∷ fields) m = do
  value ← supplied (get m f.name)
  canon ← wrapping "packetio.Send metadata" (encode_bytes value f.bitwidth)
  rest ← encode_fields fields m
  ok (record { metadata_id = f.id; value = canon } ∷ rest)

unfoldable pub encode_metadata :
    Option ControllerPacketMetadataDef → List (List ℕ × List ℕ) → Result (List PacketMetadata)
encode_metadata none m =
    if length m == 0
    then ok []
    else err (plain "packetio.Send: metadata supplied without a packet_out definition")
encode_metadata (some d) m = check_names d m >> encode_fields d.metadata m

abbrev pub send_encoded :
    Client
    → List ℕ
    → Result (List PacketMetadata)
    → (StreamRequest → Option Error)
    → List StreamRequest × Option Error
send_encoded c payload (err e) send_request = ([], some e)
send_encoded c payload (ok metadata) send_request =
    send_packet_out c (some (record { payload = payload; metadata = metadata })) send_request

unfoldable pub send :
    Subscriber
    → Option PacketOut
    → (StreamRequest → Option Error)
    → List StreamRequest × Option Error
send s none send_request = ([], some (plain "packetio.Send: nil packet"))
send s (some out) send_request =
    send_encoded s.client out.payload (encode_metadata s.out_meta out.metadata) send_request

-- The loop of decode.
unfoldable pub decode_metadata :
    ControllerPacketMetadataDef
    → List PacketMetadata
    → List (List ℕ × List ℕ)
    → List (List ℕ × List ℕ)
decode_metadata d [] m = m
decode_metadata d (pm ∷ rest) m = elim (field_by_id d pm.metadata_id) [
  | none ↦ decode_metadata d rest m
  | some f ↦ decode_metadata d rest ((f.name, pm.value) ∷ m)
]

abbrev pub decoded_metadata :
    Option ControllerPacketMetadataDef → List PacketMetadata → List (List ℕ × List ℕ)
decoded_metadata none metadata = []
decoded_metadata (some d) metadata = decode_metadata d metadata []

unfoldable pub decode : Subscriber → PacketInMessage → PacketIn
decode s msg = record { payload = msg.payload; metadata = decoded_metadata s.in_meta msg.metadata }

-- The getters of a nil message give no payload and no metadata.
abbrev pub message_of : Option PacketInMessage → PacketInMessage
message_of none = record { payload = []; metadata = [] }
message_of (some msg) = msg

-- OnPacket: the handler that is registered.
unfoldable pub on_packet :
    {S : Type 0} → Subscriber → (PacketIn → S → S) → DispatchSlots S → DispatchSlots S
on_packet s h d = add_packet_in (λ msg. h (decode s (message_of msg))) d
