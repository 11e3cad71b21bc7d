-- ===== src/PacketIo/Examples.antt =====
-- Packets with two metadata fields.
use p4runtime_go_controller.Common.{ℕ, ◌≡◌, refl, Option, List, [], ◌∷◌, some, none, false, All}
use p4runtime_go_controller.Common.Int.{pos}
use p4runtime_go_controller.Common.Text.{codes, same_text}
use p4runtime_go_controller.Common.Errors.{Error, ok}
use p4runtime_go_controller.Codec.{encode_bytes, check_width, drop_zeros}
use p4runtime_go_controller.Pipeline.{field_by_id, field, index_ids, index_names, get, get_by_id}
use p4runtime_go_controller.Pipeline.Resource.{PacketMetadataField, ControllerPacketMetadataDef}
use p4runtime_go_controller.Stream.{init, set_state, primary}
use p4runtime_go_controller.Client.{Client, StreamRequest, stream_config}
use p4runtime_go_controller.Client.Settings.{default_options}
use p4runtime_go_controller.Client.Dispatch.{PacketMetadata}
use p4runtime_go_controller.PacketIo.{
  Subscriber, PacketOut, check_names, encode_fields, encode_metadata, decode_metadata, send,
}
use p4runtime_go_controller.PacketIo.Sending.{Guards, send-Guards}
use p4runtime_go_controller.PacketIo.RoundTrip.{Delivers, encode-decode_metadata}

abbrev port : PacketMetadataField
port = record { id = 1; name = codes "port"; bitwidth = pos 9 }

abbrev pad : PacketMetadataField
pad = record { id = 2; name = codes "pad"; bitwidth = pos 7 }

abbrev header : ControllerPacketMetadataDef
header = record { id = 5; name = codes "packet_out"; metadata = port ∷ pad ∷ [] }

abbrev metadata : List (List ℕ × List ℕ)
metadata = (codes "pad", []) ∷ (codes "port", 0 ∷ 1 ∷ 44 ∷ []) ∷ []

abbrev encoded : List PacketMetadata
encoded =
    record { metadata_id = 1; value = 1 ∷ 44 ∷ [] }
    ∷ record { metadata_id = 2; value = 0 ∷ [] }
    ∷ []

encodes_the_fields : encode_metadata (some header) metadata ≡ ok encoded
unfolding encode_metadata check_names encode_fields field index_names get same_text encode_bytes
    check_width drop_zeros
encodes_the_fields = refl

decodes_the_fields :
    decode_metadata header encoded [] ≡ (codes "pad", 0 ∷ []) ∷ (codes "port", 1 ∷ 44 ∷ []) ∷ []
unfolding decode_metadata field_by_id index_ids get_by_id
decodes_the_fields = refl

abbrev client : Client
client = record {
  opts = default_options;
  sup = set_state (init (stream_config default_options)) primary none;
}

abbrev subscriber : Subscriber
subscriber = record { client = client; in_meta = some header; out_meta = some header }

abbrev packet : PacketOut
packet = record { payload = 7 ∷ []; metadata = metadata }

abbrev sends : StreamRequest → Option Error
sends req = none

send-Guards_example : Guards subscriber packet sends (send subscriber (some packet) sends)
send-Guards_example = send-Guards subscriber packet sends

encode-decode_metadata_example :
    All (Delivers metadata (decode_metadata header encoded [])) (port ∷ pad ∷ [])
encode-decode_metadata_example =
    encode-decode_metadata header metadata encoded found apart encodes_the_fields
  where
    found : (field_by_id header 1 ≡ some port) × ((field_by_id header 2 ≡ some pad) × Unit {0})
    found = unfold field_by_id index_ids get_by_id in (refl, (refl, tt))

    apart : ((same_text (codes "pad") (codes "port") ≡ false) × Unit {0}) × (Unit {0} × Unit {0})
    apart = unfold same_text in ((refl, tt), (tt, tt))
