-- ===== src/PacketIo/Sending.antt =====
-- Send of packetio/packetio.go: when it sends, and what.
use p4runtime_go_controller.Common.{
  ℕ, ◌≡◌, ◌≢◌, ◌↔◌, refl, ap, subst, sym, ◌∙◌, true, List, [], ◌∷◌, Option, none, some,
  Option-cases, Bool-cases, inl, inr, arith, All,
}
use p4runtime_go_controller.Common.Errors.{
  Error, Result, ok, err, bind-ok, then-ok, ok-injective, err-ne-ok, wrapping-ok, ◌>>=◌, wrapping,
}
use p4runtime_go_controller.Codec.{encode_bytes}
use p4runtime_go_controller.Stream.{is_primary}
use p4runtime_go_controller.Pipeline.{get, field}
use p4runtime_go_controller.Pipeline.Resource.{PacketMetadataField, ControllerPacketMetadataDef}
use p4runtime_go_controller.Client.Dispatch.{PacketMetadata}
use p4runtime_go_controller.Client.{
  StreamRequest, packet_request, send_packet_out, send_stream_request,
}
use p4runtime_go_controller.PacketIo.{
  Subscriber, PacketOut, check_names, supplied, encode_fields, encode_metadata, send_encoded, send,
}

-- The encoded fields, in the header's order: each has a value in the map, which fits its width.
pub data Carries (m : List (List ℕ × List ℕ))
    : List PacketMetadataField → List PacketMetadata → Type 0 where
  no_field : Carries m [] []
  carried :
      {f : PacketMetadataField} {fields : List PacketMetadataField} {value canon : List ℕ}
      {rest : List PacketMetadata}
      → get m f.name ≡ some value
      → encode_bytes value f.bitwidth ≡ ok canon
      → Carries m fields rest
      → Carries m (f ∷ fields) (record { metadata_id = f.id; value = canon } ∷ rest)

supplied-ok : (o : Option (List ℕ)) (value : List ℕ) → supplied o ≡ ok value → o ≡ some value
supplied-ok none value h = cc
supplied-ok (some v) value h = ap some (ok-injective h)

-- What follows a field's value, and its encoding.
abbrev with_canon :
    PacketMetadataField
    → List PacketMetadataField
    → List (List ℕ × List ℕ)
    → List ℕ
    → Result (List PacketMetadata)
with_canon f fields m canon =
    encode_fields fields m >>= λ rest. ok (record { metadata_id = f.id; value = canon } ∷ rest)

abbrev with_value :
    PacketMetadataField
    → List PacketMetadataField
    → List (List ℕ × List ℕ)
    → List ℕ
    → Result (List PacketMetadata)
with_value f fields m value =
    wrapping "packetio.Send metadata" (encode_bytes value f.bitwidth) >>= with_canon f fields m

encode_fields-Carries :
    (fields : List PacketMetadataField) (m : List (List ℕ × List ℕ)) (out : List PacketMetadata)
    → encode_fields fields m ≡ ok out
    → Carries m fields out
unfolding encode_fields
encode_fields-Carries [] m out h = subst (Carries m []) (ok-injective h) no_field
encode_fields-Carries (f ∷ fields) m out h =
    let (value, at_value, h₁) = bind-ok (supplied (get m f.name)) (with_value f fields m) out h in
    let (canon, at_canon, h₂) =
      bind-ok (wrapping "packetio.Send metadata" (encode_bytes value f.bitwidth))
        (with_canon f fields m) out h₁ in
    let (rest, at_rest, h₃) =
      bind-ok (encode_fields fields m)
        (λ rest. ok (record { metadata_id = f.id; value = canon } ∷ rest)) out h₂ in
    subst (Carries m (f ∷ fields)) (ok-injective h₃) (
      carried (supplied-ok (get m f.name) value at_value)
        (wrapping-ok "packetio.Send metadata" (encode_bytes value f.bitwidth) canon at_canon)
        (encode_fields-Carries fields m rest at_rest))

Carries-encode_fields :
    {m : List (List ℕ × List ℕ)} {fields : List PacketMetadataField} {out : List PacketMetadata}
    → Carries m fields out
    → encode_fields fields m ≡ ok out
unfolding encode_fields
Carries-encode_fields no_field = refl
Carries-encode_fields (carried found fits rest) =
    ground (arith, found, fits, Carries-encode_fields rest)

-- Every name of the map is a field of the header.
abbrev pub AreNamed : ControllerPacketMetadataDef → List (List ℕ × List ℕ) → Type 0
AreNamed d m =
    All (λ (entry : List ℕ × List ℕ). (f : PacketMetadataField) × (field d (entry.0) ≡ some f)) m

check_names-AreNamed :
    (d : ControllerPacketMetadataDef) (m : List (List ℕ × List ℕ))
    → check_names d m ≡ ok tt
    → AreNamed d m
unfolding check_names
check_names-AreNamed d [] h = tt
check_names-AreNamed d ((name, value) ∷ m) h = elim (Option-cases (field d name)) [
  | inl missing ↦ ground (arith, missing)
  | inr (f, found) ↦ ((f, found), check_names-AreNamed d m (ground (arith, found)))
]

AreNamed-check_names :
    (d : ControllerPacketMetadataDef) (m : List (List ℕ × List ℕ))
    → AreNamed d m
    → check_names d m ≡ ok tt
unfolding check_names
AreNamed-check_names d [] named = refl
AreNamed-check_names d ((name, value) ∷ m) ((f, found), named) =
    ground (arith, found, AreNamed-check_names d m named)

-- The metadata of a packet for a header, or without one.
pub data IsEncoded
    : Option ControllerPacketMetadataDef
      → List (List ℕ × List ℕ)
      → List PacketMetadata
      → Type 0 where
  no_header : IsEncoded none [] []
  of_header :
      {d : ControllerPacketMetadataDef} {m : List (List ℕ × List ℕ)} {out : List PacketMetadata}
      → AreNamed d m
      → Carries m d.metadata out
      → IsEncoded (some d) m out

encode-IsEncoded :
    (header : Option ControllerPacketMetadataDef) (m : List (List ℕ × List ℕ))
    (out : List PacketMetadata)
    → encode_metadata header m ≡ ok out
    → IsEncoded header m out
unfolding encode_metadata
encode-IsEncoded none [] out h = subst (IsEncoded none []) (the_empty h) no_header
  where
    the_empty : encode_metadata none [] ≡ ok out → [] ≡ out
    the_empty e = ground arith
encode-IsEncoded none (entry ∷ m) out h = ground arith
encode-IsEncoded (some d) m out h =
    let (checked, encoded) = then-ok (check_names d m) (encode_fields d.metadata m) out h in
    of_header (check_names-AreNamed d m (checked.1))
      (encode_fields-Carries d.metadata m out encoded)

IsEncoded-encode :
    {header : Option ControllerPacketMetadataDef} {m : List (List ℕ × List ℕ)}
    {out : List PacketMetadata}
    → IsEncoded header m out
    → encode_metadata header m ≡ ok out
unfolding encode_metadata
IsEncoded-encode no_header = ground arith
IsEncoded-encode (of_header {d = d} {m = m} named carries) =
    ground (arith, AreNamed-check_names d m named, Carries-encode_fields carries)

-- A packet's metadata is accepted just when each name is a field of the packet_out header and each
-- field has a value that fits its width (no metadata at all where there is no header); what is sent
-- then holds the fields' IDs in the header's order, with the canonical bytes of the values.
pub encode_metadata-exact :
    (header : Option ControllerPacketMetadataDef) (m : List (List ℕ × List ℕ))
    (out : List PacketMetadata)
    → (encode_metadata header m ≡ ok out) ↔ IsEncoded header m out
encode_metadata-exact header m out = (encode-IsEncoded header m out, IsEncoded-encode)

-- The two outcomes of Send: one PacketOut is passed on, or nothing is and there is an error.
pub data Guards (s : Subscriber) (out : PacketOut) (send_request : StreamRequest → Option Error)
    (outcome : List StreamRequest × Option Error) : Type 0 where
  passes :
      (metadata : List PacketMetadata)
      → is_primary s.client.sup ≡ true
      → IsEncoded s.out_meta out.metadata metadata
      → outcome ≡ (
          let req = packet_request (record { payload = out.payload; metadata = metadata }) in
          (req ∷ [], send_request req))
      → Guards s out send_request outcome
  refuses :
      ¬ (
        (is_primary s.client.sup ≡ true)
        × ((metadata : List PacketMetadata) × IsEncoded s.out_meta out.metadata metadata))
      → outcome.0 ≡ []
      → outcome.1 ≢ none
      → Guards s out send_request outcome

encoded-Guards :
    (s : Subscriber) (out : PacketOut) (send_request : StreamRequest → Option Error)
    (r : Result (List PacketMetadata))
    → encode_metadata s.out_meta out.metadata ≡ r
    → Guards s out send_request (send_encoded s.client out.payload r send_request)
unfolding send_packet_out send_stream_request
encoded-Guards s out send_request (err e) at_r =
    refuses (λ p. err-ne-ok (sym at_r ∙ IsEncoded-encode (p.1.1))) refl (λ h. cc)
encoded-Guards s out send_request (ok metadata) at_r = elim (Bool-cases (is_primary s.client.sup)) [
  | inl primary ↦
      passes metadata primary (encode-IsEncoded s.out_meta out.metadata metadata at_r)
        (rw primary refl)
  | inr other ↦ refuses (λ p. cc) (rw other refl) (rw other (λ h. cc))
]

-- Send passes a request on just when the client is primary and the metadata is accepted: it is one
-- PacketOut, with the payload unchanged. Otherwise it passes nothing on and returns an error.
pub send-Guards :
    (s : Subscriber) (out : PacketOut) (send_request : StreamRequest → Option Error)
    → Guards s out send_request (send s (some out) send_request)
unfolding send
send-Guards s out send_request =
    encoded-Guards s out send_request (encode_metadata s.out_meta out.metadata) refl
