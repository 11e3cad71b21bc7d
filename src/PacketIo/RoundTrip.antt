-- ===== src/PacketIo/RoundTrip.antt =====
-- Metadata that packetio/packetio.go encodes, decoded with a header of the same fields.
use p4runtime_go_controller.Common.{
  ℕ, ◌≡◌, refl, sym, ap, ◌∙◌, subst, true, false, List, [], ◌∷◌, some, arith, All,
}
use p4runtime_go_controller.Common.Text.{same_text}
use p4runtime_go_controller.Common.Errors.{ok}
use p4runtime_go_controller.Codec.{encode_bytes}
use p4runtime_go_controller.Pipeline.{get, field_by_id}
use p4runtime_go_controller.Pipeline.Resource.{PacketMetadataField, ControllerPacketMetadataDef}
use p4runtime_go_controller.Client.Dispatch.{PacketMetadata}
use p4runtime_go_controller.PacketIo.{encode_metadata, decode_metadata}
use p4runtime_go_controller.PacketIo.Sending.{
  Carries, no_field, carried, IsEncoded, of_header, encode_metadata-exact,
}

-- Fields with names of their own.
abbrev pub AreApart : List PacketMetadataField → Type 0
AreApart [] = Unit
AreApart (f ∷ fields) =
    All (λ (g : PacketMetadataField). same_text g.name f.name ≡ false) fields × AreApart fields

-- Fields that the header finds by their IDs.
abbrev pub AreFound : ControllerPacketMetadataDef → List PacketMetadataField → Type 0
AreFound d = All (λ (f : PacketMetadataField). field_by_id d f.id ≡ some f)

-- The decoded map gives a field the encoded form of the value that the sent map gives it.
abbrev pub Delivers : List (List ℕ × List ℕ) → List (List ℕ × List ℕ) → PacketMetadataField → Type 0
Delivers sent received f =
    (value : List ℕ) × (canon : List ℕ) × (get sent f.name ≡ some value)
    × (encode_bytes value f.bitwidth ≡ ok canon)
    × (get received f.name ≡ some canon)

same_text_refl : (t : List ℕ) → same_text t t ≡ true
unfolding same_text
same_text_refl [] = refl
same_text_refl (c ∷ t) = ground (arith, same_text_refl t)

first_of :
    (name value : List ℕ) (m : List (List ℕ × List ℕ)) → get ((name, value) ∷ m) name ≡ some value
unfolding get
first_of name value m = rw (same_text_refl name) refl

other_than :
    (name q value : List ℕ) (m : List (List ℕ × List ℕ))
    → same_text name q ≡ false
    → get ((name, value) ∷ m) q ≡ get m q
unfolding get
other_than name q value m h = rw h refl

decode-found :
    (d : ControllerPacketMetadataDef) (f : PacketMetadataField) (canon : List ℕ)
    (rest : List PacketMetadata) (received : List (List ℕ × List ℕ))
    → field_by_id d f.id ≡ some f
    → decode_metadata d (record { metadata_id = f.id; value = canon } ∷ rest) received
      ≡ decode_metadata d rest ((f.name, canon) ∷ received)
unfolding decode_metadata
decode-found d f canon rest received h = rw (h, decode_metadata) refl

-- Later fields leave a name that is not theirs.
decode-keeps :
    (d : ControllerPacketMetadataDef) {m : List (List ℕ × List ℕ)}
    {fields : List PacketMetadataField} {out : List PacketMetadata}
    (received : List (List ℕ × List ℕ)) (name : List ℕ)
    → Carries m fields out
    → AreFound d fields
    → All (λ (g : PacketMetadataField). same_text g.name name ≡ false) fields
    → get (decode_metadata d out received) name ≡ get received name
unfolding decode_metadata get
decode-keeps d received name no_field found apart = refl
decode-keeps d received name
      (carried {f = f} {value = value} {canon = canon} {rest = rest} at_value fits carries)
      (at_id, found) (other, apart) =
    ap (λ r. get r name) (decode-found d f canon rest received at_id)
    ∙ decode-keeps d ((f.name, canon) ∷ received) name carries found apart
    ∙ other_than f.name name canon received other

decode-Delivers :
    (d : ControllerPacketMetadataDef) {m : List (List ℕ × List ℕ)}
    {fields : List PacketMetadataField} {out : List PacketMetadata}
    (received : List (List ℕ × List ℕ))
    → Carries m fields out
    → AreFound d fields
    → AreApart fields
    → All (Delivers m (decode_metadata d out received)) fields
decode-Delivers d received no_field found apart = tt
decode-Delivers d {m = m} received
      (carried {f = f} {fields = fields} {value = value} {canon = canon} {rest = rest} at_value fits
        carries)
      (at_id, found) (others, apart) =
    subst (λ r. All (Delivers m r) (f ∷ fields)) (sym (decode-found d f canon rest received at_id))
      (
        (value, canon, at_value, fits, kept),
        decode-Delivers d ((f.name, canon) ∷ received) carries found apart,
      )
  where
    kept : get (decode_metadata d rest ((f.name, canon) ∷ received)) f.name ≡ some canon
    kept =
        decode-keeps d ((f.name, canon) ∷ received) f.name carries found others
        ∙ first_of f.name canon received

-- Metadata that Send accepts for a header comes back, decoded with a header of the same fields,
-- which have IDs and names of their own: each field has the canonical bytes of the value that was
-- sent for it.
pub encode-decode_metadata :
    (d : ControllerPacketMetadataDef) (sent : List (List ℕ × List ℕ)) (out : List PacketMetadata)
    → AreFound d d.metadata
    → AreApart d.metadata
    → encode_metadata (some d) sent ≡ ok out
    → All (Delivers sent (decode_metadata d out [])) d.metadata
encode-decode_metadata d sent out found apart h = go ((encode_metadata-exact (some d) sent out).0 h)
  where
    go : IsEncoded (some d) sent out → All (Delivers sent (decode_metadata d out [])) d.metadata
    go (of_header named carries) = decode-Delivers d [] carries found apart
