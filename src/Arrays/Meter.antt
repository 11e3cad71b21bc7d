-- ===== src/Arrays/Meter.antt =====
-- meter/meter.go: Reader.Read, Write and Reset, and Config.toProto.
use p4runtime_go_controller.Common.{
  ℕ, Bool, true, false, ◌&&◌, ◌||◌, not, List, Option, none, some, if◌then◌else◌,
}
use p4runtime_go_controller.Common.Int.{ℤ, pos, ltb_ℤ, leb_ℤ}
use p4runtime_go_controller.Common.Errors.{Result, ok, err, plain, wrapping, ◌>>=◌, ◌>>◌}
use p4runtime_go_controller.Write.{WriteRequest, WriteResult, Reply}
use p4runtime_go_controller.Read.{ReadRequest, ReadReply}
use p4runtime_go_controller.Pipeline.{Pipeline, meter}
use p4runtime_go_controller.Pipeline.Resource.{
  MeterDef, MeterSpec, MeterUnit, bytes, packets, other_unit, MeterType, two_rate_three_color,
  single_rate_three_color, single_rate_two_color, other_type,
}
use p4runtime_go_controller.Client.{Client}
use p4runtime_go_controller.Arrays.{
  validate, MeterConfig, MeterEntry, Entity, counter_entry, meter_entry, other_entity, Update,
  index_field, send_update, read_selected,
}

pub record Config : Type 0 where
  pub cir : ℤ
  pub cburst : ℤ
  pub pir : ℤ
  pub pburst : ℤ
  pub eburst : ℤ

abbrev pub equal : ℤ → ℤ → Bool
equal a b = leb_ℤ a b && leb_ℤ b a

abbrev pub has_unit : MeterUnit → Bool
has_unit bytes = true
has_unit packets = true
has_unit other_unit = false

abbrev pub proto : Config → MeterConfig
proto cfg = record {
  cir = cfg.cir;
  cburst = cfg.cburst;
  pir = cfg.pir;
  pburst = cfg.pburst;
  eburst = cfg.eburst;
}

-- The loop over the five values.
abbrev pub check_signs : Config → Result (Unit {0})
check_signs cfg =
    if ltb_ℤ cfg.cir (pos 0)
    then err (plain "CIR must be non-negative")
    else if ltb_ℤ cfg.cburst (pos 0)
    then err (plain "CBurst must be non-negative")
    else if ltb_ℤ cfg.pir (pos 0)
    then err (plain "PIR must be non-negative")
    else if ltb_ℤ cfg.pburst (pos 0)
    then err (plain "PBurst must be non-negative")
    else if ltb_ℤ cfg.eburst (pos 0)
    then err (plain "EBurst must be non-negative")
    else ok tt

-- The switch on the meter's type.
unfoldable pub check_type : MeterType → Config → Result (Unit {0})
check_type two_rate_three_color cfg =
    if ltb_ℤ cfg.pir cfg.cir
    then err (plain "PIR must be at least CIR")
    else if not (equal cfg.eburst (pos 0))
    then err (plain "EBurst must be zero")
    else ok tt
check_type single_rate_three_color cfg =
    if not (equal cfg.cir cfg.pir) || not (equal cfg.cburst cfg.pburst)
    then err (plain "requires CIR = PIR and CBurst = PBurst")
    else ok tt
check_type single_rate_two_color cfg =
    if not (equal cfg.cir cfg.pir) || not (equal cfg.cburst cfg.pburst)
    then err (plain "requires CIR = PIR and CBurst = PBurst")
    else if not (equal cfg.eburst (pos 0))
    then err (plain "EBurst must be zero")
    else ok tt
check_type other_type cfg = err (plain "unsupported meter type")

unfoldable pub to_proto : Config → Option MeterSpec → Result MeterConfig
to_proto cfg none = err (plain "missing P4Info meter specification")
to_proto cfg (some spec) =
    if not (has_unit spec.unit)
    then err (plain "unsupported meter unit")
    else check_signs cfg >> (check_type spec.meter_type cfg >> ok (proto cfg))

abbrev pub found : Option MeterDef → Result MeterDef
found none = err (plain "meter not in pipeline")
found (some d) = ok d

unfoldable pub meter_at : Pipeline → List ℕ → ℤ → Bool → Result MeterDef
meter_at p name index allow_all = found (meter p name) >>= λ d.
    wrapping "meter" (validate index d.size d.index_type allow_all) >> ok d

abbrev pub entry_of : Entity → Option MeterEntry
entry_of (counter_entry ce) = none
entry_of (meter_entry me) = some me
entry_of other_entity = none

abbrev pub selector : ℤ → MeterDef → Entity
selector index d =
    meter_entry (record { meter_id = d.id; index = index_field index; config = none })

unfoldable pub read :
    Client
    → Pipeline
    → List ℕ
    → ℤ
    → (ReadRequest Entity → ReadReply Entity)
    → List (ReadRequest Entity) × Option (Result (List MeterEntry))
read c p name index rpc =
    read_selected c entry_of rpc (meter_at p name index true >>= λ d. ok (selector index d))

-- The config of a write: none for Reset.
abbrev pub config_of : Option Config → Option MeterSpec → Result (Option MeterConfig)
config_of none spec = ok none
config_of (some cfg) spec = wrapping "meter" (to_proto cfg spec) >>= λ config. ok (some config)

abbrev pub meter_update : ℤ → Option MeterConfig → MeterDef → Entity
meter_update index config d =
    meter_entry (record { meter_id = d.id; index = some index; config = config })

unfoldable pub write_config :
    Client
    → Pipeline
    → List ℕ
    → ℤ
    → Option Config
    → (WriteRequest Update → Reply)
    → List (WriteRequest Update) × Result WriteResult
write_config c p name index cfg rpc = send_update c rpc (
    meter_at p name index false >>= λ d.
    config_of cfg d.spec >>= λ config. ok (meter_update index config d))

unfoldable pub write :
    Client
    → Pipeline
    → List ℕ
    → ℤ
    → Config
    → (WriteRequest Update → Reply)
    → List (WriteRequest Update) × Result WriteResult
write c p name index cfg rpc = write_config c p name index (some cfg) rpc

unfoldable pub reset :
    Client
    → Pipeline
    → List ℕ
    → ℤ
    → (WriteRequest Update → Reply)
    → List (WriteRequest Update) × Result WriteResult
reset c p name index rpc = write_config c p name index none rpc
