-- ===== src/Arrays/MeterRules.antt =====
-- The meter configurations that Config.toProto of meter/meter.go accepts.
use p4runtime_go_controller.Common.{
  ℕ, suc, zero, ◌≤◌, ◌≡◌, ◌↔◌, sym, ap, subst, refl, ◌∙◌, true, Option, none, some, arith,
}
use p4runtime_go_controller.Common.Int.{ℤ, pos, negsuc}
use p4runtime_go_controller.Common.Errors.{ok, then-ok}
use p4runtime_go_controller.Pipeline.Resource.{
  bytes, packets, other_unit, MeterSpec, MeterUnit, MeterType, two_rate_three_color,
  single_rate_three_color, single_rate_two_color, other_type,
}
use p4runtime_go_controller.Arrays.{MeterConfig}
use p4runtime_go_controller.Arrays.Meter.{Config, has_unit, proto, check_type, to_proto}

-- The rules of P4Runtime for the rates and bursts, none of them negative, of a meter's type.
pub data Rules : MeterType → (cir cburst pir pburst eburst : ℕ) → Type 0 where
  two_rates : {a b c d : ℕ} → a ≤ c → Rules two_rate_three_color a b c d 0
  one_rate_three : {a b c d e : ℕ} → a ≡ c → b ≡ d → Rules single_rate_three_color a b c d e
  one_rate_two : {a b c d : ℕ} → a ≡ c → b ≡ d → Rules single_rate_two_color a b c d 0

pub data CountsUnit : MeterUnit → Type 0 where
  in_bytes : CountsUnit bytes
  in_packets : CountsUnit packets

unit-CountsUnit : (unit : MeterUnit) → has_unit unit ≡ true → CountsUnit unit
unit-CountsUnit bytes h = in_bytes
unit-CountsUnit packets h = in_packets
unit-CountsUnit other_unit h = cc

CountsUnit-unit : {unit : MeterUnit} → CountsUnit unit → has_unit unit ≡ true
CountsUnit-unit in_bytes = cc
CountsUnit-unit in_packets = cc

-- The message with the five values as they are given.
abbrev pub HoldsValues : Config → MeterConfig → Type 0
HoldsValues cfg m =
    (m.cir ≡ cfg.cir)
    × (m.cburst ≡ cfg.cburst)
    × (m.pir ≡ cfg.pir)
    × (m.pburst ≡ cfg.pburst)
    × (m.eburst ≡ cfg.eburst)

pub data Fits : Option MeterSpec → Config → Type 0 where
  fits :
      {unit : MeterUnit} {t : MeterType} {a b c d e : ℕ}
      → CountsUnit unit
      → Rules t a b c d e
      → Fits
          (some (record { unit = unit; meter_type = t }))
          (record { cir = pos a; cburst = pos b; pir = pos c; pburst = pos d; eburst = pos e })

type-Rules :
    (t : MeterType) (a b c d e : ℕ)
    → check_type t
        (record { cir = pos a; cburst = pos b; pir = pos c; pburst = pos d; eburst = pos e })
      ≡ ok tt
    → Rules t a b c d e
unfolding check_type
type-Rules two_rate_three_color a b c d zero h = two_rates (ground arith)
type-Rules two_rate_three_color a b c d (suc e) h = ground arith
type-Rules single_rate_three_color a b c d e h = one_rate_three (ground arith) (ground arith)
type-Rules single_rate_two_color a b c d zero h = one_rate_two (ground arith) (ground arith)
type-Rules single_rate_two_color a b c d (suc e) h = ground arith
type-Rules other_type a b c d e h = cc

Rules-type :
    {t : MeterType} {a b c d e : ℕ}
    → Rules t a b c d e
    → check_type t
        (record { cir = pos a; cburst = pos b; pir = pos c; pburst = pos d; eburst = pos e })
      ≡ ok tt
unfolding check_type
Rules-type (two_rates le) = ground arith
Rules-type (one_rate_three rate burst) = ground arith
Rules-type (one_rate_two rate burst) = ground arith

to_proto-Fits :
    (unit : MeterUnit) (t : MeterType) (cir cburst pir pburst eburst : ℤ) (m : MeterConfig)
    → to_proto
        (record { cir = cir; cburst = cburst; pir = pir; pburst = pburst; eburst = eburst })
        (some (record { unit = unit; meter_type = t }))
      ≡ ok m
    → Fits
        (some (record { unit = unit; meter_type = t }))
        (record { cir = cir; cburst = cburst; pir = pir; pburst = pburst; eburst = eburst })
unfolding to_proto
to_proto-Fits unit t (negsuc a) b c d e m h = ground arith
to_proto-Fits unit t (pos a) (negsuc b) c d e m h = ground arith
to_proto-Fits unit t (pos a) (pos b) (negsuc c) d e m h = ground arith
to_proto-Fits unit t (pos a) (pos b) (pos c) (negsuc d) e m h = ground arith
to_proto-Fits unit t (pos a) (pos b) (pos c) (pos d) (negsuc e) m h = ground arith
to_proto-Fits unit t (pos a) (pos b) (pos c) (pos d) (pos e) m h =
    fits (unit-CountsUnit unit (ground arith)) (type-Rules t a b c d e (rules_checked.0.1))
  where
    cfg : Config
    cfg = record { cir = pos a; cburst = pos b; pir = pos c; pburst = pos d; eburst = pos e }

    rules_checked : ((u : Unit {0}) × (check_type t cfg ≡ ok u)) × (ok (proto cfg) ≡ ok m)
    rules_checked = then-ok (check_type t cfg) (ok (proto cfg)) m (ground arith)

to_proto_sound :
    (cfg : Config) (spec : Option MeterSpec) (m : MeterConfig)
    → to_proto cfg spec ≡ ok m
    → Fits spec cfg × (m ≡ proto cfg)
unfolding to_proto
to_proto_sound cfg none m h = cc
to_proto_sound cfg (some s) m h = (
  to_proto-Fits s.unit s.meter_type cfg.cir cfg.cburst cfg.pir cfg.pburst cfg.eburst m h,
  ground arith,
)

Fits-to_proto :
    {cfg : Config} {spec : Option MeterSpec} → Fits spec cfg → to_proto cfg spec ≡ ok (proto cfg)
unfolding to_proto
Fits-to_proto (fits u rules) = ground (arith, CountsUnit-unit u, Rules-type rules)

values-proto : (cfg : Config) (m : MeterConfig) → HoldsValues cfg m → m ≡ proto cfg
values-proto cfg m h = ground arith

-- Config.toProto returns a message just when the P4Info has a specification with a unit of bytes or
-- packets, no value is negative, and the values meet the rules of the meter's type; the message then
-- holds the values unchanged.
pub to_proto-exact :
    (cfg : Config) (spec : Option MeterSpec) (m : MeterConfig)
    → (to_proto cfg spec ≡ ok m) ↔ (Fits spec cfg × HoldsValues cfg m)
to_proto-exact cfg spec m = (
  λ h.
      let (allowed, e) = to_proto_sound cfg spec m h in
      (allowed, subst (HoldsValues cfg) (sym e) (refl, refl, refl, refl, refl)),
  λ p. Fits-to_proto (p.0) ∙ ap ok (sym (values-proto cfg m (p.1))),
)
