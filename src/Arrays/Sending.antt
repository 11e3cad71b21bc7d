-- ===== src/Arrays/Sending.antt =====
-- What the writes of counter/counter.go and meter/meter.go send.
use p4runtime_go_controller.Common.{
  ℕ, ◌<◌, ◌≡◌, refl, sym, ap, subst, true, false, List, [], ◌∷◌, Option, none, some, arith, length,
}
use p4runtime_go_controller.Common.Int.{ℤ}
use p4runtime_go_controller.Common.Errors.{
  Result, ok, err, bind-ok, then-ok, ok-injective, wrapping-ok, ◌>>=◌, ◌>>◌, wrapping,
}
use p4runtime_go_controller.Write.{WriteRequest, Reply, write}
use p4runtime_go_controller.Stream.{is_primary}
use p4runtime_go_controller.Pipeline.{Pipeline, counter, meter}
use p4runtime_go_controller.Pipeline.Resource.{CounterDef, MeterDef, MeterSpec}
use p4runtime_go_controller.Client.{Client, client_write}
use p4runtime_go_controller.Arrays.{
  validate, Entity, counter_entry, meter_entry, Update, modify, send_update, MeterConfig,
}
use p4runtime_go_controller.Arrays.Index.{IsIndex, validate-exact}
use p4runtime_go_controller.Arrays.MeterRules.{Fits, HoldsValues, to_proto-exact}
use p4runtime_go_controller.Arrays.Counter
use p4runtime_go_controller.Arrays.Meter

-- One request of a primary client, with the entity as its only update.
abbrev pub SendsOne : Client → List (WriteRequest Update) → Entity → Type 0
SendsOne c sent entity =
    (is_primary c.sup ≡ true)
    × (sent
        ≡ record {
          device_id = c.opts.device_id;
          election_high = c.opts.election_id.high;
          election_low = c.opts.election_id.low;
          role = c.opts.role;
          updates = modify entity ∷ [];
          atomicity = 0;
        }
          ∷ [])

send_update-sends :
    (c : Client) (rpc : WriteRequest Update → Reply) (r : Result Entity)
    → 0 < length ((send_update c rpc r).0)
    → (entity : Entity) × (r ≡ ok entity) × SendsOne c ((send_update c rpc r).0) entity
unfolding client_write write
send_update-sends c rpc (err e) lt = ground arith
send_update-sends c rpc (ok entity) lt = (entity, refl, (ground arith, ground arith))

counter_at-IsIndex :
    (index : ℤ) (o : Option CounterDef) (d : CounterDef)
    → (Counter.found o >>= λ d.
        wrapping "counter" (validate index d.size d.index_type false) >> ok d)
      ≡ ok d
    → (o ≡ some d) × IsIndex index d.size d.index_type
counter_at-IsIndex index none d h = cc
counter_at-IsIndex index (some d') d h =
    let (checked, same) =
      then-ok (wrapping "counter" (validate index d'.size d'.index_type false)) (ok d') d h in
    let accepted =
      wrapping-ok "counter" (validate index d'.size d'.index_type false) tt (checked.1) in
    (
      ap some (ok-injective same),
      subst (λ (e : CounterDef). IsIndex index e.size e.index_type) (ok-injective same)
          ((validate-exact index d'.size d'.index_type).0.0 accepted),
    )

-- A counter write sends a request only from a primary client, for a counter that the pipeline has
-- under this name or alias, at an index that lies in the array (any that is not negative where the
-- index type has a name); it then sends one update, with that counter's ID, the index, and both
-- counts unchanged.
pub counter_write-sends :
    (c : Client) (p : Pipeline) (name : List ℕ) (index packet_count byte_count : ℤ)
    (rpc : WriteRequest Update → Reply)
    → 0 < length ((Counter.write c p name index packet_count byte_count rpc).0)
    → (d : CounterDef) × (counter p name ≡ some d)
      × IsIndex index d.size d.index_type
      × SendsOne c ((Counter.write c p name index packet_count byte_count rpc).0) (
          counter_entry (record {
            counter_id = d.id;
            index = some index;
            counter_data = some (record { packet_count = packet_count; byte_count = byte_count });
          }))
unfolding Counter.write Counter.counter_at
counter_write-sends c p name index packet_count byte_count rpc lt =
    let checked = Counter.counter_at p name index false in
    let (entity, made, sent) =
      send_update-sends c rpc
        (checked >>= λ d. ok (Counter.counter_update index packet_count byte_count d)) lt in
    let (d, at_d, same) =
      bind-ok checked (λ d. ok (Counter.counter_update index packet_count byte_count d)) entity
        made in
    let (found, in_range) = counter_at-IsIndex index (counter p name) d at_d in
    (d, found, in_range, subst (SendsOne c _) (sym (ok-injective same)) sent)

meter_at-IsIndex :
    (index : ℤ) (o : Option MeterDef) (d : MeterDef)
    → (Meter.found o >>= λ d. wrapping "meter" (validate index d.size d.index_type false) >> ok d)
      ≡ ok d
    → (o ≡ some d) × IsIndex index d.size d.index_type
meter_at-IsIndex index none d h = cc
meter_at-IsIndex index (some d') d h =
    let (checked, same) =
      then-ok (wrapping "meter" (validate index d'.size d'.index_type false)) (ok d') d h in
    let accepted =
      wrapping-ok "meter" (validate index d'.size d'.index_type false) tt (checked.1) in
    (
      ap some (ok-injective same),
      subst (λ (e : MeterDef). IsIndex index e.size e.index_type) (ok-injective same)
          ((validate-exact index d'.size d'.index_type).0.0 accepted),
    )

-- The config of a meter write: none for Reset, and for Write the values, which the meter's
-- specification must allow.
abbrev pub IsConfigOf : Option Meter.Config → Option MeterSpec → Option MeterConfig → Type 0
IsConfigOf none spec config = config ≡ none
IsConfigOf (some cfg) spec none = ⊥
IsConfigOf (some cfg) spec (some m) = Fits spec cfg × HoldsValues cfg m

config_of-IsConfigOf :
    (cfg : Option Meter.Config) (spec : Option MeterSpec) (config : Option MeterConfig)
    → Meter.config_of cfg spec ≡ ok config
    → IsConfigOf cfg spec config
config_of-IsConfigOf none spec config h = sym (ok-injective h)
config_of-IsConfigOf (some cfg) spec config h =
    let (m, made, same) =
      bind-ok (wrapping "meter" (Meter.to_proto cfg spec)) (λ m. ok (some m)) config h in
    subst (IsConfigOf (some cfg) spec) (ok-injective same)
      ((to_proto-exact cfg spec m).0 (wrapping-ok "meter" (Meter.to_proto cfg spec) m made))

-- Write and Reset of a meter send a request only from a primary client, for a meter that the
-- pipeline has under this name or alias, at an index that lies in the array (any that is not
-- negative where the index type has a name), and Write only values that the meter's specification
-- allows; it is one update with the meter's ID, the index and the values, without values for Reset.
pub write_config-sends :
    (c : Client) (p : Pipeline) (name : List ℕ) (index : ℤ) (cfg : Option Meter.Config)
    (rpc : WriteRequest Update → Reply)
    → 0 < length ((Meter.write_config c p name index cfg rpc).0)
    → (d : MeterDef) × (config : Option MeterConfig) × (meter p name ≡ some d)
      × IsIndex index d.size d.index_type
      × IsConfigOf cfg d.spec config
      × SendsOne c
          ((Meter.write_config c p name index cfg rpc).0)
          (meter_entry (record { meter_id = d.id; index = some index; config = config }))
unfolding Meter.write_config Meter.meter_at
write_config-sends c p name index cfg rpc lt =
    let checked = Meter.meter_at p name index false in
    let with_config = λ (d : MeterDef).
      Meter.config_of cfg d.spec >>= λ config. ok (Meter.meter_update index config d) in
    let (entity, made, sent) = send_update-sends c rpc (checked >>= with_config) lt in
    let (d, at_d, configured) = bind-ok checked with_config entity made in
    let (config, of_cfg, same) =
      bind-ok (Meter.config_of cfg d.spec) (λ config. ok (Meter.meter_update index config d)) entity
        configured in
    let (found, in_range) = meter_at-IsIndex index (meter p name) d at_d in
    (
      d,
      config,
      found,
      in_range,
      config_of-IsConfigOf cfg d.spec config of_cfg,
      subst (SendsOne c _) (sym (ok-injective same)) sent,
    )
