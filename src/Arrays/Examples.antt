-- ===== src/Arrays/Examples.antt =====
-- A counter and a meter of four entries each.
use p4runtime_go_controller.Common.{
  ◌≡◌, ◌↔◌, ◌<◌, ◌⊎◌, refl, Option, [], ◌∷◌, some, none, arith, true, false, length,
}
use p4runtime_go_controller.Common.Int.{pos, negsuc}
use p4runtime_go_controller.Common.Text.{codes, same_text}
use p4runtime_go_controller.Common.Errors.{ok, err, plain}
use p4runtime_go_controller.Write.{WriteRequest, Reply, accepted, write}
use p4runtime_go_controller.Pipeline.{Pipeline, empty_info, index, index_names, get, counter, meter}
use p4runtime_go_controller.Pipeline.Resource.{
  CounterDef, both_unit, MeterDef, MeterSpec, packets, two_rate_three_color,
}
use p4runtime_go_controller.Stream.{init, set_state, primary, is_primary, State-discrete}
use p4runtime_go_controller.Client.{Client, stream_config, client_write}
use p4runtime_go_controller.Client.Settings.{default_options}
use p4runtime_go_controller.Arrays.{validate, counter_entry, meter_entry, Update, MeterConfig}
use p4runtime_go_controller.Arrays.Index.{IsIndex, validate-exact}
use p4runtime_go_controller.Arrays.MeterRules.{Fits, HoldsValues, to_proto-exact}
use p4runtime_go_controller.Arrays.Sending.{
  SendsOne, IsConfigOf, counter_write-sends, write_config-sends,
}
use p4runtime_go_controller.Arrays.Counter
use p4runtime_go_controller.Arrays.Meter

abbrev hit_counter : CounterDef
hit_counter = record {
  id = 11;
  name = codes "hits";
  alias = [];
  unit = both_unit;
  size = pos 4;
  index_type = [];
}

abbrev spec : MeterSpec
spec = record { unit = packets; meter_type = two_rate_three_color }

abbrev limit : MeterDef
limit = record {
  id = 12;
  name = codes "limit";
  alias = [];
  size = pos 4;
  index_type = [];
  spec = some spec;
}

abbrev pipeline : Pipeline
pipeline = index (record empty_info { counters = hit_counter ∷ []; meters = limit ∷ [] })

abbrev client : Client
client = record {
  opts = default_options;
  sup = set_state (init (stream_config default_options)) primary none;
}

abbrev accepts : WriteRequest Update → Reply
accepts req = accepted

abbrev rates : Meter.Config
rates = record { cir = pos 5; cburst = pos 1; pir = pos 6; pburst = pos 1; eburst = pos 0 }

outside_the_array : validate (pos 4) (pos 4) [] false ≡ err (plain "index outside array range")
unfolding validate
outside_the_array = refl

all_entries : validate (negsuc 0) (pos 4) [] true ≡ ok tt
unfolding validate
all_entries = refl

validate-exact_example :
    ((validate (pos 3) (pos 4) [] false ≡ ok tt) ↔ IsIndex (pos 3) (pos 4) [])
    × ((validate (pos 3) (pos 4) [] true ≡ ok tt)
        ↔ ((pos 3 ≡ negsuc 0) ⊎ IsIndex (pos 3) (pos 4) []))
validate-exact_example = validate-exact (pos 3) (pos 4) []

to_proto-exact_example :
    (Meter.to_proto rates (some spec) ≡ ok (Meter.proto rates))
    ↔ (Fits (some spec) rates × HoldsValues rates (Meter.proto rates))
to_proto-exact_example = to_proto-exact rates (some spec) (Meter.proto rates)

writes_a_counter :
    0 < length ((Counter.write client pipeline (codes "hits") (pos 3) (pos 8) (pos 9) accepts).0)
unfolding Counter.write Counter.counter_at counter index index_names get same_text validate
    client_write write is_primary set_state State-discrete
writes_a_counter = omega arith

counter_write-sends_example :
    (d : CounterDef) × (counter pipeline (codes "hits") ≡ some d)
    × IsIndex (pos 3) d.size d.index_type
    × SendsOne client
        ((Counter.write client pipeline (codes "hits") (pos 3) (pos 8) (pos 9) accepts).0)
        (counter_entry (record {
          counter_id = d.id;
          index = some (pos 3);
          counter_data = some (record { packet_count = pos 8; byte_count = pos 9 });
        }))
counter_write-sends_example =
    counter_write-sends client pipeline (codes "hits") (pos 3) (pos 8) (pos 9) accepts
      writes_a_counter

writes_a_meter :
    0 < length ((Meter.write_config client pipeline (codes "limit") (pos 3) (some rates) accepts).0)
unfolding Meter.write_config Meter.meter_at Meter.to_proto Meter.check_type meter index index_names
    get same_text validate client_write write is_primary set_state State-discrete
writes_a_meter = omega arith

write_config-sends_example :
    (d : MeterDef) × (config : Option MeterConfig) × (meter pipeline (codes "limit") ≡ some d)
    × IsIndex (pos 3) d.size d.index_type
    × IsConfigOf (some rates) d.spec config
    × SendsOne client
        ((Meter.write_config client pipeline (codes "limit") (pos 3) (some rates) accepts).0)
        (meter_entry (record { meter_id = d.id; index = some (pos 3); config = config }))
write_config-sends_example =
    write_config-sends client pipeline (codes "limit") (pos 3) (some rates) accepts writes_a_meter
