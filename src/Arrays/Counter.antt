-- ===== src/Arrays/Counter.antt =====
-- counter/counter.go: Reader.Read and Reader.Write. A Reader is a client and a pipeline.
use p4runtime_go_controller.Common.{ℕ, Bool, true, false, List, [], Option, none, some}
use p4runtime_go_controller.Common.Int.{ℤ, pos}
use p4runtime_go_controller.Common.Errors.{Result, ok, err, plain, wrapping, ◌>>=◌, ◌>>◌}
use p4runtime_go_controller.Write.{WriteRequest, WriteResult, Reply}
use p4runtime_go_controller.Read.{ReadRequest, ReadReply}
use p4runtime_go_controller.Pipeline.{Pipeline, counter}
use p4runtime_go_controller.Pipeline.Resource.{CounterDef}
use p4runtime_go_controller.Client.{Client}
use p4runtime_go_controller.Arrays.{
  validate, CounterData, Entity, counter_entry, meter_entry, other_entity, Update, index_field,
  send_update, read_selected,
}

pub record Data : Type 0 where
  pub name : List ℕ
  pub id : ℕ
  pub index : ℤ
  pub packets : ℤ
  pub bytes : ℤ

abbrev pub found : Option CounterDef → Result CounterDef
found none = err (plain "counter not in pipeline")
found (some d) = ok d

-- The counter of a name, at an index that passes the check.
unfoldable pub counter_at : Pipeline → List ℕ → ℤ → Bool → Result CounterDef
counter_at p name index allow_all = found (counter p name) >>= λ d.
    wrapping "counter" (validate index d.size d.index_type allow_all) >> ok d

-- GetIndex().GetIndex(), and the counts of GetData(), on messages that may be nil.
abbrev pub index_of : Option ℤ → ℤ
index_of none = pos 0
index_of (some i) = i

abbrev pub packets_of : Option CounterData → ℤ
packets_of none = pos 0
packets_of (some d) = d.packet_count

abbrev pub bytes_of : Option CounterData → ℤ
bytes_of none = pos 0
bytes_of (some d) = d.byte_count

abbrev pub sample : CounterDef → Entity → Option Data
sample d (counter_entry ce) = some (record {
  name = d.name;
  id = d.id;
  index = index_of ce.index;
  packets = packets_of ce.counter_data;
  bytes = bytes_of ce.counter_data;
})
sample d (meter_entry me) = none
sample d other_entity = none

abbrev pub selector : ℤ → CounterDef → Entity
selector index d =
    counter_entry (record { counter_id = d.id; index = index_field index; counter_data = none })

abbrev read_found :
    Client
    → ℤ
    → (ReadRequest Entity → ReadReply Entity)
    → Result CounterDef
    → List (ReadRequest Entity) × Option (Result (List Data))
read_found c index rpc (err e) = ([], some (err e))
read_found c index rpc (ok d) = read_selected c (sample d) rpc (ok (selector index d))

unfoldable pub read :
    Client
    → Pipeline
    → List ℕ
    → ℤ
    → (ReadRequest Entity → ReadReply Entity)
    → List (ReadRequest Entity) × Option (Result (List Data))
read c p name index rpc = read_found c index rpc (counter_at p name index true)

abbrev pub counter_update : ℤ → ℤ → ℤ → CounterDef → Entity
counter_update index packets bytes d = counter_entry (record {
  counter_id = d.id;
  index = some index;
  counter_data = some (record { packet_count = packets; byte_count = bytes });
})

unfoldable pub write :
    Client
    → Pipeline
    → List ℕ
    → ℤ
    → ℤ
    → ℤ
    → (WriteRequest Update → Reply)
    → List (WriteRequest Update) × Result WriteResult
write c p name index packets bytes rpc =
    send_update c rpc
      (counter_at p name index false >>= λ d. ok (counter_update index packets bytes d))
