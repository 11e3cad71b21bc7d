-- ===== src/Arrays.antt =====
-- Indirect counters, meters and registers: internal/resourceindex/index.go, and the entities that
-- the packages counter, meter and register read and write. An index is an int64.
pub mod Index
pub mod Counter
pub mod Meter
pub mod MeterRules
pub mod Sending
mod Examples
use p4runtime_go_controller.Common.{
  ℕ, Bool, true, false, ◌&&◌, List, [], ◌∷◌, Option, none, some, ◌==◌, length, if◌then◌else◌,
}
use p4runtime_go_controller.Common.Int.{ℤ, pos, negsuc, ltb_ℤ, leb_ℤ}
use p4runtime_go_controller.Common.Errors.{Error, Result, ok, err, plain, wrap}
use p4runtime_go_controller.Write.{WriteRequest, WriteResult, Reply}
use p4runtime_go_controller.Read.{ReadRequest, ReadReply, kept_entries}
use p4runtime_go_controller.Client.{Client, client_write, client_read}

-- resourceindex.Validate
unfoldable pub validate : ℤ → ℤ → List ℕ → Bool → Result (Unit {0})
validate index size index_type allow_all =
    if allow_all && (leb_ℤ index (negsuc 0) && leb_ℤ (negsuc 0) index)
    then ok tt
    else if ltb_ℤ index (pos 0)
    then err (
        plain
          (if allow_all then "index must be -1 or non-negative" else "index must be non-negative"))
    else if length index_type == 0
    then (if leb_ℤ size (pos 0)
        then err (plain "invalid array size")
        else if leb_ℤ size index
        then err (plain "index outside array range")
        else ok tt)
    else ok tt

-- p4.v1.CounterData, CounterEntry, MeterConfig, MeterEntry
pub record CounterData : Type 0 where
  pub packet_count : ℤ
  pub byte_count : ℤ

pub record CounterEntry : Type 0 where
  pub counter_id : ℕ
  pub index : Option ℤ
  pub counter_data : Option CounterData

pub record MeterConfig : Type 0 where
  pub cir : ℤ
  pub cburst : ℤ
  pub pir : ℤ
  pub pburst : ℤ
  pub eburst : ℤ

pub record MeterEntry : Type 0 where
  pub meter_id : ℕ
  pub index : Option ℤ
  pub config : Option MeterConfig

-- p4.v1.Entity: a counter or meter entry, or another entity.
pub data Entity : Type 0 where
  counter_entry : CounterEntry → Entity
  meter_entry : MeterEntry → Entity
  other_entity : Entity

-- An update of type MODIFY, the only one that these packages send.
pub data Update : Type 0 where
  modify : Entity → Update

-- The index of a request: an entry that all indexes match leaves it out.
abbrev pub index_field : ℤ → Option ℤ
index_field index = if ltb_ℤ index (pos 0) then none else some index

-- A Write that is made once its update is; nothing is sent otherwise.
abbrev pub send_update :
    Client
    → (WriteRequest Update → Reply)
    → Result Entity
    → List (WriteRequest Update) × Result WriteResult
send_update c rpc (err e) = ([], err e)
send_update c rpc (ok entity) =
    let (sent, r) = client_write c (modify entity ∷ []) rpc in (sent, ok r)

-- A Read that is made once its selector is, and the entries that are kept of its answer.
abbrev pub read_selected :
    {A : Type 0}
    → Client
    → (Entity → Option A)
    → (ReadRequest Entity → ReadReply Entity)
    → Result Entity
    → List (ReadRequest Entity) × Option (Result (List A))
read_selected c pick rpc (err e) = ([], some (err e))
read_selected c pick rpc (ok entity) =
    let (sent, r) = client_read c (entity ∷ []) rpc in (sent, kept_entries pick r)
