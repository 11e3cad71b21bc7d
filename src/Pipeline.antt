-- ===== src/Pipeline.antt =====
-- pipeline/pipeline.go: the definitions of a P4Info message and their maps by name and by ID.
-- The definitions keep the fields that the builders read; a definition is a value, so that the
-- copies that the code hands out are the values themselves. A map is a list of its assignments, the
-- newest first.
pub mod Resource
pub mod Lookup
mod Examples
use p4runtime_go_controller.Common.{
  ℕ, Bool, true, false, List, [], ◌∷◌, Option, none, some, ◌==◌, map, length, if◌then◌else◌,
}
use p4runtime_go_controller.Common.Int.{ℤ}
use p4runtime_go_controller.Common.Text.{same_text}
use p4runtime_go_controller.Pipeline.Resource.{
  CounterDef, DirectCounter, DirectCounterDef, MeterDef, DirectMeter, DirectMeterDef, RegisterDef,
  DigestDef, PacketMetadataField, ControllerPacketMetadataDef,
}

-- MatchField_MatchType; `unspecified` also stands for every value that the switches do not name.
pub data MatchType : Type 0 where
  unspecified exact lpm ternary range optional : MatchType

unfoldable pub MatchType-discrete : Discrete MatchType
MatchType-discrete = hlevel

pub record MatchFieldDef : Type 0 where
  pub id : ℕ
  pub name : List ℕ
  pub bitwidth : ℤ
  pub match_type : MatchType

-- ActionRef_Scope
pub data Scope : Type 0 where
  table_and_default table_only default_only other_scope : Scope

pub record ActionRef : Type 0 where
  pub id : ℕ
  pub scope : Scope

pub record ActionParamDef : Type 0 where
  pub id : ℕ
  pub name : List ℕ
  pub bitwidth : ℤ

pub record ActionDef : Type 0 where
  pub id : ℕ
  pub name : List ℕ
  pub alias : List ℕ
  pub params : List ActionParamDef

-- The last three fields are read from the P4Info message of the table.
pub record TableDef : Type 0 where
  pub id : ℕ
  pub name : List ℕ
  pub alias : List ℕ
  pub is_const : Bool
  pub match_fields : List MatchFieldDef
  pub action_refs : List ActionRef
  pub notify_control : Bool
  pub const_default_action_id : ℕ
  pub implementation_id : ℕ

unfoldable pub get {ℓ} : {A : Type ℓ} → List (List ℕ × A) → List ℕ → Option A
get [] name = none
get ((k, a) ∷ m) name = if same_text k name then some a else get m name

unfoldable pub get_by_id {ℓ} : {A : Type ℓ} → List (ℕ × A) → ℕ → Option A
get_by_id [] id = none
get_by_id ((k, a) ∷ m) id = if k == id then some a else get_by_id m id

-- What `index` reads of a P4Info message.
pub record P4Info : Type 0 where
  pub actions : List ActionDef
  pub tables : List TableDef
  pub counters : List CounterDef
  pub direct_counters : List DirectCounter
  pub meters : List MeterDef
  pub direct_meters : List DirectMeter
  pub registers : List RegisterDef
  pub digests : List DigestDef
  pub packet_metadata : List ControllerPacketMetadataDef

abbrev pub empty_info : P4Info
empty_info = record {
  actions = [];
  tables = [];
  counters = [];
  direct_counters = [];
  meters = [];
  direct_meters = [];
  registers = [];
  digests = [];
  packet_metadata = [];
}

-- The maps of a Pipeline.
pub record Pipeline : Type 0 where
  pub info : P4Info
  pub tables_by_name : List (List ℕ × TableDef)
  pub tables_by_id : List (ℕ × TableDef)
  pub actions_by_name : List (List ℕ × ActionDef)
  pub actions_by_id : List (ℕ × ActionDef)
  pub counters_by_name : List (List ℕ × CounterDef)
  pub counters_by_id : List (ℕ × CounterDef)
  pub direct_counters_by_name : List (List ℕ × DirectCounterDef)
  pub meters_by_name : List (List ℕ × MeterDef)
  pub direct_meters_by_name : List (List ℕ × DirectMeterDef)
  pub registers_by_name : List (List ℕ × RegisterDef)
  pub digests_by_name : List (List ℕ × DigestDef)
  pub digests_by_id : List (ℕ × DigestDef)
  pub metadata_by_name : List (List ℕ × ControllerPacketMetadataDef)
  pub metadata_by_id : List (ℕ × ControllerPacketMetadataDef)

-- One turn of a loop of `index`: the name is assigned, then the alias when there is one.
abbrev pub put_names {ℓ} :
    {A : Type ℓ} → List ℕ → List ℕ → A → List (List ℕ × A) → List (List ℕ × A)
put_names name [] a m = (name, a) ∷ m
put_names name (c ∷ alias) a m = (c ∷ alias, a) ∷ (name, a) ∷ m

unfoldable pub index_names {ℓ} :
    {A : Type ℓ} → (A → List ℕ) → (A → List ℕ) → List A → List (List ℕ × A) → List (List ℕ × A)
index_names name_of alias_of [] m = m
index_names name_of alias_of (a ∷ raws) m =
    index_names name_of alias_of raws (put_names (name_of a) (alias_of a) a m)

unfoldable pub index_ids {ℓ} : {A : Type ℓ} → (A → ℕ) → List A → List (ℕ × A) → List (ℕ × A)
index_ids id_of [] m = m
index_ids id_of (a ∷ raws) m = index_ids id_of raws ((id_of a, a) ∷ m)

-- The name of the table of a direct counter or meter, empty where the P4Info has no such table.
abbrev pub name_of_table : Option TableDef → List ℕ
name_of_table none = []
name_of_table (some t) = t.name

unfoldable pub direct_counter_def : List (ℕ × TableDef) → DirectCounter → DirectCounterDef
direct_counter_def tables raw = record {
  counter = raw;
  direct_table_name = name_of_table (get_by_id tables raw.direct_table_id);
}

unfoldable pub direct_meter_def : List (ℕ × TableDef) → DirectMeter → DirectMeterDef
direct_meter_def tables raw = record {
  meter = raw;
  direct_table_name = name_of_table (get_by_id tables raw.direct_table_id);
}

abbrev pub no_alias {ℓ} : {A : Type ℓ} → A → List ℕ
no_alias a = []

unfoldable pub index : P4Info → Pipeline
index info =
    let tables = index_ids (λ t. t.id) info.tables [] in
    record {
      info = info;
      tables_by_name = index_names (λ t. t.name) (λ t. t.alias) info.tables [];
      tables_by_id = tables;
      actions_by_name = index_names (λ a. a.name) (λ a. a.alias) info.actions [];
      actions_by_id = index_ids (λ a. a.id) info.actions [];
      counters_by_name = index_names (λ c. c.name) (λ c. c.alias) info.counters [];
      counters_by_id = index_ids (λ c. c.id) info.counters [];
      direct_counters_by_name =
          index_names (λ c. c.name) no_alias (map (direct_counter_def tables) info.direct_counters)
            [];
      meters_by_name = index_names (λ m. m.name) (λ m. m.alias) info.meters [];
      direct_meters_by_name =
          index_names (λ m. m.name) no_alias (map (direct_meter_def tables) info.direct_meters) [];
      registers_by_name = index_names (λ r. r.name) (λ r. r.alias) info.registers [];
      digests_by_name = index_names (λ d. d.name) (λ d. d.alias) info.digests [];
      digests_by_id = index_ids (λ d. d.id) info.digests [];
      metadata_by_name = index_names (λ m. m.name) no_alias info.packet_metadata [];
      metadata_by_id = index_ids (λ m. m.id) info.packet_metadata [];
    }

unfoldable pub table : Pipeline → List ℕ → Option TableDef
table p name = get p.tables_by_name name

unfoldable pub action : Pipeline → List ℕ → Option ActionDef
action p name = get p.actions_by_name name

unfoldable pub table_by_id : Pipeline → ℕ → Option TableDef
table_by_id p id = get_by_id p.tables_by_id id

unfoldable pub action_by_id : Pipeline → ℕ → Option ActionDef
action_by_id p id = get_by_id p.actions_by_id id

unfoldable pub counter : Pipeline → List ℕ → Option CounterDef
counter p name = get p.counters_by_name name

unfoldable pub counter_by_id : Pipeline → ℕ → Option CounterDef
counter_by_id p id = get_by_id p.counters_by_id id

unfoldable pub direct_counter : Pipeline → List ℕ → Option DirectCounterDef
direct_counter p name = get p.direct_counters_by_name name

unfoldable pub meter : Pipeline → List ℕ → Option MeterDef
meter p name = get p.meters_by_name name

unfoldable pub direct_meter : Pipeline → List ℕ → Option DirectMeterDef
direct_meter p name = get p.direct_meters_by_name name

unfoldable pub register : Pipeline → List ℕ → Option RegisterDef
register p name = get p.registers_by_name name

unfoldable pub digest : Pipeline → List ℕ → Option DigestDef
digest p name = get p.digests_by_name name

unfoldable pub digest_by_id : Pipeline → ℕ → Option DigestDef
digest_by_id p id = get_by_id p.digests_by_id id

unfoldable pub packet_metadata : Pipeline → List ℕ → Option ControllerPacketMetadataDef
packet_metadata p name = get p.metadata_by_name name

unfoldable pub packet_metadata_by_id : Pipeline → ℕ → Option ControllerPacketMetadataDef
packet_metadata_by_id p id = get_by_id p.metadata_by_id id

-- Pipeline.Tables: for each table of the P4Info, the definition that its ID finds.
unfoldable pub found_tables : List (ℕ × TableDef) → List TableDef → List TableDef
found_tables m [] = []
found_tables m (t ∷ tables) = elim (get_by_id m t.id) [
  | none ↦ found_tables m tables
  | some td ↦ td ∷ found_tables m tables
]

unfoldable pub all_tables : Pipeline → List TableDef
all_tables p = found_tables p.tables_by_id p.info.tables

-- Field and FieldByID of a packet metadata header: a later field of the same name or ID wins.
unfoldable pub field : ControllerPacketMetadataDef → List ℕ → Option PacketMetadataField
field c name = get (index_names (λ f. f.name) no_alias c.metadata []) name

unfoldable pub field_by_id : ControllerPacketMetadataDef → ℕ → Option PacketMetadataField
field_by_id c id = get_by_id (index_ids (λ f. f.id) c.metadata []) id

-- Whether TableDef.MatchField finds the name: its map has the fields of the table.
unfoldable pub has_field : List MatchFieldDef → List ℕ → Bool
has_field [] name = false
has_field (f ∷ fields) name = if same_text f.name name then true else has_field fields name

-- Whether ActionDef.Param finds the name.
unfoldable pub has_param : List ActionParamDef → List ℕ → Bool
has_param [] name = false
has_param (p ∷ params) name = if same_text p.name name then true else has_param params name
