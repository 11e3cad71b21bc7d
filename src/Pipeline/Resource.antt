-- ===== src/Pipeline/Resource.antt =====
-- The definitions of pipeline/pipeline.go other than tables and actions. The fields after `alias`
-- that a definition does not copy are read from its P4Info message.
use p4runtime_go_controller.Common.{ℕ, List, Option}
use p4runtime_go_controller.Common.Int.{ℤ}

-- CounterSpec_Unit
pub data CounterUnit : Type 0 where
  unspecified_unit bytes_unit packets_unit both_unit : CounterUnit

-- MeterSpec_Unit and MeterSpec_Type; `other_unit` and `other_type` stand for every value that the
-- switches do not name.
pub data MeterUnit : Type 0 where
  bytes packets other_unit : MeterUnit

pub data MeterType : Type 0 where
  two_rate_three_color single_rate_three_color single_rate_two_color other_type : MeterType

pub record MeterSpec : Type 0 where
  pub unit : MeterUnit
  pub meter_type : MeterType

-- `index_type` is the name of the index type, empty where there is none.
pub record CounterDef : Type 0 where
  pub id : ℕ
  pub name : List ℕ
  pub alias : List ℕ
  pub unit : CounterUnit
  pub size : ℤ
  pub index_type : List ℕ

-- A direct counter of the P4Info, and its definition.
pub record DirectCounter : Type 0 where
  pub id : ℕ
  pub name : List ℕ
  pub unit : CounterUnit
  pub direct_table_id : ℕ

pub record DirectCounterDef : Type 0 where
  pub counter : DirectCounter
  pub open counter use *
  pub direct_table_name : List ℕ

pub record MeterDef : Type 0 where
  pub id : ℕ
  pub name : List ℕ
  pub alias : List ℕ
  pub size : ℤ
  pub index_type : List ℕ
  pub spec : Option MeterSpec

pub record DirectMeter : Type 0 where
  pub id : ℕ
  pub name : List ℕ
  pub unit : MeterUnit
  pub direct_table_id : ℕ

pub record DirectMeterDef : Type 0 where
  pub meter : DirectMeter
  pub open meter use *
  pub direct_table_name : List ℕ

pub record RegisterDef : Type 0 where
  pub id : ℕ
  pub name : List ℕ
  pub alias : List ℕ
  pub size : ℤ
  pub index_type : List ℕ

pub record DigestDef : Type 0 where
  pub id : ℕ
  pub name : List ℕ
  pub alias : List ℕ

pub record PacketMetadataField : Type 0 where
  pub id : ℕ
  pub name : List ℕ
  pub bitwidth : ℤ

pub record ControllerPacketMetadataDef : Type 0 where
  pub id : ℕ
  pub name : List ℕ
  pub metadata : List PacketMetadataField
