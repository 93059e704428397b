-- ===== src/Model.antt =====
-- model.rs: tables, schemas, values, entities and events, with their byte codec.
pub mod Fields
pub mod Records
pub mod Tables
pub mod Schemas
pub mod History
mod Tests
use eve_db.Base.{ℕ, ◌/◌, ◌%◌, ◌^◌, Bool, not, List, ◌==◌}
use eve_db.Base.Int.{ℤ}
use eve_db.Codec.LittleEndian.{Bytes}

pub data DataType : Type 0 where
  bool int64 uint64 float64 text bytes : DataType

-- A double is its bit pattern, and a text its UTF-8 bytes.
pub data Value : Type 0 where
  null : Value
  bool : Bool → Value
  int64 : ℤ → Value
  uint64 : ℕ → Value
  float64 : ℕ → Value
  text : Bytes → Value
  bytes : Bytes → Value

-- `f64::is_finite` on the bit pattern: the exponent is not all ones.
abbrev pub is_finite : ℕ → Bool
is_finite v = not ((v / 2 ^ 52) % 2 ^ 11 == 2047)

-- `BTreeMap<u32, Value>`, in key order.
abbrev pub Fields : Type 0
Fields = List (ℕ × Value)

pub record Field : Type 0 where
  pub id : ℕ
  pub name : Bytes
  pub data_type : DataType
  pub nullable : Bool

pub record Schema : Type 0 where
  pub version : ℕ
  pub fields : List Field

pub record Table : Type 0 where
  pub id : ℕ
  pub name : Bytes
  pub schemas : List Schema

pub record Entity : Type 0 where
  pub id : ℕ
  pub version : ℕ
  pub schema_version : ℕ
  pub deleted : Bool
  pub fields : Fields

pub data EventKind : Type 0 where
  apply delete : EventKind

pub record Event : Type 0 where
  pub version : ℕ
  pub transaction : ℕ
  pub schema_version : ℕ
  pub kind : EventKind
  pub fields : Fields
