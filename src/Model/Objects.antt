-- ===== src/Model/Objects.antt =====
-- internal/model: the records of the objects that a namespace holds. A Go struct that the code
-- reaches through a pointer is a value here; `nil` is `none`.
use migra_go.Prelude.{ℕ, String, Bool, Option, List, Map}
use migra_go.Prelude.Int.{ℤ}

-- column.go
pub record Column : Type 0 where
  pub name : String
  pub data_type : String
  pub is_nullable : Bool
  pub default_expr : Option String
  pub is_identity : Bool
  pub identity_kind : String
  pub collation : String

-- table.go
pub record PrimaryKey : Type 0 where
  pub name : String
  pub columns : List String

-- index_elem.go
pub record IndexElem : Type 0 where
  pub name : String
  pub expr : String
  pub index_col_name : String
  pub collation : String
  pub opclass : String
  pub ordering : String
  pub nulls_ordering : String

pub record Index : Type 0 where
  pub name : String
  pub table : String
  pub columns : List String
  pub elements : List IndexElem
  pub unique : Bool
  pub method : String
  pub primary : Bool
  pub is_constraint : Bool
  pub where_clause : String
  pub definition : String
  pub concurrent : Bool
  pub if_not_exists : Bool

pub record Constraint : Type 0 where
  pub name : String
  pub type : String
  pub definition : String
  pub table : String
  pub columns : List String
  pub ref_schema : String
  pub ref_table : String
  pub ref_columns : List String
  pub expression : String
  pub on_delete : String
  pub on_update : String

-- Columns keeps the order; ColumnByName and ColumnIndex are lookup tables beside it.
pub record Table : Type 0 where
  pub schema : String
  pub name : String
  pub columns : List Column
  pub column_by_name : Map Column
  pub column_index : Map ℕ
  pub primary_key : Option PrimaryKey
  pub constraints : Map Constraint
  pub indexes : Map Index
  pub is_placeholder : Bool

-- sequence.go
pub record Sequence : Type 0 where
  pub name : String
  pub data_type : String
  pub start_value : ℤ
  pub increment_by : ℤ
  pub min_value : ℤ
  pub max_value : ℤ
  pub cache_size : ℤ
  pub cycle : Bool
  pub owned_by_table : String
  pub owned_by_column : String

-- view.go
pub record View : Type 0 where
  pub name : String
  pub definition : String
  pub materialized : Bool

-- extension.go
pub record Extension : Type 0 where
  pub name : String
  pub version : String

-- schema.go
pub record EnumType : Type 0 where
  pub name : String
  pub labels : List String

pub record Namespace : Type 0 where
  pub name : String
  pub tables : Map Table
  pub types : Map EnumType
  pub views : Map View
  pub sequences : Map Sequence
  pub extensions : Map Extension

pub record Schema : Type 0 where
  pub schemas : Map Namespace
