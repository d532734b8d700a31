-- ===== src/Examples.antt =====
-- Sample schemas and plans, for the tests and the instances of the theorems below this module.
pub mod Modelling
pub mod Planning
pub mod Diffing
pub mod Pushing
pub mod Rendering
pub mod Building
pub mod Parsing
pub mod Cleaning
use migra_go.Prelude.{String, Bool, true, false, none, List, [], ◌∷◌, nat_eq}
use migra_go.Context.{Context}
use migra_go.Model.Objects.{Column, Constraint, Table, EnumType, Namespace, Schema}
use migra_go.Model.Store.{ColumnRef}
use migra_go.Diff.Operation.{Operation}
use migra_go.Diff.Create.{
  new_add_column_op, new_add_table_op, new_add_constraint_op, new_drop_constraint_op,
  new_drop_column_op,
}

-- A context that is never cancelled, and one that is at the third question.
abbrev pub calm : Context
calm = record { err_at = λ n. false; polls = 0 }

abbrev pub hasty : Context
hasty = record { err_at = nat_eq 2; polls = 0 }

abbrev pub column : String → String → Bool → Column
column name data_type is_nullable = record {
  name = name;
  data_type = data_type;
  is_nullable = is_nullable;
  default_expr = none;
  is_identity = false;
  identity_kind = "";
  collation = "";
}

-- The same, as an object of the store, with no default.
abbrev pub column_ref : String → String → Bool → ColumnRef
column_ref name data_type is_nullable = record {
  name = name;
  data_type = data_type;
  is_nullable = is_nullable;
  default_expr = none;
  is_identity = false;
  identity_kind = "";
  collation = "";
}

abbrev pub check_positive : Constraint
check_positive = record {
  name = "positive";
  type = "check";
  definition = "";
  table = "accounts";
  columns = "balance" ∷ [];
  ref_schema = "";
  ref_table = "";
  ref_columns = [];
  expression = "balance > 0";
  on_delete = "";
  on_update = "";
}

abbrev pub table_of : List Column → Table
table_of columns = record {
  schema = "public";
  name = "accounts";
  columns = columns;
  column_by_name = by_name columns;
  column_index = [];
  primary_key = none;
  constraints = ("positive", check_positive) ∷ [];
  indexes = [];
  is_placeholder = false;
}
  where
    by_name : List Column → List (String × Column)
    by_name [] = []
    by_name (c ∷ cs) = (c.name, c) ∷ by_name cs

abbrev pub old_accounts : Table
old_accounts = table_of (column "id" "bigint" false ∷ column "balance" "integer" true ∷ [])

abbrev pub new_accounts : Table
new_accounts = table_of (column "id" "bigint" false ∷ column "balance" "bigint" false ∷ [])

abbrev pub status : List String → EnumType
status labels = record { name = "status"; labels = labels }

abbrev pub namespace_of : String → Table → Namespace
namespace_of name table = record {
  name = name;
  tables = ("accounts", table) ∷ [];
  types = [];
  views = [];
  sequences = [];
  extensions = [];
}

abbrev pub schema_of : String → Table → Schema
schema_of name table = record { schemas = (name, namespace_of name table) ∷ [] }

-- A constraint that is replaced, on a table that gets a new column.
abbrev pub sample_ops : List Operation
sample_ops =
    new_add_constraint_op "public" "accounts" check_positive
    ∷ new_drop_constraint_op "public" "accounts" "positive"
    ∷ new_add_column_op "public" "accounts" (column "note" "text" true)
    ∷ new_add_table_op "public" "accounts" old_accounts
    ∷ new_drop_column_op "public" "accounts" "obsolete"
    ∷ []
