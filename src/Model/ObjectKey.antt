-- ===== src/Model/ObjectKey.antt =====
-- internal/model/object_key.go: how an operation names the database object that it is about.
use migra_go.Prelude.{String, String-discrete}

pub data ObjectKind : Type 0 where
  kind_table kind_column kind_index kind_constraint kind_type kind_view : ObjectKind
  kind_function kind_schema kind_sequence kind_extension : ObjectKind

pub record ObjectKey : Type 0 where
  pub schema : String
  pub name : String
  pub kind : ObjectKind
  pub signature : String

unfoldable pub new_object_key : String → String → ObjectKind → ObjectKey
new_object_key schema name kind = record {
  schema = schema;
  name = name;
  kind = kind;
  signature = "";
}

unfoldable pub new_function_key : String → String → String → ObjectKey
new_function_key schema name signature = record {
  schema = schema;
  name = name;
  kind = kind_function;
  signature = signature;
}

unfoldable pub ObjectKind-discrete : Discrete ObjectKind
ObjectKind-discrete = hlevel

-- Keys are compared field by field, as Go compares structs.
unfoldable pub ObjectKey-discrete : Discrete ObjectKey
unfolding ObjectKind-discrete String-discrete
ObjectKey-discrete = hlevel (String-discrete, ObjectKind-discrete)
