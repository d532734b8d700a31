-- ===== src/Parser/Mutation.antt =====
-- internal/parser: the mutations, their kinds and their targets.
use migra_go.Model.Store.{ColumnRef}
use migra_go.Prelude.{String, Option, List, dotted}
use migra_go.Model.ObjectKey.{
  ObjectKey, new_object_key, kind_table, kind_column, kind_index, kind_constraint, kind_type,
  kind_view, kind_schema, kind_sequence, kind_extension,
}
use migra_go.Model.Objects.{PrimaryKey, Constraint, Index, View, Sequence, Extension}

pub data MutationKind : Type 0 where
  mut_create_table mut_add_column mut_create_enum_type mut_create_index : MutationKind
  mut_drop_column mut_alter_column_type mut_set_not_null mut_drop_not_null : MutationKind
  mut_set_default mut_drop_default mut_create_schema mut_rename_column : MutationKind
  mut_add_constraint mut_drop_constraint : MutationKind
  mut_create_view mut_create_sequence mut_create_extension : MutationKind

-- The structs behind the interface `SchemaMutation`.
pub data Mutation : Type 0 where
  create_table_mutation :
      (schema name : String)
      → (columns : List ColumnRef) → (primary_key : Option PrimaryKey)
      → (constraints : List Constraint) → Mutation
  add_column_mutation : (schema table : String) → (column : ColumnRef) → Mutation
  create_enum_type_mutation : (schema name : String) → (labels : List String) → Mutation
  drop_column_mutation : (schema table column : String) → Mutation
  alter_column_type_mutation :
      (schema table column from_type to_type using_expr : String) → Mutation
  set_not_null_mutation : (schema table column : String) → Mutation
  drop_not_null_mutation : (schema table column : String) → Mutation
  set_default_mutation : (schema table column default_expr : String) → Mutation
  drop_default_mutation : (schema table column : String) → Mutation
  add_constraint_mutation : (schema table : String) → (constraint : Constraint) → Mutation
  drop_constraint_mutation : (schema table name : String) → Mutation
  rename_column_mutation : (schema table old_name new_name : String) → Mutation
  create_index_mutation : (schema : String) → (index : Index) → Mutation
  create_schema_mutation : (schema : String) → Mutation
  create_view_mutation : (schema : String) → (view : View) → Mutation
  create_sequence_mutation : (schema : String) → (sequence : Sequence) → Mutation
  create_extension_mutation : (schema : String) → (extension : Extension) → Mutation

unfoldable pub mutation_kind : Mutation → MutationKind
mutation_kind (create_table_mutation _ _ _ _ _) = mut_create_table
mutation_kind (add_column_mutation _ _ _) = mut_add_column
mutation_kind (create_enum_type_mutation _ _ _) = mut_create_enum_type
mutation_kind (drop_column_mutation _ _ _) = mut_drop_column
mutation_kind (alter_column_type_mutation _ _ _ _ _ _) = mut_alter_column_type
mutation_kind (set_not_null_mutation _ _ _) = mut_set_not_null
mutation_kind (drop_not_null_mutation _ _ _) = mut_drop_not_null
mutation_kind (set_default_mutation _ _ _ _) = mut_set_default
mutation_kind (drop_default_mutation _ _ _) = mut_drop_default
mutation_kind (add_constraint_mutation _ _ _) = mut_add_constraint
mutation_kind (drop_constraint_mutation _ _ _) = mut_drop_constraint
mutation_kind (rename_column_mutation _ _ _ _) = mut_rename_column
mutation_kind (create_index_mutation _ _) = mut_create_index
mutation_kind (create_schema_mutation _) = mut_create_schema
mutation_kind (create_view_mutation _ _) = mut_create_view
mutation_kind (create_sequence_mutation _ _) = mut_create_sequence
mutation_kind (create_extension_mutation _ _) = mut_create_extension

abbrev column_key : String → String → String → ObjectKey
column_key schema table column = new_object_key schema (dotted table column) kind_column

unfoldable pub target : Mutation → ObjectKey
unfolding new_object_key
target (create_table_mutation schema name _ _ _) = new_object_key schema name kind_table
target (add_column_mutation schema table column) = column_key schema table column.name
target (create_enum_type_mutation schema name _) = new_object_key schema name kind_type
target (drop_column_mutation schema table column) = column_key schema table column
target (alter_column_type_mutation schema table column _ _ _) = column_key schema table column
target (set_not_null_mutation schema table column) = column_key schema table column
target (drop_not_null_mutation schema table column) = column_key schema table column
target (set_default_mutation schema table column _) = column_key schema table column
target (drop_default_mutation schema table column) = column_key schema table column
target (add_constraint_mutation schema table c) =
    new_object_key schema (dotted table c.name) kind_constraint
target (drop_constraint_mutation schema table name) =
    new_object_key schema (dotted table name) kind_constraint
target (rename_column_mutation schema table _ new_name) = column_key schema table new_name
target (create_index_mutation schema index) = new_object_key schema index.name kind_index
target (create_schema_mutation schema) = new_object_key schema "" kind_schema
target (create_view_mutation schema view) = new_object_key schema view.name kind_view
target (create_sequence_mutation schema sequence) =
    new_object_key schema sequence.name kind_sequence
target (create_extension_mutation schema extension) =
    new_object_key schema extension.name kind_extension
