-- ===== src/Parser/Apply.antt =====
-- internal/parser: `Apply` of every mutation. Error texts are left out; errors are told apart by
-- what they say.
pub mod Table
pub mod Column
pub mod Named
use migra_go.Model.Store.{ColumnRef}
use migra_go.Prelude.{Bool, String}
use migra_go.Model.Store.{State}
use migra_go.Parser.Mutation.{
  Mutation, create_table_mutation, add_column_mutation, create_enum_type_mutation,
  drop_column_mutation, alter_column_type_mutation, set_not_null_mutation, drop_not_null_mutation,
  set_default_mutation, drop_default_mutation, add_constraint_mutation, drop_constraint_mutation,
  rename_column_mutation, create_index_mutation, create_schema_mutation, create_view_mutation,
  create_sequence_mutation, create_extension_mutation,
}
use migra_go.Parser.Outcome.{Outcome}
use migra_go.Parser.Apply.Table.{
  apply_create_table, apply_add_constraint, apply_drop_constraint, apply_create_index,
}
use migra_go.Parser.Apply.Column.{
  apply_add_column, apply_drop_column, apply_alter_column_type, apply_set_not_null,
  apply_drop_not_null, apply_set_default, apply_drop_default, apply_rename_column,
}
use migra_go.Parser.Apply.Named.{
  apply_create_enum_type, apply_create_schema, apply_create_view, apply_create_sequence,
  apply_create_extension,
}

-- mut.Apply(schema)
unfoldable pub apply : Mutation → State → Outcome × State
unfolding apply_create_table apply_add_constraint apply_drop_constraint apply_create_index
    apply_add_column apply_drop_column apply_alter_column_type apply_set_not_null
    apply_drop_not_null apply_set_default apply_drop_default apply_rename_column
    apply_create_enum_type apply_create_schema apply_create_view apply_create_sequence
    apply_create_extension
apply (create_table_mutation schema name columns primary_key constraints) s =
    apply_create_table schema name columns primary_key constraints s
apply (add_column_mutation schema table column) s = apply_add_column schema table column s
apply (create_enum_type_mutation schema name labels) s = apply_create_enum_type schema name labels s
apply (drop_column_mutation schema table column) s = apply_drop_column schema table column s
apply (alter_column_type_mutation schema table column from_type to_type _) s =
    apply_alter_column_type schema table column from_type to_type s
apply (set_not_null_mutation schema table column) s = apply_set_not_null schema table column s
apply (drop_not_null_mutation schema table column) s = apply_drop_not_null schema table column s
apply (set_default_mutation schema table column default_expr) s =
    apply_set_default schema table column default_expr s
apply (drop_default_mutation schema table column) s = apply_drop_default schema table column s
apply (add_constraint_mutation schema table constraint) s =
    apply_add_constraint schema table constraint s
apply (drop_constraint_mutation schema table name) s = apply_drop_constraint schema table name s
apply (rename_column_mutation schema table old_name new_name) s =
    apply_rename_column schema table old_name new_name s
apply (create_index_mutation schema index) s = apply_create_index schema index s
apply (create_schema_mutation schema) s = apply_create_schema schema s
apply (create_view_mutation schema view) s = apply_create_view schema view s
apply (create_sequence_mutation schema sequence) s = apply_create_sequence schema sequence s
apply (create_extension_mutation schema extension) s = apply_create_extension schema extension s
