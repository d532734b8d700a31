-- ===== src/Diff/Create.antt =====
-- internal/diff: the operations' constructors, one child for each file.
mod Table
mod Column
mod Constraint
mod Index
mod Enum
mod Schema
mod View
mod Sequence
mod Extension
unfoldable pub use Table.{new_add_table_op, new_drop_table_op}
unfoldable pub use Column.{
  new_add_column_op, new_alter_column_type_op, new_set_not_null_op, new_drop_not_null_op,
  new_drop_column_op, new_set_default_op, new_drop_default_op, new_set_identity_op,
  new_drop_identity_op, new_add_identity_op, new_alter_column_collation_op, new_rename_column_op,
}
unfoldable pub use Constraint.{new_add_constraint_op, new_drop_constraint_op}
unfoldable pub use Index.{new_create_index_op, new_drop_index_op}
unfoldable pub use Enum.{new_add_enum_type_op, new_drop_enum_type_op, new_add_enum_label_op}
unfoldable pub use Schema.{new_create_schema_op, new_drop_schema_op}
unfoldable pub use View.{
  new_create_view_op, new_drop_view_op, new_replace_view_op, new_create_materialized_view_op,
  new_drop_materialized_view_op,
}
unfoldable pub use Sequence.{new_create_sequence_op, new_drop_sequence_op, new_alter_sequence_op}
unfoldable pub use Extension.{
  new_create_extension_op, new_drop_extension_op, new_alter_extension_update_op,
}
