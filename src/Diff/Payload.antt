-- ===== src/Diff/Payload.antt =====
-- internal/diff: the operation structs without their base, one child for each file.
mod Table
mod Column
mod Constraint
mod Index
mod Enum
mod Schema
mod View
mod Sequence
mod Extension
unfoldable pub use Table.{table_is_destructive, table_depends_on}
pub use Table.{TableOp, add_table_op, drop_table_op}
unfoldable pub use Column.{column_is_destructive, column_depends_on}
pub use Column.{
  ColumnOp, add_column_op, alter_column_type_op, set_not_null_op, drop_not_null_op, drop_column_op,
  set_default_op, drop_default_op, set_identity_op, drop_identity_op, add_identity_op,
  alter_column_collation_op, rename_column_op,
}
unfoldable pub use Constraint.{constraint_is_destructive, constraint_depends_on}
pub use Constraint.{ConstraintOp, add_constraint_op, drop_constraint_op}
unfoldable pub use Index.{index_is_destructive, index_depends_on}
pub use Index.{IndexOp, create_index_op, drop_index_op}
unfoldable pub use Enum.{enum_is_destructive, enum_depends_on}
pub use Enum.{EnumOp, add_enum_type_op, drop_enum_type_op, add_enum_label_op}
unfoldable pub use Schema.{schema_is_destructive}
pub use Schema.{SchemaOp, create_schema_op, drop_schema_op}
unfoldable pub use View.{view_is_destructive}
pub use View.{
  ViewOp, create_view_op, drop_view_op, replace_view_op, create_materialized_view_op,
  drop_materialized_view_op,
}
unfoldable pub use Sequence.{sequence_is_destructive}
pub use Sequence.{SequenceOp, create_sequence_op, drop_sequence_op, alter_sequence_op}
unfoldable pub use Extension.{extension_is_destructive}
pub use Extension.{ExtensionOp, create_extension_op, drop_extension_op, alter_extension_update_op}
