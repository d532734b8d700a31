-- ===== src/Diff/Operation.antt =====
-- internal/diff/operation.go: operation kinds, the operation interface and its base struct.
use migra_go.Prelude.{Bool, List, []}
use migra_go.Model.ObjectKey.{ObjectKey}
use migra_go.Diff.Payload.{
  TableOp, table_is_destructive, table_depends_on, ColumnOp, column_is_destructive,
  column_depends_on, ConstraintOp, constraint_is_destructive, constraint_depends_on, IndexOp,
  index_is_destructive, index_depends_on, EnumOp, enum_is_destructive, enum_depends_on, SchemaOp,
  schema_is_destructive, ViewOp, view_is_destructive, SequenceOp, sequence_is_destructive,
  ExtensionOp, extension_is_destructive,
}

pub data Kind : Type 0 where
  add_table drop_table add_column drop_column alter_column_type set_not_null drop_not_null : Kind
  add_index drop_index add_constraint drop_constraint add_enum_type drop_enum_type : Kind
  add_enum_label set_default drop_default alter_column_collation create_schema drop_schema : Kind
  set_identity drop_identity add_identity rename_column create_view drop_view replace_view : Kind
  create_materialized_view drop_materialized_view create_sequence drop_sequence : Kind
  alter_sequence create_extension drop_extension alter_extension_update : Kind

pub record BaseOperation : Type 0 where
  pub kind : Kind
  pub object_key : ObjectKey

-- The struct that stands behind the `Operation` interface, without its embedded base.
pub data Payload : Type 0 where
  table_op : TableOp → Payload
  column_op : ColumnOp → Payload
  constraint_op : ConstraintOp → Payload
  index_op : IndexOp → Payload
  enum_op : EnumOp → Payload
  schema_op : SchemaOp → Payload
  view_op : ViewOp → Payload
  sequence_op : SequenceOp → Payload
  extension_op : ExtensionOp → Payload

pub record Operation : Type 0 where
  pub base : BaseOperation
  pub open base use *
  pub payload : Payload

payload_is_destructive : Payload → Bool
payload_is_destructive (table_op x) = table_is_destructive x
payload_is_destructive (column_op x) = column_is_destructive x
payload_is_destructive (constraint_op x) = constraint_is_destructive x
payload_is_destructive (index_op x) = index_is_destructive x
payload_is_destructive (enum_op x) = enum_is_destructive x
payload_is_destructive (schema_op x) = schema_is_destructive x
payload_is_destructive (view_op x) = view_is_destructive x
payload_is_destructive (sequence_op x) = sequence_is_destructive x
payload_is_destructive (extension_op x) = extension_is_destructive x

-- op.IsDestructive()
unfoldable pub is_destructive : Operation → Bool
unfolding payload_is_destructive
is_destructive op = payload_is_destructive op.payload

-- A struct with no method of its own has the base's `DependsOn`, which returns nil.
payload_depends_on : Payload → List ObjectKey
payload_depends_on (table_op x) = table_depends_on x
payload_depends_on (column_op x) = column_depends_on x
payload_depends_on (constraint_op x) = constraint_depends_on x
payload_depends_on (index_op x) = index_depends_on x
payload_depends_on (enum_op x) = enum_depends_on x
payload_depends_on _ = []

-- op.DependsOn()
unfoldable pub depends_on : Operation → List ObjectKey
unfolding payload_depends_on
depends_on op = payload_depends_on op.payload
