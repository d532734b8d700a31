-- ===== src/Diff/Render/Labels/Made.antt =====
-- What the operations that the constructors make are rendered as.
use migra_go.Prelude.{String, Bool, false, List, ◌≡◌, refl, str_eq, if_ind}
use migra_go.Model.Objects.{Column, Constraint, EnumType, Extension, Index, Sequence, Table, View}
use migra_go.Diff.Operation.{Kind, Operation, is_destructive}
use migra_go.Diff.Payload.{
  column_is_destructive, constraint_is_destructive, enum_is_destructive, extension_is_destructive,
  index_is_destructive, schema_is_destructive, sequence_is_destructive, table_is_destructive,
  view_is_destructive,
}
use migra_go.Diff.Objects.Views.{recreate_drop}
use migra_go.Diff.Create.{
  new_add_column_op, new_alter_column_type_op, new_set_not_null_op, new_drop_not_null_op,
  new_drop_column_op, new_set_default_op, new_drop_default_op, new_set_identity_op,
  new_drop_identity_op, new_add_identity_op, new_alter_column_collation_op, new_rename_column_op,
  new_add_constraint_op, new_drop_constraint_op, new_add_enum_type_op, new_drop_enum_type_op,
  new_add_enum_label_op, new_create_extension_op, new_drop_extension_op,
  new_alter_extension_update_op, new_create_index_op, new_drop_index_op, new_create_schema_op,
  new_drop_schema_op, new_create_sequence_op, new_drop_sequence_op, new_alter_sequence_op,
  new_add_table_op, new_drop_table_op, new_create_view_op, new_drop_view_op, new_replace_view_op,
  new_create_materialized_view_op, new_drop_materialized_view_op,
}
use migra_go.Diff.Render.{
  statement, render_string, render_payload, render_constraint_definition, render_constraint_op,
  render_table_op, render_column_op, render_index_op, render_enum_op, render_schema_op,
  render_view_op, render_sequence_op, render_extension_op,
}
use migra_go.Diff.Render.Labels.{kind_text}

-- The operations as the code makes them: by one of the 34 constructors `NewXOp`, or as the drop of a
-- view that is created again.
pub data Made : Operation → Type 0 where
  made_add_column :
      (schema : String) (table : String) (col : Column) → Made (new_add_column_op schema table col)
  made_alter_column_type :
      (schema : String) (table : String) (column : String) (from_type : String) (to_type : String)
      → Made (new_alter_column_type_op schema table column from_type to_type)
  made_set_not_null :
      (schema : String) (table : String) (column : String)
      → Made (new_set_not_null_op schema table column)
  made_drop_not_null :
      (schema : String) (table : String) (column : String)
      → Made (new_drop_not_null_op schema table column)
  made_drop_column :
      (schema : String) (table : String) (column : String)
      → Made (new_drop_column_op schema table column)
  made_set_default :
      (schema : String) (table : String) (column : String) (default_expr : String)
      → Made (new_set_default_op schema table column default_expr)
  made_drop_default :
      (schema : String) (table : String) (column : String)
      → Made (new_drop_default_op schema table column)
  made_set_identity :
      (schema : String) (table : String) (column : String) (identity_kind : String)
      → Made (new_set_identity_op schema table column identity_kind)
  made_drop_identity :
      (schema : String) (table : String) (column : String)
      → Made (new_drop_identity_op schema table column)
  made_add_identity :
      (schema : String) (table : String) (column : String) (identity_kind : String)
      → Made (new_add_identity_op schema table column identity_kind)
  made_alter_column_collation :
      (schema : String) (table : String) (column : String) (data_type : String)
      (from_collation : String) (to_collation : String)
      → Made
          (new_alter_column_collation_op schema table column data_type from_collation to_collation)
  made_rename_column :
      (schema : String) (table : String) (old_name : String) (new_name : String)
      → Made (new_rename_column_op schema table old_name new_name)
  made_add_constraint :
      (schema : String) (table : String) (c : Constraint)
      → Made (new_add_constraint_op schema table c)
  made_drop_constraint :
      (schema : String) (table : String) (name : String)
      → Made (new_drop_constraint_op schema table name)
  made_add_enum_type :
      (schema : String) (enum_type : EnumType) → Made (new_add_enum_type_op schema enum_type)
  made_drop_enum_type : (schema : String) (name : String) → Made (new_drop_enum_type_op schema name)
  made_add_enum_label :
      (schema : String) (type_name : String) (label : String)
      → Made (new_add_enum_label_op schema type_name label)
  made_create_extension :
      (schema : String) (ext : Extension) → Made (new_create_extension_op schema ext)
  made_drop_extension : (schema : String) (name : String) → Made (new_drop_extension_op schema name)
  made_alter_extension_update :
      (schema : String) (ext : Extension) → Made (new_alter_extension_update_op schema ext)
  made_create_index : (schema : String) (index : Index) → Made (new_create_index_op schema index)
  made_drop_index : (schema : String) (name : String) → Made (new_drop_index_op schema name)
  made_create_schema : (schema : String) → Made (new_create_schema_op schema)
  made_drop_schema : (schema : String) → Made (new_drop_schema_op schema)
  made_create_sequence :
      (schema : String) (seq : Sequence) → Made (new_create_sequence_op schema seq)
  made_drop_sequence : (schema : String) (name : String) → Made (new_drop_sequence_op schema name)
  made_alter_sequence :
      (schema : String) (from : Sequence) (to : Sequence)
      → Made (new_alter_sequence_op schema from to)
  made_add_table :
      (schema : String) (name : String) (table : Table) → Made (new_add_table_op schema name table)
  made_drop_table : (schema : String) (name : String) → Made (new_drop_table_op schema name)
  made_create_view : (schema : String) (view : View) → Made (new_create_view_op schema view)
  made_drop_view : (schema : String) (name : String) → Made (new_drop_view_op schema name)
  made_replace_view : (schema : String) (view : View) → Made (new_replace_view_op schema view)
  made_create_materialized_view :
      (schema : String) (view : View) → Made (new_create_materialized_view_op schema view)
  made_drop_materialized_view :
      (schema : String) (name : String) → Made (new_drop_materialized_view_op schema name)
  made_recreate_drop : (schema : String) (name : String) → Made (recreate_drop schema name)

-- The risk in the comment; the low one is for operations that destroy nothing.
pub data Risk : Bool → String → Type 0 where
  low : Risk false "low"
  medium : {destructive : Bool} → Risk destructive "medium"
  high : {destructive : Bool} → Risk destructive "high"

-- A statement with the operation's kind and a risk in the comment above it; or nothing, for an added
-- constraint.
pub data Labelled (op : Operation) : String → Type 0 where
  labelled :
      (risk : String) (body : List String)
      → Risk (is_destructive op) risk
      → Labelled op (statement (kind_text op.kind) risk body)
  nothing : op.kind ≡ Kind.add_constraint → Labelled op ""

-- Every operation that the constructors make is rendered as a statement under a comment with the kind
-- that its base has and with a risk, which is not the low one if the operation is destructive; only an
-- added constraint may be rendered as nothing.
pub render_string-Labelled :
    (use_if_exists : Bool) (op : Operation) → Made op → Labelled op (render_string use_if_exists op)
unfolding column_is_destructive constraint_is_destructive enum_is_destructive
    extension_is_destructive index_is_destructive schema_is_destructive sequence_is_destructive
    table_is_destructive view_is_destructive render_string render_payload kind_text is_destructive
    recreate_drop render_table_op render_column_op render_constraint_op render_index_op
    render_enum_op render_schema_op render_view_op render_sequence_op render_extension_op
    new_add_column_op new_alter_column_type_op new_set_not_null_op new_drop_not_null_op
    new_drop_column_op new_set_default_op new_drop_default_op new_set_identity_op
    new_drop_identity_op new_add_identity_op new_alter_column_collation_op new_rename_column_op
    new_add_constraint_op new_drop_constraint_op new_add_enum_type_op new_drop_enum_type_op
    new_add_enum_label_op new_create_extension_op new_drop_extension_op
    new_alter_extension_update_op new_create_index_op new_drop_index_op new_create_schema_op
    new_drop_schema_op new_create_sequence_op new_drop_sequence_op new_alter_sequence_op
    new_add_table_op new_drop_table_op new_create_view_op new_drop_view_op new_replace_view_op
    new_create_materialized_view_op new_drop_materialized_view_op
render_string-Labelled b op (made_add_column schema table col) = labelled _ _ low
render_string-Labelled b op (made_alter_column_type schema table column from_type to_type) =
    labelled _ _ high
render_string-Labelled b op (made_set_not_null schema table column) = labelled _ _ low
render_string-Labelled b op (made_drop_not_null schema table column) = labelled _ _ low
render_string-Labelled b op (made_drop_column schema table column) = labelled _ _ high
render_string-Labelled b op (made_set_default schema table column default_expr) = labelled _ _ low
render_string-Labelled b op (made_drop_default schema table column) = labelled _ _ low
render_string-Labelled b op (made_set_identity schema table column identity_kind) = labelled _ _ low
render_string-Labelled b op (made_drop_identity schema table column) = labelled _ _ medium
render_string-Labelled b op (made_add_identity schema table column identity_kind) = labelled _ _ low
render_string-Labelled b op
      (made_alter_column_collation schema table column data_type from_collation to_collation) =
    labelled _ _ low
render_string-Labelled b op (made_rename_column schema table old_name new_name) = labelled _ _ low
render_string-Labelled b op (made_add_constraint schema table c) =
    if_ind (Labelled (new_add_constraint_op schema table c))
      (str_eq (render_constraint_definition c) "") (λ _. nothing refl) (λ _. labelled _ _ medium)
render_string-Labelled b op (made_drop_constraint schema table name) = labelled _ _ medium
render_string-Labelled b op (made_add_enum_type schema enum_type) = labelled _ _ low
render_string-Labelled b op (made_drop_enum_type schema name) = labelled _ _ high
render_string-Labelled b op (made_add_enum_label schema type_name label) = labelled _ _ low
render_string-Labelled b op (made_create_extension schema ext) = labelled _ _ low
render_string-Labelled b op (made_drop_extension schema name) = labelled _ _ high
render_string-Labelled b op (made_alter_extension_update schema ext) = labelled _ _ low
render_string-Labelled b op (made_create_index schema index) = labelled _ _ low
render_string-Labelled b op (made_drop_index schema name) = labelled _ _ medium
render_string-Labelled b op (made_create_schema schema) = labelled _ _ low
render_string-Labelled b op (made_drop_schema schema) = labelled _ _ high
render_string-Labelled b op (made_create_sequence schema seq) = labelled _ _ low
render_string-Labelled b op (made_drop_sequence schema name) = labelled _ _ high
render_string-Labelled b op (made_alter_sequence schema from to) = labelled _ _ low
render_string-Labelled b op (made_add_table schema name table) = labelled _ _ low
render_string-Labelled b op (made_drop_table schema name) = labelled _ _ high
render_string-Labelled b op (made_create_view schema view) = labelled _ _ low
render_string-Labelled b op (made_drop_view schema name) = labelled _ _ high
render_string-Labelled b op (made_replace_view schema view) = labelled _ _ medium
render_string-Labelled b op (made_create_materialized_view schema view) = labelled _ _ low
render_string-Labelled b op (made_drop_materialized_view schema name) = labelled _ _ high
render_string-Labelled b op (made_recreate_drop schema name) = labelled _ _ high
