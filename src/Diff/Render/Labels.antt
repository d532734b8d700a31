-- ===== src/Diff/Render/Labels.antt =====
-- internal/diff/operation.go: the names of the kinds, and the comment above every statement.
pub mod Made
use migra_go.Prelude.{String}
use migra_go.Diff.Operation.{Kind}

-- The constants of type `Kind`.
unfoldable pub kind_text : Kind → String
kind_text Kind.add_table = "add_table"
kind_text Kind.drop_table = "drop_table"
kind_text Kind.add_column = "add_column"
kind_text Kind.drop_column = "drop_column"
kind_text Kind.alter_column_type = "alter_column_type"
kind_text Kind.set_not_null = "set_not_null"
kind_text Kind.drop_not_null = "drop_not_null"
kind_text Kind.add_index = "add_index"
kind_text Kind.drop_index = "drop_index"
kind_text Kind.add_constraint = "add_constraint"
kind_text Kind.drop_constraint = "drop_constraint"
kind_text Kind.add_enum_type = "add_enum_type"
kind_text Kind.drop_enum_type = "drop_enum_type"
kind_text Kind.add_enum_label = "add_enum_label"
kind_text Kind.set_default = "set_default"
kind_text Kind.drop_default = "drop_default"
kind_text Kind.alter_column_collation = "alter_column_collation"
kind_text Kind.create_schema = "create_schema"
kind_text Kind.drop_schema = "drop_schema"
kind_text Kind.set_identity = "set_identity"
kind_text Kind.drop_identity = "drop_identity"
kind_text Kind.add_identity = "add_identity"
kind_text Kind.rename_column = "rename_column"
kind_text Kind.create_view = "create_view"
kind_text Kind.drop_view = "drop_view"
kind_text Kind.replace_view = "replace_view"
kind_text Kind.create_materialized_view = "create_materialized_view"
kind_text Kind.drop_materialized_view = "drop_materialized_view"
kind_text Kind.create_sequence = "create_sequence"
kind_text Kind.drop_sequence = "drop_sequence"
kind_text Kind.alter_sequence = "alter_sequence"
kind_text Kind.create_extension = "create_extension"
kind_text Kind.drop_extension = "drop_extension"
kind_text Kind.alter_extension_update = "alter_extension_update"
