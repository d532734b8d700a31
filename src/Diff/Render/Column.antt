-- ===== src/Diff/Render/Column.antt =====
-- internal/diff/operation_column.go: the statements.
use migra_go.Prelude.{String, Option, none, some, List, [], ◌∷◌, concat, str_eq, if◌then◌else◌}
use migra_go.Model.Objects.{Column}
use migra_go.Util.{quote_identifier, quote_qualified_identifier}
use migra_go.Diff.Payload.{
  ColumnOp, add_column_op, alter_column_type_op, set_not_null_op, drop_not_null_op, drop_column_op,
  set_default_op, drop_default_op, set_identity_op, drop_identity_op, add_identity_op,
  alter_column_collation_op, rename_column_op,
}
use migra_go.Diff.Render.Statement.{statement}

abbrev identity_suffix : Column → String
identity_suffix col =
    if col.is_identity
    then (if str_eq col.identity_kind "ALWAYS"
        then " GENERATED ALWAYS AS IDENTITY"
        else if str_eq col.identity_kind "BY DEFAULT"
        then " GENERATED BY DEFAULT AS IDENTITY"
        else "")
    else ""

abbrev collation_suffix : String → String
collation_suffix collation =
    if str_eq collation "" then "" else concat (" COLLATE " ∷ quote_identifier collation ∷ [])

abbrev default_suffix : Option String → String
default_suffix none = ""
default_suffix (some e) = concat (" DEFAULT " ∷ e ∷ [])

-- What follows the name and the type of a new column.
unfoldable pub column_suffix : Column → String
unfolding quote_identifier
column_suffix col = concat (
    identity_suffix col
    ∷ collation_suffix col.collation
    ∷ (if col.is_nullable then "" else " NOT NULL")
    ∷ default_suffix col.default_expr
    ∷ [])

abbrev alter_column : String → String → String → List String → List String
alter_column schema table column action =
    "ALTER TABLE "
    ∷ quote_qualified_identifier schema table
    ∷ " ALTER COLUMN "
    ∷ quote_identifier column
    ∷ action

unfoldable pub render_column_op : ColumnOp → String
unfolding column_suffix quote_identifier quote_qualified_identifier
render_column_op (add_column_op schema table col) = statement "add_column" "low" (
    "ALTER TABLE "
    ∷ quote_qualified_identifier schema table
    ∷ " ADD COLUMN "
    ∷ quote_identifier col.name
    ∷ " "
    ∷ col.data_type
    ∷ column_suffix col
    ∷ [])
render_column_op (alter_column_type_op schema table column _ to_type using_expr) =
    statement "alter_column_type" "high" (
      alter_column schema table column (
        " TYPE "
        ∷ to_type
        ∷ (if str_eq using_expr "" then "" else concat (" USING " ∷ using_expr ∷ []))
        ∷ []))
render_column_op (set_not_null_op schema table column) =
    statement "set_not_null" "low" (alter_column schema table column (" SET NOT NULL" ∷ []))
render_column_op (drop_not_null_op schema table column) =
    statement "drop_not_null" "low" (alter_column schema table column (" DROP NOT NULL" ∷ []))
render_column_op (drop_column_op schema table column) = statement "drop_column" "high" (
    "ALTER TABLE "
    ∷ quote_qualified_identifier schema table
    ∷ " DROP COLUMN IF EXISTS "
    ∷ quote_identifier column
    ∷ [])
render_column_op (set_default_op schema table column default_expr) =
    statement "set_default" "low"
      (alter_column schema table column (" SET DEFAULT " ∷ default_expr ∷ []))
render_column_op (drop_default_op schema table column) =
    statement "drop_default" "low" (alter_column schema table column (" DROP DEFAULT" ∷ []))
render_column_op (set_identity_op schema table column identity_kind) =
    statement "set_identity" "low"
      (alter_column schema table column (" SET GENERATED " ∷ identity_kind ∷ []))
render_column_op (drop_identity_op schema table column) =
    statement "drop_identity" "medium" (alter_column schema table column (" DROP IDENTITY" ∷ []))
render_column_op (add_identity_op schema table column identity_kind) =
    statement "add_identity" "low"
      (alter_column schema table column (" ADD GENERATED " ∷ identity_kind ∷ " AS IDENTITY" ∷ []))
render_column_op (alter_column_collation_op schema table column data_type _ to_collation) =
    statement "alter_column_collation" "low" (
      alter_column schema table column
        (" SET DATA TYPE " ∷ data_type ∷ collation_suffix to_collation ∷ []))
render_column_op (rename_column_op schema table old_name new_name) =
    statement "rename_column" "low" (
      "ALTER TABLE "
      ∷ quote_qualified_identifier schema table
      ∷ " RENAME COLUMN "
      ∷ quote_identifier old_name
      ∷ " TO "
      ∷ quote_identifier new_name
      ∷ [])
