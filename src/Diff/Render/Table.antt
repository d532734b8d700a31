-- ===== src/Diff/Render/Table.antt =====
-- internal/diff/operation_table.go: the statements.
use migra_go.Prelude.{
  String, Bool, false, Option, none, some, List, [], ◌∷◌, ◌++◌, Map, concat, join, map, str_eq,
  if◌then◌else◌,
}
use migra_go.Model.Objects.{Column, Constraint, PrimaryKey}
use migra_go.Util.{quote_identifier, quote_qualified_identifier}
use migra_go.Diff.Payload.{TableOp, add_table_op, drop_table_op}
use migra_go.Diff.Render.Statement.{statement, if_exists_prefix}
use migra_go.Diff.Render.Column.{column_suffix}
use migra_go.Diff.Render.Constraint.{render_constraint}

unfoldable pub column_definition : Column → String
unfolding quote_identifier column_suffix
column_definition col =
    concat ("    " ∷ quote_identifier col.name ∷ " " ∷ col.data_type ∷ column_suffix col ∷ [])

-- if rendered != "" { lines = append(lines, "    "+rendered) }
abbrev constraint_line : Constraint → List String
constraint_line c =
    let rendered = render_constraint c in
    if str_eq rendered "" then [] else concat ("    " ∷ rendered ∷ []) ∷ []

abbrev key_constraint : PrimaryKey → Constraint
key_constraint pk = record {
  name = pk.name;
  type = "primary_key";
  definition = "";
  table = "";
  columns = pk.columns;
  ref_schema = "";
  ref_table = "";
  ref_columns = [];
  expression = "";
  on_delete = "";
  on_update = "";
}

abbrev key_line : Option PrimaryKey → List String
key_line none = []
key_line (some pk) = constraint_line (key_constraint pk)

abbrev is_key_name : Option PrimaryKey → String → Bool
is_key_name none name = false
is_key_name (some pk) name = str_eq name pk.name

-- The constraints in the order of the map, without the primary key.
abbrev constraint_lines : Option PrimaryKey → Map Constraint → List String
constraint_lines pk [] = []
constraint_lines pk ((_, c) ∷ cs) =
    let rest = constraint_lines pk cs in
    if is_key_name pk c.name then rest else constraint_line c ++ rest

unfoldable pub render_table_op : Bool → TableOp → String
unfolding column_definition render_constraint quote_qualified_identifier
render_table_op use_if_exists (add_table_op table) = statement "add_table" "low" (
    "CREATE TABLE "
    ∷ quote_qualified_identifier table.schema table.name
    ∷ " (\n"
    ∷ join ",\n" (
        map column_definition table.columns
        ++ (key_line table.primary_key ++ constraint_lines table.primary_key table.constraints))
    ∷ "\n)"
    ∷ [])
render_table_op use_if_exists (drop_table_op schema name) =
    statement "drop_table" "high"
      ("DROP TABLE " ∷ if_exists_prefix use_if_exists ∷ quote_qualified_identifier schema name ∷ [])
