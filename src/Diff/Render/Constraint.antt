-- ===== src/Diff/Render/Constraint.antt =====
-- internal/diff/operation_constraint.go and the constraints of operation_table.go.
use migra_go.Prelude.{String, Bool, [], ◌∷◌, concat, str_eq, if◌then◌else◌}
use migra_go.Model.Objects.{Constraint}
use migra_go.Util.{quote_identifier, quote_qualified_identifier, quote_identifier_list}
use migra_go.Diff.Payload.{ConstraintOp, add_constraint_op, drop_constraint_op}
use migra_go.Diff.Render.Statement.{statement, if_exists_prefix}

-- if text != "" { sql += prefix + text }
abbrev clause : String → String → String
clause prefix text = if str_eq text "" then "" else concat (prefix ∷ text ∷ [])

abbrev foreign_key_definition : Constraint → String
foreign_key_definition c = concat (
    "FOREIGN KEY ("
    ∷ quote_identifier_list c.columns
    ∷ ") REFERENCES "
    ∷ quote_qualified_identifier c.ref_schema c.ref_table
    ∷ " ("
    ∷ quote_identifier_list c.ref_columns
    ∷ ")"
    ∷ clause " ON DELETE " c.on_delete
    ∷ clause " ON UPDATE " c.on_update
    ∷ [])

unfoldable pub render_constraint_definition : Constraint → String
unfolding quote_identifier_list quote_qualified_identifier
render_constraint_definition c =
    if str_eq c.type "primary_key"
    then concat ("PRIMARY KEY (" ∷ quote_identifier_list c.columns ∷ ")" ∷ [])
    else if str_eq c.type "foreign_key"
    then foreign_key_definition c
    else if str_eq c.type "unique"
    then concat ("UNIQUE (" ∷ quote_identifier_list c.columns ∷ ")" ∷ [])
    else if str_eq c.type "check"
    then (if str_eq c.expression "" then "" else concat ("CHECK (" ∷ c.expression ∷ ")" ∷ []))
    else c.definition

-- Nothing where there is no definition.
unfoldable pub render_constraint : Constraint → String
unfolding render_constraint_definition
render_constraint c =
    let definition = render_constraint_definition c in
    if str_eq definition ""
    then ""
    else concat ("CONSTRAINT " ∷ quote_identifier c.name ∷ " " ∷ definition ∷ [])

unfoldable pub render_constraint_op : Bool → ConstraintOp → String
unfolding render_constraint_definition quote_identifier quote_qualified_identifier
render_constraint_op use_if_exists (add_constraint_op schema table c) =
    let definition = render_constraint_definition c in
    if str_eq definition ""
    then ""
    else statement "add_constraint" "medium" (
        "ALTER TABLE "
        ∷ quote_qualified_identifier schema table
        ∷ " ADD CONSTRAINT "
        ∷ quote_identifier c.name
        ∷ " "
        ∷ definition
        ∷ [])
render_constraint_op use_if_exists (drop_constraint_op schema table name) =
    statement "drop_constraint" "medium" (
      "ALTER TABLE "
      ∷ quote_qualified_identifier schema table
      ∷ " DROP CONSTRAINT "
      ∷ if_exists_prefix use_if_exists
      ∷ quote_identifier name
      ∷ [])
