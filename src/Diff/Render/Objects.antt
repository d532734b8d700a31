-- ===== src/Diff/Render/Objects.antt =====
-- internal/diff/operation_enum.go, operation_schema.go, operation_view.go, operation_sequence.go and
-- operation_extension.go: the statements.
use migra_go.Prelude.{
  String, Bool, not, ◌&&◌, List, [], ◌∷◌, ◌++◌, concat, join, decimal, map, str_eq, xor,
  if◌then◌else◌,
}
use migra_go.Prelude.Int.{ℤ, pos, int_eq}
use migra_go.Model.Objects.{Sequence}
use migra_go.Util.{quote_identifier, quote_qualified_identifier, quote_string}
use migra_go.Diff.Payload.{
  EnumOp, add_enum_type_op, drop_enum_type_op, add_enum_label_op, SchemaOp, create_schema_op,
  drop_schema_op, ViewOp, create_view_op, drop_view_op, replace_view_op,
  create_materialized_view_op, drop_materialized_view_op, SequenceOp, create_sequence_op,
  drop_sequence_op, alter_sequence_op, ExtensionOp, create_extension_op, drop_extension_op,
  alter_extension_update_op,
}
use migra_go.Diff.Render.Statement.{statement, if_exists_prefix}

unfoldable pub render_enum_op : Bool → EnumOp → String
unfolding quote_string quote_qualified_identifier
render_enum_op use_if_exists (add_enum_type_op schema enum_type) = statement "add_enum_type" "low" (
    "CREATE TYPE "
    ∷ quote_qualified_identifier schema enum_type.name
    ∷ " AS ENUM ("
    ∷ join ", " (map quote_string enum_type.labels)
    ∷ ")"
    ∷ [])
render_enum_op use_if_exists (drop_enum_type_op schema name) =
    statement "drop_enum_type" "high"
      ("DROP TYPE " ∷ if_exists_prefix use_if_exists ∷ quote_qualified_identifier schema name ∷ [])
render_enum_op use_if_exists (add_enum_label_op schema type_name label) =
    statement "add_enum_label" "low" (
      "ALTER TYPE "
      ∷ quote_qualified_identifier schema type_name
      ∷ " ADD VALUE "
      ∷ quote_string label
      ∷ [])

unfoldable pub render_schema_op : SchemaOp → String
unfolding quote_identifier
render_schema_op (create_schema_op schema) =
    statement "create_schema" "low" ("CREATE SCHEMA IF NOT EXISTS " ∷ quote_identifier schema ∷ [])
render_schema_op (drop_schema_op schema) =
    statement "drop_schema" "high" ("DROP SCHEMA IF EXISTS " ∷ quote_identifier schema ∷ [])

unfoldable pub render_view_op : Bool → ViewOp → String
unfolding quote_qualified_identifier
render_view_op use_if_exists (create_view_op schema view) =
    statement "create_view" "low"
      ("CREATE VIEW " ∷ quote_qualified_identifier schema view.name ∷ " AS " ∷ view.definition ∷ [])
render_view_op use_if_exists (drop_view_op schema name _) =
    statement "drop_view" "high"
      ("DROP VIEW " ∷ if_exists_prefix use_if_exists ∷ quote_qualified_identifier schema name ∷ [])
render_view_op use_if_exists (replace_view_op schema view) = statement "replace_view" "medium" (
    "CREATE OR REPLACE VIEW "
    ∷ quote_qualified_identifier schema view.name
    ∷ " AS "
    ∷ view.definition
    ∷ [])
render_view_op use_if_exists (create_materialized_view_op schema view) =
    statement "create_materialized_view" "low" (
      "CREATE MATERIALIZED VIEW "
      ∷ quote_qualified_identifier schema view.name
      ∷ " AS "
      ∷ view.definition
      ∷ [])
render_view_op use_if_exists (drop_materialized_view_op schema name) =
    statement "drop_materialized_view" "high" (
      "DROP MATERIALIZED VIEW "
      ∷ if_exists_prefix use_if_exists
      ∷ quote_qualified_identifier schema name
      ∷ [])

abbrev is_set : ℤ → Bool
is_set n = not (int_eq n (pos 0))

-- if test { parts = append(parts, part) }
abbrev part : Bool → List String → List String
part test pieces = if test then concat pieces ∷ [] else []

-- A number that is not 0, and for ALTER not the old one.
abbrev changed_number : ℤ → ℤ → Bool
changed_number old new = is_set new && not (int_eq new old)

create_parts : Sequence → List String
create_parts seq =
    part (not (str_eq seq.data_type "")) ("AS " ∷ seq.data_type ∷ [])
    ++ (part (is_set seq.start_value) ("START WITH " ∷ decimal seq.start_value ∷ [])
        ++ (part (is_set seq.increment_by) ("INCREMENT BY " ∷ decimal seq.increment_by ∷ [])
            ++ (part (is_set seq.min_value) ("MINVALUE " ∷ decimal seq.min_value ∷ [])
                ++ (part (is_set seq.max_value) ("MAXVALUE " ∷ decimal seq.max_value ∷ [])
                    ++ (part (is_set seq.cache_size && not (int_eq seq.cache_size (pos 1)))
                          ("CACHE " ∷ decimal seq.cache_size ∷ [])
                        ++ part seq.cycle ("CYCLE" ∷ []))))))

unfoldable pub alter_parts : Sequence → Sequence → List String
alter_parts from seq =
    part (not (str_eq seq.data_type "") && not (str_eq seq.data_type from.data_type))
      ("AS " ∷ seq.data_type ∷ [])
    ++ (part (changed_number from.start_value seq.start_value)
          ("START WITH " ∷ decimal seq.start_value ∷ [])
        ++ (part (changed_number from.increment_by seq.increment_by)
              ("INCREMENT BY " ∷ decimal seq.increment_by ∷ [])
            ++ (part (changed_number from.min_value seq.min_value)
                  ("MINVALUE " ∷ decimal seq.min_value ∷ [])
                ++ (part (changed_number from.max_value seq.max_value)
                      ("MAXVALUE " ∷ decimal seq.max_value ∷ [])
                    ++ (part (changed_number from.cache_size seq.cache_size)
                          ("CACHE " ∷ decimal seq.cache_size ∷ [])
                        ++ part (xor seq.cycle from.cycle)
                            ((if seq.cycle then "CYCLE" else "NO CYCLE") ∷ []))))))

unfoldable pub render_sequence_op : Bool → SequenceOp → String
unfolding create_parts alter_parts quote_qualified_identifier
render_sequence_op use_if_exists (create_sequence_op schema seq) =
    statement "create_sequence" "low" (
      join " " (
        concat ("CREATE SEQUENCE " ∷ quote_qualified_identifier schema seq.name ∷ [])
        ∷ create_parts seq)
      ∷ [])
render_sequence_op use_if_exists (drop_sequence_op schema name) = statement "drop_sequence" "high" (
    "DROP SEQUENCE " ∷ if_exists_prefix use_if_exists ∷ quote_qualified_identifier schema name ∷ [])
render_sequence_op use_if_exists (alter_sequence_op schema from to) =
    statement "alter_sequence" "low" (
      join " " (
        concat ("ALTER SEQUENCE " ∷ quote_qualified_identifier schema to.name ∷ [])
        ∷ alter_parts from to)
      ∷ [])

unfoldable pub render_extension_op : Bool → ExtensionOp → String
unfolding quote_identifier quote_string
render_extension_op use_if_exists (create_extension_op _ extension) =
    statement "create_extension" "low" (
      "CREATE EXTENSION IF NOT EXISTS "
      ∷ quote_identifier extension.name
      ∷ (if str_eq extension.version ""
          then ""
          else concat (" WITH VERSION " ∷ quote_string extension.version ∷ []))
      ∷ [])
render_extension_op use_if_exists (drop_extension_op _ name) =
    statement "drop_extension" "high"
      ("DROP EXTENSION " ∷ if_exists_prefix use_if_exists ∷ quote_identifier name ∷ [])
render_extension_op use_if_exists (alter_extension_update_op _ extension) =
    statement "alter_extension_update" "low" (
      "ALTER EXTENSION "
      ∷ quote_identifier extension.name
      ∷ " UPDATE TO "
      ∷ quote_string extension.version
      ∷ [])
