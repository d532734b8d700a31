-- ===== src/Examples/Cleaning.antt =====
-- A concrete schema, copied and normalised.
use migra_go.Prelude.{true, none, some, [], ◌∷◌, ◌≡◌, ◌↔◌, refl, arith, Map, get, put}
use migra_go.Model.Store.{
  ColumnRef, TableRef, NamespaceRef, Store, write, write_text, new_namespace, new_table_ref,
}
use migra_go.Model.Store.Allocate.{Preserves}
use migra_go.Model.Clone.{clone_schema}
use migra_go.Model.Clone.Deep.{SchemaCopy, clone_schema-SchemaCopy}
use migra_go.Normalize.Text.{
  TextFunctions, normalize_type, type_aliases, is_balanced_parens, is_balanced_from, in_parens,
  strip_parens, char_count, normalize_data_type, scalar, element_type, normalize_identifier, inside,
  without_last,
}
use migra_go.Normalize.{
  canonicalize_table, canonicalize_columns, canonicalize_column, canonicalize_default,
}
use migra_go.Normalize.Termination.{Shortens, Strips, strip_parens-ends}
use migra_go.Normalize.Balanced.{Balanced, is_balanced_parens-Balanced}
use migra_go.Normalize.Columns.{AllFound, name-canonicalize_table, canonicalize_table-AllFound}
use migra_go.Normalize.Caller.{normalized_clones, normalized_clones-keeps}
use migra_go.Examples.{column_ref}

-- Texts that are lower case and have no white space, patterns or casts.
abbrev plain : TextFunctions
plain = record {
  trim_space = λ s. s;
  to_lower = λ s. s;
  fields = λ s. s ∷ [];
  char_varying_with_len = λ s. none;
  character_with_len = λ s. none;
  replace_nested_type_cast = λ s. s;
  replace_type_cast = λ s. s;
}

plain-Shortens : Shortens plain
plain-Shortens = record { trim_shortens = λ s. omega arith; lower_keeps = λ s. omega arith }

abbrev id_column : ColumnRef
id_column = record (column_ref "id" "int4[]" true) { default_expr = some 0 }

abbrev store : Store
store = record { cell = λ p. id_column; next = 1; text = λ a. "((1))"; next_text = 1 }

abbrev table : TableRef
table = record (new_table_ref "public" "accounts") { columns = 0 ∷ [] }

abbrev namespaces : Map NamespaceRef
namespaces = ("public", record (new_namespace "public") { tables = ("accounts", table) ∷ [] }) ∷ []

clone_schema-SchemaCopy_example :
    Preserves store (clone_schema store namespaces).0
    × SchemaCopy store namespaces
        (clone_schema store namespaces).0
        (clone_schema store namespaces).1
clone_schema-SchemaCopy_example =
    clone_schema-SchemaCopy store namespaces ((((omega arith, omega arith), tt), tt), tt)

normalized_clones-keeps_example :
    ((normalized_clones plain (store, namespaces, namespaces)).0.cell 0 ≡ id_column)
    × ((normalized_clones plain (store, namespaces, namespaces)).0.text 0 ≡ "((1))")
normalized_clones-keeps_example =
    normalized_clones-keeps plain store namespaces namespaces 0 0
      ((((omega arith, omega arith), tt), tt), tt) ((((omega arith, omega arith), tt), tt), tt)
      (omega arith) (omega arith)

strip_parens-ends_example :
    Strips plain "((1))" (strip_parens plain (char_count "((1))") "((1))")
    × (in_parens (strip_parens plain (char_count "((1))") "((1))") ≡ none)
strip_parens-ends_example = strip_parens-ends plain plain-Shortens "((1))"

id_found : get "id" (canonicalize_table plain store table).1.column_by_name ≡ some 0
unfolding canonicalize_table canonicalize_columns canonicalize_column canonicalize_default write
    write_text normalize_identifier inside without_last get put new_table_ref
id_found = refl

name-canonicalize_table_example : ((canonicalize_table plain store table).0.cell 0).name ≡ "id"
name-canonicalize_table_example = name-canonicalize_table plain store table "id" 0 (tt, tt) id_found

canonicalize_table-AllFound_example :
    AllFound
      (canonicalize_table plain store table).0
      (canonicalize_table plain store table).1.column_by_name
      (0 ∷ [])
canonicalize_table-AllFound_example = canonicalize_table-AllFound plain store table (tt, tt)

array_of_int4 : normalize_data_type plain "int4[]" ≡ "integer[]"
unfolding normalize_data_type normalize_type scalar element_type without_last char_count get
    type_aliases
array_of_int4 = refl

two_pairs : strip_parens plain 5 "((1))" ≡ "1"
unfolding strip_parens in_parens inside is_balanced_parens is_balanced_from without_last
two_pairs = refl

not_one_pair : strip_parens plain 7 "(a)+(b)" ≡ "(a)+(b)"
unfolding strip_parens in_parens inside is_balanced_parens is_balanced_from without_last
not_one_pair = refl

is_balanced_parens-Balanced_example : (is_balanced_parens "(a)(b)" ≡ true) ↔ Balanced "(a)(b)"
is_balanced_parens-Balanced_example = is_balanced_parens-Balanced "(a)(b)"
