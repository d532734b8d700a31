-- ===== src/Normalize.antt =====
-- internal/normalize/normalize.go: names, types, defaults and definitions in one form, in place. The
-- functions of Go's packages strings and regexp that look at letters, white space or patterns are
-- fields of `TextFunctions`.
pub mod Text
pub mod Columns
pub mod Termination
pub mod Suffix
pub mod Types
pub mod Keeps
pub mod Caller
pub mod Balanced
use migra_go.Prelude.{
  ℕ, String, Bool, true, false, ◌&&◌, Option, none, some, List, [], ◌∷◌, Map, join, map, put,
  if◌then◌else◌,
}
use migra_go.Model.Objects.{IndexElem, Index, Constraint, EnumType, View, Sequence, Extension}
use migra_go.Model.Store.{TableRef, NamespaceRef, Store, write, write_text}
use migra_go.Model.Clone.Values.{map_values}
use migra_go.Normalize.Text.{
  TextFunctions, normalize_identifier, normalize_data_type, normalize_default_expr, trim_suffix,
}

module _ (tf : TextFunctions) where
  abbrev squeezed : String → String
  squeezed s = join " " (tf.fields s)

  unfoldable pub normalize_constraint_def : String → String
  normalize_constraint_def def = squeezed (tf.to_lower def)

  -- *d = normalizeDefaultExpr(*d), if d is not nil
  unfoldable pub canonicalize_default : Option ℕ → Store → Store
  unfolding write_text normalize_default_expr
  canonicalize_default none st = st
  canonicalize_default (some a) st = write_text a (normalize_default_expr tf (st.text a)) st

  -- In place: the column keeps its pointer to the default.
  unfoldable pub canonicalize_column : ℕ → Store → Store
  unfolding write normalize_identifier normalize_data_type canonicalize_default
  canonicalize_column p st =
      let col = st.cell p in
      canonicalize_default col.default_expr (
        write p
          (record col {
            name = normalize_identifier tf col.name;
            data_type = normalize_data_type tf col.data_type;
          })
          st)

  unfoldable pub canonicalize_enum_type : EnumType → EnumType
  unfolding normalize_identifier
  canonicalize_enum_type e = record e { name = normalize_identifier tf e.name }

  unfoldable pub canonicalize_constraint : Constraint → Constraint
  unfolding normalize_identifier normalize_constraint_def
  canonicalize_constraint c = record c {
    name = normalize_identifier tf c.name;
    definition = normalize_constraint_def c.definition;
  }

  abbrev plain_elem : String → IndexElem
  plain_elem col = record {
    name = col;
    expr = "";
    index_col_name = "";
    collation = "";
    opclass = "";
    ordering = "default";
    nulls_ordering = "default";
  }

  abbrev elements_of : List IndexElem → List String → List IndexElem
  elements_of [] columns = map plain_elem columns
  elements_of (e ∷ es) columns = e ∷ es

  unfoldable pub canonicalize_index : Index → Index
  unfolding normalize_identifier
  canonicalize_index idx = record idx {
    name = normalize_identifier tf idx.name;
    elements = elements_of idx.elements idx.columns;
    definition = squeezed idx.definition;
    where_clause = squeezed idx.where_clause;
  }

  unfoldable pub canonicalize_view : View → View
  unfolding normalize_identifier trim_suffix
  canonicalize_view v = record v {
    name = normalize_identifier tf v.name;
    definition = trim_suffix b';' (tf.trim_space v.definition);
  }

  unfoldable pub canonicalize_sequence : Sequence → Sequence
  unfolding normalize_identifier normalize_data_type
  canonicalize_sequence s = record s {
    name = normalize_identifier tf s.name;
    data_type = normalize_data_type tf s.data_type;
  }

  unfoldable pub canonicalize_extension : Extension → Extension
  unfolding normalize_identifier
  canonicalize_extension e = record e { name = normalize_identifier tf e.name }

  -- The loop over the columns, with the new map by name.
  unfoldable pub canonicalize_columns : List ℕ → Store → Map ℕ → Store × Map ℕ
  unfolding canonicalize_column
  canonicalize_columns [] st by_name = (st, by_name)
  canonicalize_columns (p ∷ ps) st by_name =
      let st' = canonicalize_column p st in
      canonicalize_columns ps st' (put (st'.cell p).name p by_name)

  unfoldable pub canonicalize_table : Store → TableRef → Store × TableRef
  unfolding canonicalize_columns canonicalize_constraint canonicalize_index map_values
  canonicalize_table st t =
      let (st', by_name) = canonicalize_columns t.columns st [] in
      (
        st',
        record t {
          column_by_name = by_name;
          constraints = map_values canonicalize_constraint t.constraints;
          indexes = map_values canonicalize_index t.indexes;
        },
      )

  unfoldable pub canonicalize_tables : Store → Map TableRef → Store × Map TableRef
  unfolding canonicalize_table
  canonicalize_tables st [] = (st, [])
  canonicalize_tables st ((name, t) ∷ m) =
      let (st', t') = canonicalize_table st t in
      let (st'', m') = canonicalize_tables st' m in (st'', (name, t') ∷ m')

  unfoldable pub canonicalize_namespace : Store → NamespaceRef → Store × NamespaceRef
  unfolding canonicalize_tables canonicalize_enum_type canonicalize_view canonicalize_sequence
      canonicalize_extension map_values
  canonicalize_namespace st ns =
      let (st', tables) = canonicalize_tables st ns.tables in
      (
        st',
        record ns {
          tables = tables;
          types = map_values canonicalize_enum_type ns.types;
          views = map_values canonicalize_view ns.views;
          sequences = map_values canonicalize_sequence ns.sequences;
          extensions = map_values canonicalize_extension ns.extensions;
        },
      )

  unfoldable pub canonicalize_schema : Store → Map NamespaceRef → Store × Map NamespaceRef
  unfolding canonicalize_namespace
  canonicalize_schema st [] = (st, [])
  canonicalize_schema st ((name, ns) ∷ m) =
      let (st', ns') = canonicalize_namespace st ns in
      let (st'', m') = canonicalize_schema st' m in (st'', (name, ns') ∷ m')
