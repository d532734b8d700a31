-- ===== src/Model/Clone.antt =====
-- internal/model/clone.go: deep copies. Columns, which a table's list and its maps share, are new
-- objects of the store; everything else is a value, copied field by field. Lists and maps that are
-- nil in Go are empty here.
pub mod Values
pub mod Same
pub mod New
pub mod Maps
pub mod Columns
pub mod Separate
pub mod Deep
use migra_go.Prelude.{ℕ, suc, Option, none, some, List, [], ◌∷◌, ◌++◌, Map, put}
use migra_go.Model.Store.{TableRef, NamespaceRef, ColumnRef, Store, allocate, allocate_text}
use migra_go.Model.Clone.Values.{
  map_values, clone_primary_key, clone_enum_type, clone_constraint, clone_index, clone_view,
  clone_sequence, clone_extension,
}

-- The store with the copied text, and its address.
unfoldable pub clone_string_ptr : Option ℕ → Store → Store × Option ℕ
unfolding allocate_text
clone_string_ptr none st = (st, none)
clone_string_ptr (some a) st = (allocate_text (st.text a) st, some st.next_text)

unfoldable pub clone_column : ColumnRef → Store → Store × ColumnRef
unfolding clone_string_ptr
clone_column c st =
    let (st', default_expr) = clone_string_ptr c.default_expr st in
    (
      st',
      record {
        name = c.name;
        data_type = c.data_type;
        is_nullable = c.is_nullable;
        default_expr = default_expr;
        is_identity = c.is_identity;
        identity_kind = c.identity_kind;
        collation = c.collation;
      },
    )

-- The loop over the columns, from index i on.
unfoldable pub clone_columns : ℕ → List ℕ → Store → TableRef → Store × TableRef
unfolding allocate clone_column
clone_columns i [] st ct = (st, ct)
clone_columns i (p ∷ ps) st ct =
    let col = st.cell p in
    let (st', cloned) = clone_column col st in
    clone_columns (suc i) ps (allocate cloned st') (record ct {
      columns = ct.columns ++ st'.next ∷ [];
      column_by_name = put col.name st'.next ct.column_by_name;
      column_index = put col.name i ct.column_index;
    })

-- The new table before the loop; the other maps are filled from the old ones.
unfoldable pub clone_frame : TableRef → TableRef
unfolding map_values clone_primary_key clone_constraint clone_index
clone_frame t = record {
  schema = t.schema;
  name = t.name;
  columns = [];
  column_by_name = [];
  column_index = [];
  primary_key = clone_primary_key t.primary_key;
  constraints = map_values clone_constraint t.constraints;
  indexes = map_values clone_index t.indexes;
  is_placeholder = t.is_placeholder;
}

unfoldable pub clone_table : Store → TableRef → Store × TableRef
unfolding clone_columns clone_frame
clone_table st t = clone_columns 0 t.columns st (clone_frame t)

unfoldable pub clone_tables : Store → Map TableRef → Store × Map TableRef
unfolding clone_table
clone_tables st [] = (st, [])
clone_tables st ((name, t) ∷ m) =
    let (st', t') = clone_table st t in
    let (st'', m') = clone_tables st' m in (st'', (name, t') ∷ m')

unfoldable pub clone_namespace : Store → NamespaceRef → Store × NamespaceRef
unfolding clone_tables map_values clone_enum_type clone_view clone_sequence clone_extension
clone_namespace st ns =
    let (st', tables) = clone_tables st ns.tables in
    (
      st',
      record {
        name = ns.name;
        tables = tables;
        types = map_values clone_enum_type ns.types;
        views = map_values clone_view ns.views;
        sequences = map_values clone_sequence ns.sequences;
        extensions = map_values clone_extension ns.extensions;
      },
    )

unfoldable pub clone_schema : Store → Map NamespaceRef → Store × Map NamespaceRef
unfolding clone_namespace
clone_schema st [] = (st, [])
clone_schema st ((name, ns) ∷ m) =
    let (st', ns') = clone_namespace st ns in
    let (st'', m') = clone_schema st' m in (st'', (name, ns') ∷ m')
