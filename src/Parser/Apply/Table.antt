-- ===== src/Parser/Apply/Table.antt =====
-- internal/parser/mutation.go and index_mutation.go: what changes a table as a whole, its
-- constraints and its indexes.
use migra_go.Model.Store.{ColumnRef}
use migra_go.Prelude.{
  ℕ, String, Bool, true, false, Option, none, some, List, [], ◌∷◌, map, put, delete, get, has,
  str_eq, if◌then◌else◌,
}
use migra_go.Model.Objects.{PrimaryKey, Constraint, Index}
use migra_go.Model.Store.{
  TableRef, Store, State, allocate, get_or_create_namespace, put_namespace, new_table_ref,
  add_column_ref,
}
use migra_go.Model.Store.Find.{find_table}
use migra_go.Parser.Outcome.{Outcome, applied, rejected, not_found, already_exists, type_mismatch}

-- ns.Tables[table] = t, in a namespace that is there or is created.
unfoldable pub put_table : String → String → TableRef → State → State
unfolding get_or_create_namespace put_namespace
put_table schema table t s =
    let ns = get_or_create_namespace schema s in
    put_namespace schema (record ns { tables = put table t ns.tables }) s

abbrev with_table_name : String → Constraint → Constraint
with_table_name table c = if str_eq c.table "" then record c { table = table } else c

abbrev add_constraint_to : String → Constraint → TableRef → TableRef
add_constraint_to table c t = record t {
  constraints = put c.name (with_table_name table c) t.constraints;
}

unfoldable pub add_constraints : List Constraint → TableRef → TableRef
add_constraints [] t = t
add_constraints (c ∷ cs) t = add_constraints cs (add_constraint_to t.name c t)

abbrev or_key : Option PrimaryKey → Option PrimaryKey → Option PrimaryKey
or_key none old = old
or_key (some pk) old = some pk

unfoldable pub apply_table_metadata : Option PrimaryKey → List Constraint → TableRef → TableRef
unfolding add_constraints
apply_table_metadata pk cs t =
    add_constraints cs (record t { primary_key = or_key pk t.primary_key })

-- The store and the table after a loop over columns, and whether it ended with a type mismatch.
pub record Merged : Type 0 where
  pub mismatch : Bool
  pub store : Store
  pub table : TableRef

abbrev merge_one : Store → TableRef → ColumnRef → Option ℕ → Merged → Merged → Merged
merge_one st t col none added kept = added
merge_one st t col (some p) added kept =
    if str_eq (st.cell p).data_type col.data_type
    then kept
    else record { mismatch = true; store = st; table = t }

-- The columns of CREATE TABLE, into a table that ALTER TABLE has begun.
unfoldable pub merge_columns : List ColumnRef → Store → TableRef → Merged
unfolding allocate add_column_ref
merge_columns [] st t = record { mismatch = false; store = st; table = t }
merge_columns (col ∷ cols) st t =
    let added = merge_columns cols (allocate col st) (add_column_ref st.next col.name t) in
    let kept = merge_columns cols st t in
    merge_one st t col (get col.name t.column_by_name) added kept

-- The columns of CREATE TABLE, into a new table. `&m.Columns[i]` is an element of a slice that only
-- this mutation has, so it is a new variable here.
unfoldable pub add_columns : List ColumnRef → Store → TableRef → Store × TableRef
unfolding allocate add_column_ref
add_columns [] st t = (st, t)
add_columns (col ∷ cols) st t =
    add_columns cols (allocate col st) (add_column_ref st.next col.name t)

abbrev put_with_store : String → String → Store → TableRef → State → State
put_with_store schema name st t s = put_table schema name t (record s { store = st })

abbrev finish_merge :
    String → String → Option PrimaryKey → List Constraint → State → Merged → Outcome × State
finish_merge schema name pk cs s m =
    if m.mismatch then (rejected type_mismatch, put_with_store schema name m.store m.table s) else (
      applied,
      put_with_store schema name m.store
          (apply_table_metadata pk cs (record m.table { is_placeholder = false })) s,
    )

abbrev pub create_in :
    String
    → String
    → List ColumnRef
    → Option PrimaryKey
    → List Constraint
    → State
    → Option TableRef
    → Outcome × State
create_in schema name cols pk cs s none =
    let (st, t) = add_columns cols s.store (new_table_ref schema name) in
    (applied, put_with_store schema name st (apply_table_metadata pk cs t) s)
create_in schema name cols pk cs s (some t) =
    let merged = finish_merge schema name pk cs s (merge_columns cols s.store t) in
    if t.is_placeholder then merged else (rejected already_exists, s)

unfoldable pub apply_create_table :
    String → String → List ColumnRef → Option PrimaryKey → List Constraint → State → Outcome × State
unfolding put_table apply_table_metadata merge_columns add_columns find_table new_table_ref
apply_create_table schema name cols pk cs s =
    create_in schema name cols pk cs s (find_table schema name s)

-- Change a table that must be there.
abbrev pub change_table :
    String → String → (TableRef → TableRef) → State → Option TableRef → Outcome × State
change_table schema table f s none = (rejected not_found, s)
change_table schema table f s (some t) = (applied, put_table schema table (f t) s)

unfoldable pub apply_add_constraint : String → String → Constraint → State → Outcome × State
unfolding put_table find_table
apply_add_constraint schema table c s =
    change_table schema table (add_constraint_to table c) s (find_table schema table s)

unfoldable pub apply_drop_constraint : String → String → String → State → Outcome × State
unfolding put_table find_table
apply_drop_constraint schema table name s =
    change_table schema table (λ t. record t { constraints = delete name t.constraints }) s
      (find_table schema table s)

abbrev index_key : Index → Option PrimaryKey → Option PrimaryKey
index_key index old =
    if index.primary
    then some (record { name = index.name; columns = map (λ e. e.name) index.elements })
    else old

abbrev pub index_in : String → Index → State → Option TableRef → Outcome × State
index_in schema index s none =
    (rejected not_found, put_namespace schema (get_or_create_namespace schema s) s)
index_in schema index s (some t) =
    if has index.name t.indexes
    then (if index.if_not_exists then (applied, s) else (rejected already_exists, s))
    else (
      applied,
      put_table schema index.table
          (record t {
            primary_key = index_key index t.primary_key;
            indexes = put index.name index t.indexes;
          })
          s,
    )

unfoldable pub apply_create_index : String → Index → State → Outcome × State
unfolding put_table find_table put_namespace get_or_create_namespace
apply_create_index schema index s = index_in schema index s (find_table schema index.table s)
