-- ===== src/Parser/Apply/Column.antt =====
-- internal/parser/mutation.go and rename_column_mutation.go: what changes a column.
use migra_go.Model.Store.{ColumnRef}
use migra_go.Prelude.{
  ℕ, String, true, false, not, ◌&&◌, Option, none, some, put, delete, get, has, str_eq,
  if◌then◌else◌,
}
use migra_go.Model.Store.{
  TableRef, State, Removal, write, allocate, allocate_text, new_table_ref, add_column_ref,
  remove_column_ref,
}
use migra_go.Model.Store.Find.{find_table, resolve_column}
use migra_go.Parser.Outcome.{
  Outcome, applied, rejected, panicked, not_found, already_exists, type_mismatch,
}
use migra_go.Parser.Apply.Table.{put_table}

-- A table that ALTER TABLE meets before CREATE TABLE.
unfoldable pub placeholder_table : String → String → TableRef
unfolding new_table_ref
placeholder_table schema table = record (new_table_ref schema table) { is_placeholder = true }

abbrev pub or_placeholder : String → String → Option TableRef → TableRef
or_placeholder schema table none = placeholder_table schema table
or_placeholder schema table (some t) = t

unfoldable pub apply_add_column : String → String → ColumnRef → State → Outcome × State
unfolding placeholder_table find_table put_table allocate add_column_ref
apply_add_column schema table col s =
    let t = or_placeholder schema table (find_table schema table s) in
    (
      applied,
      put_table schema table (add_column_ref s.store.next col.name t)
          (record s { store = allocate col s.store }),
    )

abbrev pub removed_in : String → String → State → Removal → Outcome × State
removed_in schema table s r =
    (if r.panics then panicked else applied, put_table schema table r.table s)

abbrev pub drop_from : String → String → String → State → Option TableRef → Outcome × State
drop_from schema table column s none = (rejected not_found, s)
drop_from schema table column s (some t) =
    removed_in schema table s (remove_column_ref s.store column t)

abbrev pub drop_resolved : String → String → String → State → Option ℕ → Outcome × State
drop_resolved schema table column s none = (rejected not_found, s)
drop_resolved schema table column s (some _) =
    drop_from schema table column s (find_table schema table s)

unfoldable pub apply_drop_column : String → String → String → State → Outcome × State
unfolding resolve_column find_table put_table remove_column_ref
apply_drop_column schema table column s =
    drop_resolved schema table column s (resolve_column schema table column s)

abbrev pub assign : (ColumnRef → ColumnRef) → State → ℕ → State
assign f s p = record s { store = write p (f (s.store.cell p)) s.store }

-- Change the column that the address leads to.
abbrev pub change_at : (ColumnRef → ColumnRef) → State → Option ℕ → Outcome × State
change_at f s none = (rejected not_found, s)
change_at f s (some p) = (applied, assign f s p)

abbrev pub retype_at : String → String → State → Option ℕ → Outcome × State
retype_at from_type to_type s none = (rejected not_found, s)
retype_at from_type to_type s (some p) =
    if not (str_eq from_type "") && not (str_eq (s.store.cell p).data_type from_type)
    then (rejected type_mismatch, s)
    else (applied, assign (λ c. record c { data_type = to_type }) s p)

unfoldable pub apply_alter_column_type :
    String → String → String → String → String → State → Outcome × State
unfolding resolve_column write
apply_alter_column_type schema table column from_type to_type s =
    retype_at from_type to_type s (resolve_column schema table column s)

unfoldable pub apply_set_not_null : String → String → String → State → Outcome × State
unfolding resolve_column write
apply_set_not_null schema table column s =
    change_at (λ c. record c { is_nullable = false }) s (resolve_column schema table column s)

unfoldable pub apply_drop_not_null : String → String → String → State → Outcome × State
unfolding resolve_column write
apply_drop_not_null schema table column s =
    change_at (λ c. record c { is_nullable = true }) s (resolve_column schema table column s)

-- `&m.DefaultExpr`: the receiver is a copy, so its field is a new variable.
abbrev pub set_default_at : String → State → Option ℕ → Outcome × State
set_default_at default_expr s none = (rejected not_found, s)
set_default_at default_expr s (some p) = (
  applied,
  assign (λ c. record c { default_expr = some s.store.next_text })
      (record s { store = allocate_text default_expr s.store }) p,
)

unfoldable pub apply_set_default : String → String → String → String → State → Outcome × State
unfolding resolve_column write allocate_text
apply_set_default schema table column default_expr s =
    set_default_at default_expr s (resolve_column schema table column s)

unfoldable pub apply_drop_default : String → String → String → State → Outcome × State
unfolding resolve_column write
apply_drop_default schema table column s =
    change_at (λ c. record c { default_expr = none }) s (resolve_column schema table column s)

abbrev pub renamed_ref : String → String → ℕ → TableRef → TableRef
renamed_ref old_name new_name p t = record t {
  column_by_name = put new_name p (delete old_name t.column_by_name);
}

abbrev pub rename_at :
    String → String → String → String → State → TableRef → Option ℕ → Outcome × State
rename_at schema table old_name new_name s t none = (rejected not_found, s)
rename_at schema table old_name new_name s t (some p) =
    if has new_name t.column_by_name then (rejected already_exists, s) else (
      applied,
      put_table schema table (renamed_ref old_name new_name p t)
          (assign (λ c. record c { name = new_name }) s p),
    )

abbrev pub rename_in : String → String → String → String → State → Option TableRef → Outcome × State
rename_in schema table old_name new_name s none =
    (applied, put_table schema table (placeholder_table schema table) s)
rename_in schema table old_name new_name s (some t) =
    if t.is_placeholder
    then (applied, s)
    else rename_at schema table old_name new_name s t (get old_name t.column_by_name)

unfoldable pub apply_rename_column : String → String → String → String → State → Outcome × State
unfolding placeholder_table find_table put_table write
apply_rename_column schema table old_name new_name s =
    rename_in schema table old_name new_name s (find_table schema table s)
