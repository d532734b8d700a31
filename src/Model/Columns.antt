-- ===== src/Model/Columns.antt =====
-- internal/model/table.go: the operations that keep a table's columns and their two lookup tables.
pub mod Consistent
pub mod Remove
use migra_go.Prelude.{
  ℕ, zero, suc, ◌-◌, String, Bool, true, false, Option, none, some, List, [], ◌∷◌, ◌++◌, Map, get,
  put, delete, get_elem?, length, nat_eq, ltb, if◌then◌else◌,
}
use migra_go.Model.Objects.{Column, Table}

unfoldable pub new_table : String → String → Table
new_table schema name = record {
  schema = schema;
  name = name;
  columns = [];
  column_by_name = [];
  column_index = [];
  primary_key = none;
  constraints = [];
  indexes = [];
  is_placeholder = false;
}

unfoldable pub add_column : Column → Table → Table
add_column col t = record t {
  column_index = put col.name (length t.columns) t.column_index;
  columns = t.columns ++ col ∷ [];
  column_by_name = put col.name col t.column_by_name;
}

-- l[i] = v
abbrev pub set_at : List Column → ℕ → Column → List Column
set_at [] i v = []
set_at (x ∷ l) zero v = v ∷ l
set_at (x ∷ l) (suc i) v = x ∷ set_at l i v

-- l[:n]
abbrev pub take : ℕ → List Column → List Column
take zero l = []
take (suc n) [] = []
take (suc n) (x ∷ l) = x ∷ take n l

-- The last column moves to the place of the one that goes. `none` where the code would panic.
abbrev pub move_last : ℕ → Option Column → Table → Option Table
move_last idx none t = none
move_last idx (some col) t = some (record t {
  columns = take (length t.columns - 1) (set_at t.columns idx col);
  column_index = put col.name idx t.column_index;
})

abbrev pub remove_at : String → Option ℕ → Table → Option Table
remove_at name none t = some t
remove_at name (some idx) t =
    let t' = record t {
      column_by_name = delete name t.column_by_name;
      column_index = delete name t.column_index;
    } in
    if nat_eq (suc idx) (length t.columns)
    then some (record t' { columns = take (length t.columns - 1) t.columns })
    else if ltb idx (length t.columns)
    then move_last idx (get_elem? t.columns (length t.columns - 1)) t'
    else none

unfoldable pub remove_column : String → Table → Option Table
remove_column name t = remove_at name (get name t.column_index) t
