-- ===== src/Parser/Sound/Columns.antt =====
-- Soundness and the mutations of internal/parser that add, drop and rename a column.
use migra_go.Model.Store.{ColumnRef}
use migra_go.Prelude.{
  ℕ, suc, ◌-◌, String, some, ◌≡◌, inl, inr, refl, arith, get, get-delete, delete, length, get_elem?,
  has, nat_eq, ltb, if_ind, Option-cases,
}
use migra_go.Model.Store.{
  TableRef, Store, State, Removal, move_last, remove_column_ref, new_table_ref, allocate,
  add_column_ref,
}
use migra_go.Model.Store.Find.{find_table, resolve_column}
use migra_go.Parser.Apply.Column.{
  placeholder_table, or_placeholder, drop_from, apply_add_column, apply_drop_column, rename_at,
  apply_rename_column,
}
use migra_go.Parser.Sound.{IsSound}
use migra_go.Parser.Sound.Grows.{Grows-refl, Grows-add_column}
use migra_go.Parser.Sound.Steps.{Stands, put_grown-IsSound}
use migra_go.Parser.Sound.Rename.{rename-IsSound}
use migra_go.Parser.Sound.Tables.{LeavesSound, find_table-Stands, no_columns-Stands}

pub add_column-IsSound :
    (schema table : String) (col : ColumnRef) (s : State)
    → IsSound s
    → LeavesSound (apply_add_column schema table col s)
unfolding apply_add_column
add_column-IsSound schema table col s h =
    let t = or_placeholder schema table (find_table schema table s) in
    put_grown-IsSound schema table s t (add_column_ref s.store.next col.name t)
      (allocate col s.store) h stands (Grows-add_column col s.store t)
  where
    stands : Stands schema table (or_placeholder schema table (find_table schema table s)) s
    stands = elim (Option-cases (find_table schema table s)) [
      | inl absent ↦ rw absent (
          no_columns-Stands schema table s (placeholder_table schema table)
            (unfold placeholder_table new_table_ref in refl))
      | inr (t, at) ↦ rw at (find_table-Stands schema table s t at)
    ]

-- A removal takes names away and adds none.
abbrev Loses : String → TableRef → Removal → Type 0
Loses name t r =
    (k : String) (p : ℕ) → get k r.table.column_by_name ≡ some p → get k t.column_by_name ≡ some p

remove_column_ref-Loses :
    (st : Store) (name : String) (t : TableRef) → Loses name t (remove_column_ref st name t)
unfolding remove_column_ref
remove_column_ref-Loses st name t = elim (Option-cases (get name t.column_index)) [
  | inl absent ↦ rw absent (λ k p e. e)
  | inr (idx, at) ↦ rw at (
      if_ind (Loses name t) (nat_eq (suc idx) (length t.columns)) (λ _. deleted)
        (λ _. if_ind (Loses name t) (ltb idx (length t.columns)) (λ _. moved idx) (λ _. deleted)))
]
  where
    deleted :
        (k : String) (p : ℕ)
        → get k (delete name t.column_by_name) ≡ some p
        → get k t.column_by_name ≡ some p
    deleted k p e = ground (arith, get-delete name k t.column_by_name)

    moved :
        (idx : ℕ)
        → Loses name t (
            move_last st idx (get_elem? t.columns (length t.columns - 1)) (record t {
              column_by_name = delete name t.column_by_name;
              column_index = delete name t.column_index;
            }))
    moved idx = elim (Option-cases (get_elem? t.columns (length t.columns - 1))) [
      | inl absent ↦ rw absent deleted
      | inr (p, at) ↦ rw at deleted
    ]

drop_from-IsSound :
    (schema table column : String) (s : State)
    → IsSound s
    → LeavesSound (drop_from schema table column s (find_table schema table s))
drop_from-IsSound schema table column s h = elim (Option-cases (find_table schema table s)) [
  | inl absent ↦ rw absent h
  | inr (t, at) ↦ rw at (
      put_grown-IsSound schema table s t _ s.store h (find_table-Stands schema table s t at)
        (record {
          next_grows = omega arith;
          names_kept = λ p lt. refl;
          found = λ k p e. inl (remove_column_ref-Loses s.store column t k p e);
        }))
]

pub drop_column-IsSound :
    (schema table column : String) (s : State)
    → IsSound s
    → LeavesSound (apply_drop_column schema table column s)
unfolding apply_drop_column
drop_column-IsSound schema table column s h =
    elim (Option-cases (resolve_column schema table column s)) [
      | inl absent ↦ rw absent h
      | inr (p, at) ↦ rw at (drop_from-IsSound schema table column s h)
    ]

pub rename_column-IsSound :
    (schema table old_name new_name : String) (s : State)
    → IsSound s
    → LeavesSound (apply_rename_column schema table old_name new_name s)
unfolding apply_rename_column
rename_column-IsSound schema table old_name new_name s h =
    elim (Option-cases (find_table schema table s)) [
      | inl absent ↦
          let t = placeholder_table schema table in
          rw absent (
            put_grown-IsSound schema table s t t s.store h
              (no_columns-Stands schema table s t (unfold placeholder_table new_table_ref in refl))
              (Grows-refl s.store t))
      | inr (t, at) ↦ rw at (if_ind LeavesSound t.is_placeholder (λ _. h) (λ _. in_table t at))
    ]
  where
    in_table :
        (t : TableRef)
        → find_table schema table s ≡ some t
        → LeavesSound (rename_at schema table old_name new_name s t (get old_name t.column_by_name))
    in_table t at = elim (Option-cases (get old_name t.column_by_name)) [
      | inl absent ↦ rw absent h
      | inr (p, found) ↦ rw found (
          if_ind LeavesSound (has new_name t.column_by_name) (λ _. h)
            (λ _.
              rename-IsSound schema table old_name new_name s t p h
                (find_table-Stands schema table s t at) found))
    ]
