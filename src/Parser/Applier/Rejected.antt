-- ===== src/Parser/Applier/Rejected.antt =====
-- What a rejected mutation leaves behind.
use migra_go.Model.Store.{ColumnRef}
use migra_go.Prelude.{
  ℕ, String, true, false, not, ◌&&◌, Option, none, some, List, ◌≡◌, ◌≢◌, inl, inr, refl, has,
  str_eq, if_ind, Option-cases,
}
use migra_go.Model.Objects.{PrimaryKey, Constraint, Index}
use migra_go.Model.Store.{
  TableRef, State, get_or_create_namespace, put_namespace, remove_column_ref,
}
use migra_go.Model.Store.Find.{find_table, resolve_column}
use migra_go.Parser.Outcome.{ApplyError, Outcome, applied, rejected, panicked, type_mismatch}
use migra_go.Parser.Mutation.{
  Mutation, create_table_mutation, add_column_mutation, create_enum_type_mutation,
  drop_column_mutation, alter_column_type_mutation, set_not_null_mutation, drop_not_null_mutation,
  set_default_mutation, drop_default_mutation, add_constraint_mutation, drop_constraint_mutation,
  rename_column_mutation, create_index_mutation, create_schema_mutation, create_view_mutation,
  create_sequence_mutation, create_extension_mutation,
}
use migra_go.Parser.Apply.{apply}
use migra_go.Parser.Apply.Table.{
  merge_columns, change_table, apply_create_table, apply_add_constraint, apply_drop_constraint,
  apply_create_index,
}
use migra_go.Parser.Apply.Column.{
  change_at, set_default_at, retype_at, rename_at, drop_from, apply_add_column, apply_drop_column,
  apply_alter_column_type, apply_set_not_null, apply_drop_not_null, apply_set_default,
  apply_drop_default, apply_rename_column,
}
use migra_go.Parser.Apply.Named.{
  apply_create_enum_type, apply_create_schema, apply_create_view, apply_create_sequence,
  apply_create_extension,
}
use migra_go.Parser.Sound.Find.{find_table-same_tables}

-- The same tables are found, and the columns are what they were.
pub record SameTables (s s' : State) : Type 0 where
  pub same_store : s'.store ≡ s.store
  pub same_table : (schema table : String) → find_table schema table s' ≡ find_table schema table s

-- An error other than a type mismatch leaves the same tables.
abbrev pub Undone : State → Outcome × State → Type 0
Undone s r = (e : ApplyError) → r.0 ≡ rejected e → e ≢ type_mismatch → SameTables s r.1

SameTables-refl : (s : State) → SameTables s s
SameTables-refl s = record { same_store = refl; same_table = λ schema table. refl }

unchanged-Undone : (s : State) (o : Outcome) → Undone s (o, s)
unchanged-Undone s o e r ne = SameTables-refl s

applied-Undone : (s s' : State) → Undone s (applied, s')
applied-Undone s s' e r ne = absurd (cc r)

panicked-Undone : (s s' : State) → Undone s (panicked, s')
panicked-Undone s s' e r ne = absurd (cc r)

rejected_inj : (a b : ApplyError) → rejected a ≡ rejected b → a ≡ b
rejected_inj a b e = cc e

mismatch-Undone : (s s' : State) → Undone s (rejected type_mismatch, s')
mismatch-Undone s s' e r ne = absurd (ne (cc r))

create_table-Undone :
    (schema name : String) (cols : List ColumnRef) (pk : Option PrimaryKey) (cs : List Constraint)
    (s : State)
    → Undone s (apply_create_table schema name cols pk cs s)
unfolding apply_create_table
create_table-Undone schema name cols pk cs s = elim (Option-cases (find_table schema name s)) [
  | inl absent ↦ rw absent (applied-Undone s _)
  | inr (t, at) ↦ rw at (
      if_ind (Undone s) t.is_placeholder
        (λ _.
          if_ind (Undone s) (merge_columns cols s.store t).mismatch (λ _. mismatch-Undone s _)
            (λ _. applied-Undone s _))
        (λ _. unchanged-Undone s _))
]

change_table-Undone :
    (schema table : String) (f : TableRef → TableRef) (s : State) (o : Option TableRef)
    → Undone s (change_table schema table f s o)
change_table-Undone schema table f s none = unchanged-Undone s _
change_table-Undone schema table f s (some t) = applied-Undone s _

change_at-Undone :
    (f : ColumnRef → ColumnRef) (s : State) (o : Option ℕ) → Undone s (change_at f s o)
change_at-Undone f s none = unchanged-Undone s _
change_at-Undone f s (some p) = applied-Undone s _

set_default_at-Undone :
    (default_expr : String) (s : State) (o : Option ℕ) → Undone s (set_default_at default_expr s o)
set_default_at-Undone default_expr s none = unchanged-Undone s _
set_default_at-Undone default_expr s (some p) = applied-Undone s _

retype_at-Undone :
    (from_type to_type : String) (s : State) (o : Option ℕ)
    → Undone s (retype_at from_type to_type s o)
retype_at-Undone from_type to_type s none = unchanged-Undone s _
retype_at-Undone from_type to_type s (some p) =
    if_ind (Undone s)
      (not (str_eq from_type "") && not (str_eq (s.store.cell p).data_type from_type))
      (λ _. unchanged-Undone s _) (λ _. applied-Undone s _)

create_index-Undone :
    (schema : String) (index : Index) (s : State) → Undone s (apply_create_index schema index s)
unfolding apply_create_index
create_index-Undone schema index s = elim (Option-cases (find_table schema index.table s)) [
  | inl absent ↦ rw absent (λ e r ne. record {
    same_store = unfold put_namespace in refl;
    same_table = λ schema' table.
        find_table-same_tables schema' table schema (get_or_create_namespace schema s) s refl;
  })
  | inr (t, at) ↦ rw at (
      if_ind (Undone s) (has index.name t.indexes)
        (λ _.
          if_ind (Undone s) index.if_not_exists (λ _. unchanged-Undone s _)
            (λ _. unchanged-Undone s _))
        (λ _. applied-Undone s _))
]

drop_from-Undone :
    (schema table column : String) (s : State) (o : Option TableRef)
    → Undone s (drop_from schema table column s o)
drop_from-Undone schema table column s none = unchanged-Undone s _
drop_from-Undone schema table column s (some t) =
    if_ind (λ o. Undone s (o, (drop_from schema table column s (some t)).1))
      (remove_column_ref s.store column t).panics (λ _. panicked-Undone s _)
      (λ _. applied-Undone s _)

drop_column-Undone :
    (schema table column : String) (s : State) → Undone s (apply_drop_column schema table column s)
unfolding apply_drop_column
drop_column-Undone schema table column s =
    elim (Option-cases (resolve_column schema table column s)) [
      | inl absent ↦ rw absent (unchanged-Undone s _)
      | inr (p, at) ↦ rw at (drop_from-Undone schema table column s _)
    ]

rename_at-Undone :
    (schema table old_name new_name : String) (s : State) (t : TableRef) (o : Option ℕ)
    → Undone s (rename_at schema table old_name new_name s t o)
rename_at-Undone schema table old_name new_name s t none = unchanged-Undone s _
rename_at-Undone schema table old_name new_name s t (some p) =
    if_ind (Undone s) (has new_name t.column_by_name) (λ _. unchanged-Undone s _)
      (λ _. applied-Undone s _)

rename_column-Undone :
    (schema table old_name new_name : String) (s : State)
    → Undone s (apply_rename_column schema table old_name new_name s)
unfolding apply_rename_column
rename_column-Undone schema table old_name new_name s =
    elim (Option-cases (find_table schema table s)) [
      | inl absent ↦ rw absent (applied-Undone s _)
      | inr (t, at) ↦ rw at (
          if_ind (Undone s) t.is_placeholder (λ _. unchanged-Undone s _)
            (λ _. rename_at-Undone schema table old_name new_name s t _))
    ]

apply-Undone : (m : Mutation) (s : State) → Undone s (apply m s)
unfolding apply apply_add_column apply_add_constraint apply_drop_constraint apply_alter_column_type
    apply_set_not_null apply_drop_not_null apply_set_default apply_drop_default
    apply_create_enum_type apply_create_schema apply_create_view apply_create_sequence
    apply_create_extension
apply-Undone (create_table_mutation schema name cols pk cs) s =
    create_table-Undone schema name cols pk cs s
apply-Undone (add_column_mutation schema table col) s = applied-Undone s _
apply-Undone (create_enum_type_mutation schema name labels) s =
    if_ind (Undone s) (has name (get_or_create_namespace schema s).types)
      (λ _. unchanged-Undone s _) (λ _. applied-Undone s _)
apply-Undone (drop_column_mutation schema table column) s = drop_column-Undone schema table column s
apply-Undone (alter_column_type_mutation schema table column from_type to_type _) s =
    retype_at-Undone from_type to_type s _
apply-Undone (set_not_null_mutation schema table column) s =
    change_at-Undone (λ c. record c { is_nullable = false }) s _
apply-Undone (drop_not_null_mutation schema table column) s =
    change_at-Undone (λ c. record c { is_nullable = true }) s _
apply-Undone (set_default_mutation schema table column default_expr) s =
    set_default_at-Undone default_expr s _
apply-Undone (drop_default_mutation schema table column) s =
    change_at-Undone (λ c. record c { default_expr = none }) s _
apply-Undone (add_constraint_mutation schema table c) s = change_table-Undone schema table _ s _
apply-Undone (drop_constraint_mutation schema table name) s = change_table-Undone schema table _ s _
apply-Undone (rename_column_mutation schema table old_name new_name) s =
    rename_column-Undone schema table old_name new_name s
apply-Undone (create_index_mutation schema index) s = create_index-Undone schema index s
apply-Undone (create_schema_mutation schema) s = applied-Undone s _
apply-Undone (create_view_mutation schema view) s = applied-Undone s _
apply-Undone (create_sequence_mutation schema sequence) s = applied-Undone s _
apply-Undone (create_extension_mutation schema extension) s = applied-Undone s _

-- Where a mutation is rejected for another reason than a type mismatch, every table that the schema
-- finds and every column stays as it was.
pub apply-SameTables :
    (m : Mutation) (s : State) (e : ApplyError)
    → (apply m s).0 ≡ rejected e
    → e ≢ type_mismatch
    → SameTables s (apply m s).1
apply-SameTables m s e r ne = apply-Undone m s e r ne
