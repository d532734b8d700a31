-- ===== src/Parser/Effects.antt =====
-- What ALTER COLUMN TYPE and RENAME COLUMN do to the columns that the schema finds.
use migra_go.Model.Store.{ColumnRef}
use migra_go.Prelude.{
  ℕ, String, Bool, true, false, not, ◌&&◌, none, some, ◌≡◌, ◌⊎◌, inl, inr, refl, sym, ap, ◌∙◌,
  arith, get, get-put, delete, has, Map, str_eq, str_eq_refl, eq_iff, nat_eq, Bool-cases, is_some,
}
use migra_go.Model.Store.{TableRef, State, write, remove_at, remove_column_ref}
use migra_go.Model.Store.Find.{find_table, resolve_column, address_of}
use migra_go.Parser.Outcome.{applied}
use migra_go.Parser.Mutation.{
  alter_column_type_mutation, rename_column_mutation, drop_column_mutation,
}
use migra_go.Parser.Apply.{apply}
use migra_go.Parser.Apply.Table.{put_table}
use migra_go.Parser.Apply.Column.{
  assign, renamed_ref, removed_in, drop_from, drop_resolved, apply_alter_column_type,
  apply_rename_column, apply_drop_column,
}
use migra_go.Parser.Sound.{IsSound}
use migra_go.Parser.Sound.Find.{find_table-put_table}

abbrev retyped : String → ColumnRef → ColumnRef
retyped to_type c = record c { data_type = to_type }

-- Whether the column at q is the one with these names, and has the new type, or is as it was.
abbrev pub RetypedAt : Bool → String → ℕ → State → State → Type 0
RetypedAt true to_type q s s' = s'.store.cell q ≡ retyped to_type (s.store.cell q)
RetypedAt false to_type q s s' = s'.store.cell q ≡ s.store.cell q

abbrev pub same_column : String → String → String → String → String → String → Bool
same_column schema table column schema' table' column' =
    str_eq schema schema' && (str_eq table table' && str_eq column column')

assign-RetypedAt :
    (to_type : String) (s : State) (p q : ℕ) (same : Bool)
    → (same ≡ true → p ≡ q)
    → (p ≡ q → same ≡ true)
    → RetypedAt same to_type q s (assign (retyped to_type) s p)
unfolding write
assign-RetypedAt to_type s p q true yes_same no_other = elim (Bool-cases (nat_eq q p)) [
  | inl same ↦ rw same (ap (λ x. retyped to_type (s.store.cell x)) (yes_same refl))
  | inr other ↦ absurd (ground (arith, yes_same refl))
]
assign-RetypedAt to_type s p q false yes_same no_other = elim (Bool-cases (nat_eq q p)) [
  | inl same ↦ absurd (cc (no_other (ground (arith, same))))
  | inr other ↦ rw other refl
]

-- In a sound schema, where the column is there and the type to change from is not given or is the
-- column's type: ALTER COLUMN TYPE succeeds, and any column that the schema found is still found, at
-- the same place, with the new type and otherwise unchanged if it is the named one, and else as it was.
pub alter_column_type-RetypedAt :
    (schema table column from_type to_type using_expr schema' table' column' : String) (s : State)
    (p q : ℕ)
    → IsSound s
    → resolve_column schema table column s ≡ some p
    → (from_type ≡ "") ⊎ ((s.store.cell p).data_type ≡ from_type)
    → resolve_column schema' table' column' s ≡ some q
    → let r =
        apply (alter_column_type_mutation schema table column from_type to_type using_expr) s in
      (r.0 ≡ applied)
      × (resolve_column schema' table' column' r.1 ≡ some q)
      × RetypedAt (same_column schema table column schema' table' column') to_type q s r.1
unfolding apply apply_alter_column_type
alter_column_type-RetypedAt schema table column from_type to_type using_expr schema' table' column'
      s p q h at from found =
    let passes : (not (str_eq from_type "") && not (str_eq (s.store.cell p).data_type from_type))
        ≡ false =
      elim from [
        | inl any ↦ ground (arith, eq_iff from_type "")
        | inr fits ↦ ground (arith, eq_iff (s.store.cell p).data_type from_type)
      ] in
    rw (at, passes)
      (
        refl,
        (unfold resolve_column find_table in found),
        assign-RetypedAt to_type s p q _ together apart,
      )
  where
    together : same_column schema table column schema' table' column' ≡ true → p ≡ q
    together same =
        let is_schema : schema ≡ schema' = ground (arith, eq_iff schema schema') in
        let is_table : table ≡ table' = ground (arith, eq_iff table table') in
        let is_column : column ≡ column' = ground (arith, eq_iff column column') in
        let there : resolve_column schema' table' column' s ≡ some p =
          rw (sym is_schema, sym is_table, sym is_column) at in
        cc (sym there ∙ found)

    apart : p ≡ q → same_column schema table column schema' table' column' ≡ true
    apart here =
        let (is_schema, is_table) =
          h.owned schema table column schema' table' column' p at (found ∙ ap some (sym here)) in
        let is_column : column ≡ column' =
          sym (h.named schema table column p at)
          ∙ ap (λ x. (s.store.cell x).name) here
          ∙ h.named schema' table' column' q found in
        ground (arith, eq_iff schema schema', eq_iff table table', eq_iff column column')

find_table-put_same :
    (schema table : String) (t : TableRef) (s : State)
    → find_table schema table (put_table schema table t s) ≡ some t
find_table-put_same schema table t s =
    rw (find_table-put_table schema table schema table t s, str_eq_refl schema, str_eq_refl table)
      refl

renaming :
    (schema table old_name new_name : String) (s : State) (t : TableRef) (p : ℕ)
    → find_table schema table s ≡ some t
    → t.is_placeholder ≡ false
    → get old_name t.column_by_name ≡ some p
    → has new_name t.column_by_name ≡ false
    → apply_rename_column schema table old_name new_name s ≡ (
      applied,
      put_table schema table
          (renamed_ref old_name new_name p t)
          (assign (λ c. record c { name = new_name }) s p),
    )
unfolding apply_rename_column
renaming schema table old_name new_name s t p at ready old fresh = rw (at, ready, old, fresh) refl

has-none : (name : String) (m : Map ℕ) → get name m ≡ none → has name m ≡ false
unfolding has
has-none name m e = ap is_some e

-- Dropping a column that is found but has no place.
dropping_unplaced :
    (schema table name : String) (s : State) (t : TableRef) (p : ℕ)
    → find_table schema table s ≡ some t
    → get name t.column_by_name ≡ some p
    → get name t.column_index ≡ none
    → apply_drop_column schema table name s ≡ (applied, put_table schema table t s)
unfolding apply_drop_column resolve_column remove_column_ref
dropping_unplaced schema table name s t p at found unplaced =
    ap (drop_resolved schema table name s) (ap (address_of name) at ∙ found)
    ∙ ap (drop_from schema table name s) at
    ∙ ap (λ place. removed_in schema table s (remove_at s.store name place t)) unplaced

get-renamed :
    (old_name new_name : String) (p : ℕ) (t : TableRef)
    → get new_name (renamed_ref old_name new_name p t).column_by_name ≡ some p
get-renamed old_name new_name p t =
    rw (get-put new_name new_name p (delete old_name t.column_by_name), str_eq_refl new_name) refl

-- RENAME COLUMN leaves the place of the column under the old name: if the table has no column and no
-- place under the new name, the renaming succeeds, and so does dropping the renamed column then, but
-- that changes nothing: the table still has it.
pub drop_column-rename_column :
    (schema table old_name new_name : String) (s : State) (t : TableRef) (p : ℕ)
    → find_table schema table s ≡ some t
    → t.is_placeholder ≡ false
    → get old_name t.column_by_name ≡ some p
    → get new_name t.column_by_name ≡ none
    → get new_name t.column_index ≡ none
    → let s' = (apply (rename_column_mutation schema table old_name new_name) s).1 in
      let r = apply (drop_column_mutation schema table new_name) s' in
      ((apply (rename_column_mutation schema table old_name new_name) s).0 ≡ applied)
      × (r.0 ≡ applied)
      × (find_table schema table r.1 ≡ find_table schema table s')
      × (resolve_column schema table new_name r.1 ≡ some p)
unfolding apply
drop_column-rename_column schema table old_name new_name s t p at ready old fresh unplaced =
    let t' = renamed_ref old_name new_name p t in
    let s' = put_table schema table t' (assign (λ c. record c { name = new_name }) s p) in
    let here =
      find_table-put_same schema table t' (assign (λ c. record c { name = new_name }) s p) in
    let after = find_table-put_same schema table t' s' in
    let found = get-renamed old_name new_name p t in
    let renames =
      renaming schema table old_name new_name s t p at ready old
        (has-none new_name t.column_by_name fresh) in
    let drops = dropping_unplaced schema table new_name s' t' p here found unplaced in
    rw (renames, drops)
      (
        refl,
        refl,
        after ∙ sym here,
        unfold resolve_column in (ap (address_of new_name) after ∙ found),
      )
