-- ===== src/Diff/Unchanged/Tables.antt =====
-- Comparing the tables of a namespace with themselves.
use mathlib.Core.Bool.{xor}
use migra_go.Prelude.{
  All-map, String, Bool, true, false, not, ◌&&◌, Option, none, some, List, [], ◌∷◌, ◌≡◌, refl, ap,
  arith, All, Map, get, has, keys, sort_strings, str_eq_refl, if_ind,
}
use migra_go.Model.Objects.{Column, Constraint, IndexElem, Index, Table, Namespace}
use migra_go.Diff.Context.{DiffContext, Statement, for_each, when}
use migra_go.Diff.Context.Keeps.{
  Keeps, IsPollable, Keeps-then, Keeps-skip, Keeps-check, Keeps-call, Keeps-each, Keeps-when,
  Keeps-with_entry,
}
use migra_go.Diff.Columns.{
  same_default, diff_type, diff_nullable, diff_default, diff_collation, diff_identity, diff_column,
}
use migra_go.Diff.Names.{same_string_slice_refl, in_both, for_names}
use migra_go.Diff.Tables.{
  same_constraint_content, changed_constraints, is_changed, diff_table_constraints,
  same_index_content, same_elem, same_elements, flag, diff_table_indexes, index_signatures,
  rename_columns, add_drop_compare, diff_table_columns, diff_both_tables, diff_tables,
}
use migra_go.Diff.Unchanged.Names.{
  keys-has, keep_if-none, only_in-none, entry_unique, Keeps-for_names, Keeps-for_missing,
  Keeps-for_missing_polled,
}

pub xor_refl : (b : Bool) → xor b b ≡ false
unfolding xor
xor_refl true = refl
xor_refl false = refl

same_default_refl : (d : Option String) → same_default d d ≡ true
unfolding same_default
same_default_refl none = refl
same_default_refl (some e) = str_eq_refl e

same_constraint_content_refl : (c : Constraint) → same_constraint_content c c ≡ true
unfolding same_constraint_content
same_constraint_content_refl c = ground (
  arith,
  str_eq_refl c.type,
  same_string_slice_refl c.columns,
  str_eq_refl c.ref_schema,
  str_eq_refl c.ref_table,
  same_string_slice_refl c.ref_columns,
  str_eq_refl c.expression,
  str_eq_refl c.on_delete,
  str_eq_refl c.on_update,
)

is_changed-same :
    (m : Map Constraint) (k : String) (o : Option Constraint)
    → get k m ≡ o
    → is_changed m k o ≡ false
is_changed-same m k none e = refl
is_changed-same m k (some c) e = rw (e, same_constraint_content_refl c) refl

-- No constraint of a table differs from itself.
changed_none : (m : Map Constraint) → changed_constraints m m ≡ []
unfolding changed_constraints sort_strings
changed_none m = ap sort_strings (
    keep_if-none (λ k. is_changed m k (get k m)) (keys m)
      (All-map (keys m) (λ k _. is_changed-same m k (get k m) refl) (keys-has m)))

same_elem_refl : (e : IndexElem) → same_elem e e ≡ true
same_elem_refl e = ground (
  arith,
  str_eq_refl e.name,
  str_eq_refl e.index_col_name,
  str_eq_refl e.collation,
  str_eq_refl e.expr,
  str_eq_refl e.opclass,
  str_eq_refl e.ordering,
  str_eq_refl e.nulls_ordering,
)

same_elements_refl : (l : List IndexElem) → same_elements l l ≡ true
unfolding same_elements
same_elements_refl [] = refl
same_elements_refl (e ∷ l) = rw (same_elem_refl e) (same_elements_refl l)

same_index_content_refl : (i : Index) → same_index_content i i ≡ true
unfolding same_index_content
same_index_content_refl i = ground (
  arith,
  xor_refl i.unique,
  str_eq_refl i.method,
  str_eq_refl i.where_clause,
  same_elements_refl i.elements,
)

-- Each column of the table is found under its name.
abbrev pub ColumnsAreListed : Table → Type 0
ColumnsAreListed t = All (λ col. get col.name t.column_by_name ≡ some col) t.columns

-- So it is in all tables of the namespace.
abbrev pub TablesAreListed : Namespace → Type 0
TablesAreListed ns = (name : String) (t : Table) → get name ns.tables ≡ some t → ColumnsAreListed t

pub not_same : (b : Bool) → b ≡ true → not b ≡ false
not_same b e = ground arith

module _ {R : DiffContext → Type 0} where
  -- A statement under a test that fails.
  pub Keeps-when-false : (b : Bool) (a : Statement) → b ≡ false → Keeps R (when b a)
  Keeps-when-false b a e = Keeps-when b (λ e'. cc (e, e'))

  Keeps-diff_nullable :
      (schema table : String) (col : Column) → Keeps R (diff_nullable schema table col col)
  unfolding diff_nullable
  Keeps-diff_nullable schema table col =
      if_ind (Keeps R) (col.is_nullable && not col.is_nullable) (λ e. absurd (ground arith))
        (λ _. Keeps-when-false _ _ (ground arith))

  Keeps-diff_column :
      (schema table : String) (col : Column) → Keeps R (diff_column schema table col col)
  unfolding diff_column diff_type diff_default diff_collation diff_identity
  Keeps-diff_column schema table col =
      Keeps-then (Keeps-when-false _ _ (not_same _ (str_eq_refl col.data_type))) (
        Keeps-then (Keeps-diff_nullable schema table col) (
          Keeps-then (Keeps-when-false _ _ (not_same _ (same_default_refl col.default_expr))) (
            Keeps-then (Keeps-when-false _ _ (not_same _ (str_eq_refl col.collation))) (
              Keeps-when-false _ _
                (ground (arith, xor_refl col.is_identity, str_eq_refl col.identity_kind))))))

  Keeps-columns :
      (schema : String) (t : Table)
      → IsPollable R
      → ColumnsAreListed t
      → Keeps R (diff_table_columns schema t t)
  unfolding diff_table_columns rename_columns add_drop_compare index_signatures for_names for_each
      sort_strings
  Keeps-columns schema t p listed = rw (only_in-none t.column_by_name) (
      Keeps-then Keeps-skip (
        Keeps-then
          (rw
            (keep_if-none (λ name. not (has name t.column_by_name) && not (flag name []))
              (keys t.column_by_name)
              (All-map (keys t.column_by_name) (λ k e. rw e refl) (keys-has t.column_by_name)))
            Keeps-skip)
          (Keeps-each _ t.columns (
            All-map t.columns
              (λ col found. Keeps-then (Keeps-check p) (
                Keeps-with_entry (get col.name t.column_by_name) (λ src e.
                  let same : src ≡ col = entry_unique e found in
                  rw same (Keeps-diff_column schema t.name col))))
              listed))))

  Keeps-indexes : (schema : String) (t : Table) → Keeps R (diff_table_indexes schema t t)
  unfolding diff_table_indexes
  Keeps-indexes schema t = Keeps-then (Keeps-for_missing t.indexes _) (
      Keeps-then (Keeps-for_missing t.indexes _) (
        Keeps-for_names (in_both t.indexes t.indexes) t.indexes (λ name tgt e.
          Keeps-with_entry (get name t.indexes) (λ src e'.
            Keeps-when-false _ _
              (rw (entry_unique e' e) (not_same _ (same_index_content_refl tgt)))))))

  Keeps-constraints : (schema : String) (t : Table) → Keeps R (diff_table_constraints schema t t)
  unfolding diff_table_constraints for_names for_each
  Keeps-constraints schema t =
      Keeps-then (Keeps-for_missing t.constraints _) (
        Keeps-then (rw (changed_none t.constraints) Keeps-skip) (Keeps-for_missing t.constraints _))

  pub Keeps-tables :
      (ns : Namespace) → IsPollable R → TablesAreListed ns → Keeps R (diff_tables (some ns) ns)
  unfolding diff_tables diff_both_tables
  Keeps-tables ns p listed = Keeps-then (Keeps-for_missing_polled ns.tables _) (
      Keeps-then (Keeps-for_missing_polled ns.tables _) (
        Keeps-for_names (in_both ns.tables ns.tables) ns.tables (λ name tgt e.
          Keeps-with_entry (get name ns.tables) (λ src e'. rw (entry_unique e' e) (
            Keeps-then (Keeps-call (Keeps-columns ns.name tgt p (listed name tgt e))) (
              Keeps-then (Keeps-call (Keeps-indexes ns.name tgt))
                (Keeps-call (Keeps-constraints ns.name tgt))))))))
