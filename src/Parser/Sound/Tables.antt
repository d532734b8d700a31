-- ===== src/Parser/Sound/Tables.antt =====
-- Soundness and the mutations of whole tables in internal/parser/mutation.go and index_mutation.go.
use migra_go.Model.Store.{ColumnRef}
use migra_go.Prelude.{
  String, Option, some, List, [], ◌∷◌, ◌≡◌, inl, inr, refl, sym, ap, ◌∙◌, get, has, if_ind,
  Option-cases,
}
use migra_go.Model.Objects.{PrimaryKey, Constraint, Index}
use migra_go.Model.Store.{TableRef, Store, State, new_table_ref}
use migra_go.Model.Store.Find.{find_table, resolve_column, address_of}
use migra_go.Parser.Outcome.{Outcome}
use migra_go.Parser.Apply.Table.{
  put_table, add_constraints, apply_table_metadata, add_columns, merge_columns, change_table,
  apply_create_table, apply_add_constraint, apply_drop_constraint, apply_create_index,
}
use migra_go.Parser.Sound.{IsSound}
use migra_go.Parser.Sound.Grows.{Grows, Grows-refl, add_columns-Grows, merge_columns-Grows}
use migra_go.Parser.Sound.Steps.{Stands, put_grown-IsSound, same_tables-IsSound}

-- The state that a mutation leaves is sound.
abbrev pub LeavesSound : Outcome × State → Type 0
LeavesSound r = IsSound r.1

pub find_table-Stands :
    (schema table : String) (s : State) (t : TableRef)
    → find_table schema table s ≡ some t
    → Stands schema table t s
unfolding resolve_column
find_table-Stands schema table s t e k p at = ap (address_of k) e ∙ at

pub no_columns-Stands :
    (schema table : String) (s : State) (t : TableRef)
    → t.column_by_name ≡ []
    → Stands schema table t s
unfolding get
no_columns-Stands schema table s t e k p at = absurd (cc (sym (ap (get k) e) ∙ at))

-- Constraints, indexes, the key and the placeholder mark do not matter.
Grows-same_names :
    (st : Store) (t : TableRef) (st' : Store) (t' t'' : TableRef)
    → t''.column_by_name ≡ t'.column_by_name
    → Grows st t st' t'
    → Grows st t st' t''
Grows-same_names st t st' t' t'' e g = record {
  next_grows = g.next_grows;
  names_kept = g.names_kept;
  found = λ k p at. g.found k p (ap (get k) (sym e) ∙ at);
}

same_columns-IsSound :
    (schema table : String) (s : State) (t t' : TableRef)
    → find_table schema table s ≡ some t
    → t'.column_by_name ≡ t.column_by_name
    → IsSound s
    → IsSound (put_table schema table t' s)
same_columns-IsSound schema table s t t' e same h =
    put_grown-IsSound schema table s t t' s.store h (find_table-Stands schema table s t e)
      (Grows-same_names s.store t s.store t t' same (Grows-refl s.store t))

add_constraints-names :
    (cs : List Constraint) (t : TableRef) → (add_constraints cs t).column_by_name ≡ t.column_by_name
unfolding add_constraints
add_constraints-names [] t = refl
add_constraints-names (c ∷ cs) t = add_constraints-names cs _

apply_table_metadata-names :
    (pk : Option PrimaryKey) (cs : List Constraint) (t : TableRef)
    → (apply_table_metadata pk cs t).column_by_name ≡ t.column_by_name
unfolding apply_table_metadata
apply_table_metadata-names pk cs t = add_constraints-names cs _

pub create_table-IsSound :
    (schema name : String) (cols : List ColumnRef) (pk : Option PrimaryKey) (cs : List Constraint)
    (s : State)
    → IsSound s
    → LeavesSound (apply_create_table schema name cols pk cs s)
unfolding apply_create_table
create_table-IsSound schema name cols pk cs s h = elim (Option-cases (find_table schema name s)) [
  | inl absent ↦
      let t = new_table_ref schema name in
      let (st', t') = add_columns cols s.store t in
      rw absent (
        put_grown-IsSound schema name s t (apply_table_metadata pk cs t') st' h
          (no_columns-Stands schema name s t (unfold new_table_ref in refl))
          (Grows-same_names s.store t st' t' _ (apply_table_metadata-names pk cs t')
            (add_columns-Grows cols s.store t)))
  | inr (t, at) ↦
      let m = merge_columns cols s.store t in
      let g = merge_columns-Grows cols s.store t in
      let stands = find_table-Stands schema name s t at in
      rw at (
        if_ind LeavesSound t.is_placeholder
          (λ _.
            if_ind LeavesSound m.mismatch
              (λ _. put_grown-IsSound schema name s t m.table m.store h stands g)
              (λ _. put_grown-IsSound schema name s t _ m.store h stands (
                Grows-same_names s.store t m.store m.table _ (apply_table_metadata-names pk cs _)
                  g)))
          (λ _. h))
]

change_table-IsSound :
    (schema table : String) (f : TableRef → TableRef) (s : State)
    → ((t : TableRef) → (f t).column_by_name ≡ t.column_by_name)
    → IsSound s
    → LeavesSound (change_table schema table f s (find_table schema table s))
change_table-IsSound schema table f s same h = elim (Option-cases (find_table schema table s)) [
  | inl absent ↦ rw absent h
  | inr (t, at) ↦ rw at (same_columns-IsSound schema table s t (f t) at (same t) h)
]

pub add_constraint-IsSound :
    (schema table : String) (c : Constraint) (s : State)
    → IsSound s
    → LeavesSound (apply_add_constraint schema table c s)
unfolding apply_add_constraint
add_constraint-IsSound schema table c s h = change_table-IsSound schema table _ s (λ t. refl) h

pub drop_constraint-IsSound :
    (schema table name : String) (s : State)
    → IsSound s
    → LeavesSound (apply_drop_constraint schema table name s)
unfolding apply_drop_constraint
drop_constraint-IsSound schema table name s h = change_table-IsSound schema table _ s (λ t. refl) h

pub create_index-IsSound :
    (schema : String) (index : Index) (s : State)
    → IsSound s
    → LeavesSound (apply_create_index schema index s)
unfolding apply_create_index
create_index-IsSound schema index s h = elim (Option-cases (find_table schema index.table s)) [
  | inl absent ↦ rw absent (same_tables-IsSound schema _ s refl h)
  | inr (t, at) ↦ rw at (
      if_ind LeavesSound (has index.name t.indexes)
        (λ _. if_ind LeavesSound index.if_not_exists (λ _. h) (λ _. h))
        (λ _. same_columns-IsSound schema index.table s t _ at refl h))
]
