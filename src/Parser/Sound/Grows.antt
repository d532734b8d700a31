-- ===== src/Parser/Sound/Grows.antt =====
-- A table and its store, before and after columns are added.
use migra_go.Model.Store.{ColumnRef}
use migra_go.Prelude.{
  ℕ, ◌<◌, ◌≤◌, String, some, List, [], ◌∷◌, ◌≡◌, ◌⊎◌, inl, inr, refl, sym, ap, ◌∙◌, arith, subst,
  get, get-put, str_eq, eq_iff, if◌then◌else◌, if_ind, Bool-cases, Option-cases,
}
use migra_go.Model.Store.{TableRef, Store, allocate, add_column_ref}
use migra_go.Model.Store.Allocate.{allocate-at, allocate-below, allocate-next}
use migra_go.Parser.Apply.Table.{Merged, merge_columns, add_columns}

-- The store keeps the names that it has, and the table finds what it found and new columns.
pub record Grows (st : Store) (t : TableRef) (st' : Store) (t' : TableRef) : Type 0 where
  pub next_grows : st.next ≤ st'.next
  pub names_kept : (p : ℕ) → p < st.next → (st'.cell p).name ≡ (st.cell p).name
  pub found :
      (k : String) (p : ℕ)
      → get k t'.column_by_name ≡ some p
      → (get k t.column_by_name ≡ some p)
        ⊎ ((st.next ≤ p) × (p < st'.next) × ((st'.cell p).name ≡ k))

pub Grows-refl : (st : Store) (t : TableRef) → Grows st t st t
Grows-refl st t = record {
  next_grows = omega arith;
  names_kept = λ p lt. refl;
  found = λ k p e. inl e;
}

pub Grows-trans :
    (st : Store) (t : TableRef) (st' : Store) (t' : TableRef) (st'' : Store) (t'' : TableRef)
    → Grows st t st' t'
    → Grows st' t' st'' t''
    → Grows st t st'' t''
Grows-trans st t st' t' st'' t'' g h = record {
  next_grows = omega (arith, g.next_grows, h.next_grows);
  names_kept = λ p lt. h.names_kept p (omega (arith, g.next_grows)) ∙ g.names_kept p lt;
  found = λ k p e. elim (h.found k p e) [
    | inl old ↦ elim (g.found k p old) [
      | inl older ↦ inl older
      | inr (above, under, name) ↦
          inr (above, omega (arith, h.next_grows), h.names_kept p under ∙ name)
    ]
    | inr (above, under, name) ↦ inr (omega (arith, g.next_grows), under, name)
  ];
}

add_column_ref-get :
    (p : ℕ) (name k : String) (t : TableRef)
    → get k (add_column_ref p name t).column_by_name
      ≡ (if str_eq name k then some p else get k t.column_by_name)
unfolding add_column_ref
add_column_ref-get p name k t = get-put name k p t.column_by_name

pub Grows-add_column :
    (col : ColumnRef) (st : Store) (t : TableRef)
    → Grows st t (allocate col st) (add_column_ref st.next col.name t)
Grows-add_column col st t = record {
  next_grows = omega (arith, allocate-next col st);
  names_kept = λ p lt. ap (λ c. c.name) (allocate-below col st p lt);
  found = λ k p e.
      let e' = sym (add_column_ref-get st.next col.name k t) ∙ e in
      elim (Bool-cases (str_eq col.name k)) [
        | inl same ↦
            let at : st.next ≡ p = ground (arith, e') in
            inr (
              omega arith,
              omega (arith, allocate-next col st),
              subst (λ q. ((allocate col st).cell q).name ≡ k) at
                  (ap (λ c. c.name) (allocate-at col st) ∙ (eq_iff col.name k).0 same),
            )
        | inr other ↦ inl (ground (arith, e'))
      ];
}

pub add_columns-Grows :
    (cols : List ColumnRef) (st : Store) (t : TableRef)
    → Grows st t (add_columns cols st t).0 (add_columns cols st t).1
unfolding add_columns
add_columns-Grows [] st t = Grows-refl st t
add_columns-Grows (col ∷ cols) st t =
    let st' = allocate col st in
    let t' = add_column_ref st.next col.name t in
    Grows-trans st t st' t' _ _ (Grows-add_column col st t) (add_columns-Grows cols st' t')

abbrev GrowsTo : Store → TableRef → Merged → Type 0
GrowsTo st t m = Grows st t m.store m.table

pub merge_columns-Grows :
    (cols : List ColumnRef) (st : Store) (t : TableRef) → GrowsTo st t (merge_columns cols st t)
unfolding merge_columns
merge_columns-Grows [] st t = Grows-refl st t
merge_columns-Grows (col ∷ cols) st t = elim (Option-cases (get col.name t.column_by_name)) [
  | inl fresh ↦
      let st' = allocate col st in
      let t' = add_column_ref st.next col.name t in
      rw fresh
        (Grows-trans st t st' t' _ _ (Grows-add_column col st t) (merge_columns-Grows cols st' t'))
  | inr (p, at) ↦ rw at (
      if_ind (GrowsTo st t) (str_eq (st.cell p).data_type col.data_type)
        (λ _. merge_columns-Grows cols st t) (λ _. Grows-refl st t))
]
