-- ===== src/Model/Clone/Maps.antt =====
-- The two maps of a copied table, by name to the column and by name to its place.
use migra_go.Prelude.{
  ℕ, ◌<◌, String, some, [], ◌∷◌, ◌++◌, ◌≡◌, inl, inr, refl, sym, ap, ◌∙◌, arith, get, put, get-put,
  get_elem?, length, str_eq, eq_iff, Bool-cases,
}
use migra_go.Model.Store.{TableRef, Store}
use migra_go.Model.Store.Allocate.{Preserves}
use migra_go.Model.Columns.Consistent.{get_elem?-append_one, get_elem?-length}

-- The maps have the same names; what they give for a name is the place of a listed column with that
-- name, and that column.
pub record Agrees (st : Store) (t : TableRef) : Type 0 where
  pub placed :
      (k : String) (i : ℕ)
      → get k t.column_index ≡ some i
      → (p : ℕ) × (p < st.next)
        × (get_elem? t.columns i ≡ some p)
        × ((st.cell p).name ≡ k)
        × (get k t.column_by_name ≡ some p)
  pub found :
      (k : String) (p : ℕ)
      → get k t.column_by_name ≡ some p
      → (i : ℕ) × (get k t.column_index ≡ some i)

pub Agrees-later : (st st' : Store) (t : TableRef) → Preserves st st' → Agrees st t → Agrees st' t
Agrees-later st st' t g h = record {
  placed = λ k i at.
      let (p, below, listed, name, by_name) = h.placed k i at in
      (
        p,
        omega (arith, g.next_grows, below),
        listed,
        ap (λ c. c.name) (g.cells_kept p below) ∙ name,
        by_name,
      );
  found = h.found;
}

-- The next column, under its name, in the list and in both maps.
abbrev pub with_column : ℕ → String → ℕ → TableRef → TableRef
with_column i name p t = record t {
  columns = t.columns ++ p ∷ [];
  column_by_name = put name p t.column_by_name;
  column_index = put name i t.column_index;
}

pub Agrees-with_column :
    (st : Store) (t : TableRef) (i : ℕ) (name : String) (p : ℕ)
    → length t.columns ≡ i
    → p < st.next
    → (st.cell p).name ≡ name
    → Agrees st t
    → Agrees st (with_column i name p t)
Agrees-with_column st t i name p last below named h = record {
  placed = λ k j at.
      let at' = sym (get-put name k i t.column_index) ∙ at in
      elim (Bool-cases (str_eq name k)) [
        | inl same ↦
            let here : i ≡ j = ground (arith, at') in
            (
              p,
              below,
              get_elem?-append_one t.columns p j ∙ ground (arith, here, last),
              named ∙ (eq_iff name k).0 same,
              get-put name k p t.column_by_name ∙ rw same refl,
            )
        | inr other ↦
            let (q, below_q, listed, name_q, by_name) = h.placed k j (ground (arith, at')) in
            (
              q,
              below_q,
              get_elem?-append_one t.columns p j
                  ∙ ground (arith, listed, get_elem?-length t.columns j q listed),
              name_q,
              get-put name k p t.column_by_name ∙ rw other by_name,
            )
      ];
  found = λ k q at.
      let at' = sym (get-put name k p t.column_by_name) ∙ at in
      elim (Bool-cases (str_eq name k)) [
        | inl same ↦ (i, get-put name k i t.column_index ∙ rw same refl)
        | inr other ↦
            let (j, at_j) = h.found k q (ground (arith, at')) in
            (j, get-put name k i t.column_index ∙ rw other at_j)
      ];
}
