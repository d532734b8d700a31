-- ===== src/Model/Columns/Remove.antt =====
-- `RemoveColumn`, as a whole.
use migra_go.Prelude.{
  ℕ, suc, ◌-◌, String, Option, none, some, ◌≡◌, ◌≢◌, refl, arith, get, get-delete, delete, length,
  nat_eq, eq_iff, if_ind, Option-cases, inl, inr, ◌<◌, ap, put, get-put, get_elem?, ltb, str_eq,
  if◌then◌else◌, Bool-cases,
}
use migra_go.Model.Objects.{Column, Table}
use migra_go.Model.Columns.{set_at, take, remove_at, remove_column}
use migra_go.Model.Columns.Consistent.{
  IsConsistent, get_elem?-below, get_elem?-length, get_elem?-set_at, get_elem?-take,
}

module _ (name : String) (t : Table) (h : IsConsistent t) where
  abbrev forgotten : Table
  forgotten = record t {
    column_by_name = delete name t.column_by_name;
    column_index = delete name t.column_index;
  }

  -- The column goes from the end of the list.
  drop_last-IsConsistent :
      (idx : ℕ)
      → get name t.column_index ≡ some idx
      → suc idx ≡ length t.columns
      → IsConsistent (record forgotten { columns = take (length t.columns - 1) t.columns })
  drop_last-IsConsistent idx at_idx is_last =
      let (gone, at_gone, gone_name) = h.placed name idx at_idx in
      let n = length t.columns - 1 in
      record {
        listed_place = λ i c e. ground (
          arith,
          get_elem?-take n t.columns i,
          h.listed_place i c,
          get-delete name c.name t.column_index,
          eq_iff name c.name,
        );
        listed_name = λ i c e. ground (
          arith,
          get_elem?-take n t.columns i,
          h.listed_place i c,
          h.listed_name i c,
          get-delete name c.name t.column_by_name,
          eq_iff name c.name,
        );
        placed = λ k i e.
            let (c, at, m) = h.placed k i (ground (arith, get-delete name k t.column_index)) in
            (
              c,
              ground (
                arith,
                get_elem?-take n t.columns i,
                get_elem?-length t.columns i c at,
                get-delete name k t.column_index,
                eq_iff name k,
                ap (λ o. o) at_gone,
              ),
              m,
            );
        named = λ k c e.
            let (m, i, at) = h.named k c (ground (arith, get-delete name k t.column_by_name)) in
            (
              m,
              i,
              ground (
                arith,
                get_elem?-take n t.columns i,
                get_elem?-length t.columns i c at,
                get-delete name k t.column_by_name,
                eq_iff name k,
                at_gone,
              ),
            );
      }

  -- The last column takes the place of the one that goes.
  move_last-IsConsistent :
      (idx : ℕ) (last : Column)
      → get name t.column_index ≡ some idx
      → suc idx ≢ length t.columns
      → get_elem? t.columns (length t.columns - 1) ≡ some last
      → IsConsistent (record forgotten {
        columns = take (length t.columns - 1) (set_at t.columns idx last);
        column_index = put last.name idx (delete name t.column_index);
      })
  move_last-IsConsistent idx last at_idx not_last at_last =
      let (gone, at_gone, gone_name) = h.placed name idx at_idx in
      let n = length t.columns - 1 in
      let lt : idx < length t.columns = get_elem?-length t.columns idx gone at_gone in
      let last_index : get last.name t.column_index ≡ some n = h.listed_place n last at_last in
      let columns_at : (j : ℕ)
          → get_elem? (take n (set_at t.columns idx last)) j ≡ (
              if ltb j n
              then (if nat_eq j idx then some last else get_elem? t.columns j)
              else none) =
        λ j. ground (
          arith,
          get_elem?-take n (set_at t.columns idx last) j,
          get_elem?-set_at t.columns idx j last lt,
        ) in
      let index_of : (k : String)
          → get k (put last.name idx (delete name t.column_index)) ≡ (
              if str_eq last.name k
              then some idx
              else if str_eq name k
              then none
              else get k t.column_index) =
        λ k. ground (
          arith,
          get-put last.name k idx (delete name t.column_index),
          get-delete name k t.column_index,
        ) in
      record {
        listed_place = λ i c e. ground (
          arith,
          columns_at i,
          index_of c.name,
          h.listed_place i c,
          eq_iff last.name c.name,
          eq_iff name c.name,
        );
        listed_name = λ i c e. ground (
          arith,
          columns_at i,
          h.listed_place i c,
          h.listed_name i c,
          h.listed_name n last at_last,
          get-delete name c.name t.column_by_name,
          eq_iff name c.name,
        );
        placed = λ k i e. elim (Bool-cases (str_eq last.name k)) [
          | inl same ↦ (last, ground (arith, index_of k, columns_at i), (eq_iff last.name k).0 same)
          | inr other ↦
              let (c, at, m) = h.placed k i (ground (arith, index_of k)) in
              (
                c,
                ground (
                  arith,
                  columns_at i,
                  get_elem?-length t.columns i c at,
                  index_of k,
                  eq_iff name k,
                  eq_iff last.name k,
                ),
                m,
              )
        ];
        named = λ k c e.
            let (m, i, at) = h.named k c (ground (arith, get-delete name k t.column_by_name)) in
            elim (Bool-cases (nat_eq i n)) [
              | inl at_end ↦ (m, idx, ground (arith, columns_at idx))
              | inr before ↦ (
                m,
                i,
                ground (
                  arith,
                  columns_at i,
                  get_elem?-length t.columns i c at,
                  get-delete name k t.column_by_name,
                  eq_iff name k,
                ),
              )
            ];
      }

module _ (name : String) (t : Table) where
  -- A consistent table without the column, with all others.
  pub record IsWithout (t' : Table) : Type 0 where
    pub consistent : IsConsistent t'
    pub gone : get name t'.column_by_name ≡ none
    pub others : (k : String) → k ≢ name → get k t'.column_by_name ≡ get k t.column_by_name

  pub RemovePost : Option Table → Type 0
  RemovePost none = ⊥
  RemovePost (some t') = IsWithout t'

  deleted : get name (delete name t.column_by_name) ≡ none
  deleted = ground (arith, get-delete name name t.column_by_name, eq_iff name name)

  kept : (k : String) → k ≢ name → get k (delete name t.column_by_name) ≡ get k t.column_by_name
  kept k ne = ground (arith, get-delete name k t.column_by_name, eq_iff name k)

  remove_at-RemovePost :
      (h : IsConsistent t) (o : Option ℕ)
      → get name t.column_index ≡ o
      → RemovePost (remove_at name o t)
  unfolding RemovePost
  remove_at-RemovePost h none e = record {
    consistent = h;
    gone = elim (Option-cases (get name t.column_by_name)) [
      | inl missing ↦ missing
      | inr (col, found) ↦
          let (n, i, at) = h.named name col found in
          absurd (ground (arith, h.listed_place i col at))
    ];
    others = λ k ne. refl;
  }
  remove_at-RemovePost h (some idx) e =
      let (col, at, n) = h.placed name idx e in
      let (last, at_last) =
        get_elem?-below t.columns (length t.columns - 1)
          (omega (arith, get_elem?-length t.columns idx col at)) in
      if_ind RemovePost (nat_eq (suc idx) (length t.columns))
        (λ is_last. record {
          consistent = drop_last-IsConsistent name t h idx e (ground arith);
          gone = deleted;
          others = kept;
        })
        (λ before.
          if_ind RemovePost (ltb idx (length t.columns))
            (λ _. rw at_last (record {
              consistent = move_last-IsConsistent name t h idx last e (λ p. ground arith) at_last;
              gone = deleted;
              others = kept;
            }))
            (λ outside. absurd (ground (arith, get_elem?-length t.columns idx col at))))

  -- In a table whose views of its columns agree: `RemoveColumn` does not panic, the column is found
  -- no more, all others are, and the views still agree.
  pub remove_column-RemovePost : IsConsistent t → RemovePost (remove_column name t)
  unfolding remove_column
  remove_column-RemovePost h = remove_at-RemovePost h (get name t.column_index) refl
