-- ===== src/Model/Clone/Columns.antt =====
-- The columns of a copied table.
use migra_go.Prelude.{
  ℕ, suc, String, true, some, List, [], ◌∷◌, ◌++◌, ◌≡◌, ◌⊎◌, inl, inr, refl, sym, ap, ◌∙◌, arith,
  subst, map, All, Map, get, put, get-put, has, length, append-nil, append_assoc, length-append,
  str_eq, str_eq_refl, Bool-cases,
}
use migra_go.Model.Store.{TableRef, Store, allocate}
use migra_go.Model.Store.Allocate.{
  IsBelow, Preserves, Preserves-refl, Preserves-trans, Preserves-map, Preserves-IsBelow, column_at,
  column_at-kept,
}
use migra_go.Model.Clone.New.{IsNew, IsNew-IsBelow, IsNew-widen, clone_column-Cloned}
use migra_go.Model.Clone.Maps.{Agrees, Agrees-later, Agrees-with_column, with_column}
use migra_go.Model.Clone.{clone_column, clone_columns}

-- A table without its columns.
abbrev pub frame : TableRef → TableRef
frame t = record t { columns = []; column_by_name = []; column_index = [] }

-- What the loop adds: for each column one with the same value, behind a new address, with its name
-- in the maps.
pub record Extends (st : Store) (ps : List ℕ) (ct : TableRef) (st' : Store) (ct' : TableRef)
    : Type 0 where
  pub preserves : Preserves st st'
  pub new_columns : List ℕ
  pub appended : ct'.columns ≡ ct.columns ++ new_columns
  pub same_values : map (column_at st') new_columns ≡ map (column_at st) ps
  pub all_new : All (IsNew st st') new_columns
  pub found_new :
      (k : String) (p : ℕ)
      → get k ct'.column_by_name ≡ some p
      → (get k ct.column_by_name ≡ some p) ⊎ IsNew st st' p
  pub agrees : Agrees st ct → Agrees st' ct'
  pub same_frame : frame ct' ≡ frame ct

pub IsNew-All :
    (st₀ st st' st'' : Store) (ps : List ℕ)
    → Preserves st₀ st
    → Preserves st' st''
    → All (IsNew st st') ps
    → All (IsNew st₀ st'') ps
IsNew-All st₀ st st' st'' [] g g' h = tt
IsNew-All st₀ st st' st'' (p ∷ ps) g g' h =
    (IsNew-widen st₀ st st' st'' p g g' h.0, IsNew-All st₀ st st' st'' ps g g' h.1)

pub clone_columns-Extends :
    (i : ℕ) (ps : List ℕ) (st : Store) (ct : TableRef)
    → All (IsBelow st) ps
    → length ct.columns ≡ i
    → Extends st ps ct (clone_columns i ps st ct).0 (clone_columns i ps st ct).1
unfolding clone_columns
clone_columns-Extends i [] st ct h last = record {
  preserves = Preserves-refl st;
  new_columns = [];
  appended = sym (append-nil ct.columns);
  same_values = refl;
  all_new = tt;
  found_new = λ k p e. inl e;
  agrees = λ a. a;
  same_frame = refl;
}
clone_columns-Extends i (p ∷ ps) st ct h last =
    let name = (st.cell p).name in
    let q = (clone_column (st.cell p) st).0.next in
    let st₁ = allocate (clone_column (st.cell p) st).1 (clone_column (st.cell p) st).0 in
    let c = clone_column-Cloned st p in
    let ct₁ = with_column i name q ct in
    let e =
      clone_columns-Extends (suc i) ps st₁ ct₁ (Preserves-IsBelow st st₁ ps c.preserves h.1)
        (length-append ct.columns (q ∷ []) ∙ omega (arith, last)) in
    let st' = (clone_columns (suc i) ps st₁ ct₁).0 in
    let below = IsNew-IsBelow st st₁ q c.is_new in
    let q_new = IsNew-widen st st st₁ st' q (Preserves-refl st) e.preserves c.is_new in
    record {
      preserves = Preserves-trans st st₁ st' c.preserves e.preserves;
      new_columns = q ∷ e.new_columns;
      appended = e.appended ∙ append_assoc ct.columns (q ∷ []) e.new_columns;
      same_values =
          ap (λ v. v ∷ map (column_at st') e.new_columns)
            (column_at-kept st₁ st' q e.preserves below ∙ c.same_value)
          ∙ ap (λ vs. column_at st p ∷ vs)
              (e.same_values ∙ Preserves-map st st₁ ps c.preserves h.1);
      all_new = (
        q_new,
        IsNew-All st st₁ st' st' e.new_columns c.preserves (Preserves-refl st') e.all_new,
      );
      found_new = λ k r at. elim (e.found_new k r at) [
        | inl old ↦
            let old' = sym (get-put name k q ct.column_by_name) ∙ old in
            elim (Bool-cases (str_eq name k)) [
              | inl same ↦
                  let here : q ≡ r = ground (arith, old') in inr (subst (IsNew st st') here q_new)
              | inr other ↦ inl (ground (arith, old'))
            ]
        | inr new ↦ inr (IsNew-widen st st₁ st' st' r c.preserves (Preserves-refl st') new)
      ];
      agrees = λ a. e.agrees (
          Agrees-with_column st₁ ct i name q last below.0 (ap (λ v. v.name) c.same_value)
            (Agrees-later st st₁ ct c.preserves a));
      same_frame = e.same_frame;
    }

has-put_kept : (k name : String) (i : ℕ) (m : Map ℕ) → has k m ≡ true → has k (put name i m) ≡ true
unfolding has
has-put_kept k name i m h =
    rw (get-put name k i m)
      (elim (Bool-cases (str_eq name k)) [ inl same ↦ rw same refl | inr other ↦ rw other h ])

has-put_here : (k : String) (i : ℕ) (m : Map ℕ) → has k (put k i m) ≡ true
unfolding has
has-put_here k i m = rw (get-put k k i m, str_eq_refl k) refl

pub clone_columns-has :
    (i : ℕ) (ps : List ℕ) (st : Store) (ct : TableRef) (k : String)
    → has k ct.column_index ≡ true
    → has k (clone_columns i ps st ct).1.column_index ≡ true
unfolding clone_columns
clone_columns-has i [] st ct k h = h
clone_columns-has i (p ∷ ps) st ct k h =
    clone_columns-has (suc i) ps _ _ k (has-put_kept k (st.cell p).name i ct.column_index h)

pub old_names :
    (st st₁ : Store) (ps : List ℕ) (m : Map ℕ)
    → Preserves st st₁
    → All (IsBelow st) ps
    → All (λ p. has (st₁.cell p).name m ≡ true) ps
    → All (λ p. has (st.cell p).name m ≡ true) ps
old_names st st₁ [] m g h a = tt
old_names st st₁ (p ∷ ps) m g h a =
    (ap (λ c. has c.name m) (sym (g.cells_kept p h.0.0)) ∙ a.0, old_names st st₁ ps m g h.1 a.1)

-- The name of every column of the list is in the copy's maps.
pub clone_columns-has_names :
    (i : ℕ) (ps : List ℕ) (st : Store) (ct : TableRef)
    → All (IsBelow st) ps
    → All (λ p. has (st.cell p).name (clone_columns i ps st ct).1.column_index ≡ true) ps
unfolding clone_columns
clone_columns-has_names i [] st ct h = tt
clone_columns-has_names i (p ∷ ps) st ct h =
    let name = (st.cell p).name in
    let q = (clone_column (st.cell p) st).0.next in
    let st₁ = allocate (clone_column (st.cell p) st).1 (clone_column (st.cell p) st).0 in
    let grows = (clone_column-Cloned st p).preserves in
    (
      clone_columns-has (suc i) ps st₁ (with_column i name q ct) name
          (has-put_here name i ct.column_index),
      old_names st st₁ ps _ grows h.1 (
          clone_columns-has_names (suc i) ps st₁ (with_column i name q ct)
            (Preserves-IsBelow st st₁ ps grows h.1)),
    )
