-- ===== src/Model/Columns/Consistent.antt =====
-- The three views of a table's columns agree, and the operations keep that.
use migra_go.Prelude.{
  ℕ, zero, suc, ◌<◌, String, none, some, List, [], ◌∷◌, ◌++◌, ◌≡◌, refl, arith, get, get-put,
  get_elem?, length, nat_eq, ltb, str_eq, eq_iff, if◌then◌else◌, Bool-cases, inl, inr,
}
use migra_go.Model.Objects.{Column, Table}
use migra_go.Model.Columns.{new_table, add_column, set_at, take}

-- Each column of the list is found under its name, at its place, and nothing else is.
pub record IsConsistent (t : Table) : Type 0 where
  pub listed_place :
      (i : ℕ) (col : Column)
      → get_elem? t.columns i ≡ some col
      → get col.name t.column_index ≡ some i
  pub listed_name :
      (i : ℕ) (col : Column)
      → get_elem? t.columns i ≡ some col
      → get col.name t.column_by_name ≡ some col
  pub placed :
      (name : String) (i : ℕ)
      → get name t.column_index ≡ some i
      → (col : Column) × (get_elem? t.columns i ≡ some col) × (col.name ≡ name)
  pub named :
      (name : String) (col : Column)
      → get name t.column_by_name ≡ some col
      → (col.name ≡ name) × (i : ℕ) × (get_elem? t.columns i ≡ some col)

pub new_table-IsConsistent : (schema name : String) → IsConsistent (new_table schema name)
unfolding new_table get
new_table-IsConsistent schema name = record {
  listed_place = λ i col e. cc e;
  listed_name = λ i col e. cc e;
  placed = λ k i e. absurd (cc e);
  named = λ k col e. absurd (cc e);
}

pub get_elem?-append_one {ℓ} :
    {A : Type ℓ} (l : List A) (v : A) (i : ℕ)
    → get_elem? (l ++ v ∷ []) i ≡ (if nat_eq i (length l) then some v else get_elem? l i)
get_elem?-append_one [] v zero = refl
get_elem?-append_one [] v (suc i) = ground arith
get_elem?-append_one (x ∷ l) v zero = ground arith
get_elem?-append_one (x ∷ l) v (suc i) = ground (arith, get_elem?-append_one l v i)

pub get_elem?-length {ℓ} :
    {A : Type ℓ} (l : List A) (i : ℕ) (v : A) → get_elem? l i ≡ some v → i < length l
get_elem?-length [] i v e = absurd (cc e)
get_elem?-length (x ∷ l) zero v e = omega arith
get_elem?-length (x ∷ l) (suc i) v e = omega (arith, get_elem?-length l i v e)

pub get_elem?-below :
    (l : List Column) (i : ℕ) → i < length l → (v : Column) × (get_elem? l i ≡ some v)
get_elem?-below [] i lt = absurd (omega arith)
get_elem?-below (x ∷ l) zero lt = (x, refl)
get_elem?-below (x ∷ l) (suc i) lt = get_elem?-below l i (omega arith)

pub get_elem?-set_at :
    (l : List Column) (i j : ℕ) (v : Column)
    → i < length l
    → get_elem? (set_at l i v) j ≡ (if nat_eq j i then some v else get_elem? l j)
get_elem?-set_at [] i j v lt = absurd (omega arith)
get_elem?-set_at (x ∷ l) zero zero v lt = refl
get_elem?-set_at (x ∷ l) zero (suc j) v lt = ground arith
get_elem?-set_at (x ∷ l) (suc i) zero v lt = ground arith
get_elem?-set_at (x ∷ l) (suc i) (suc j) v lt =
    ground (arith, get_elem?-set_at l i j v (omega arith))

pub get_elem?-take :
    (n : ℕ) (l : List Column) (j : ℕ)
    → get_elem? (take n l) j ≡ (if ltb j n then get_elem? l j else none)
get_elem?-take zero l j = ground arith
get_elem?-take (suc n) [] j = ground arith
get_elem?-take (suc n) (x ∷ l) zero = ground arith
get_elem?-take (suc n) (x ∷ l) (suc j) = ground (arith, get_elem?-take n l j)

-- If the table's views of its columns agree and it has no column of this name, they agree with the
-- column added.
pub add_column-IsConsistent :
    (col : Column) (t : Table)
    → get col.name t.column_index ≡ none
    → IsConsistent t
    → IsConsistent (add_column col t)
unfolding add_column
add_column-IsConsistent col t fresh h = record {
  listed_place = λ i c e. ground (
    arith,
    eq_iff col.name c.name,
    get_elem?-append_one t.columns col i,
    h.listed_place i c,
    get-put col.name c.name (length t.columns) t.column_index,
  );
  listed_name = λ i c e. ground (
    arith,
    eq_iff col.name c.name,
    get_elem?-append_one t.columns col i,
    h.listed_place i c,
    h.listed_name i c,
    get-put col.name c.name col t.column_by_name,
  );
  placed = λ k i e. elim (Bool-cases (str_eq col.name k)) [
    | inl same ↦ (
      col,
      ground (
        arith,
        get-put col.name k (length t.columns) t.column_index,
        get_elem?-append_one t.columns col i,
      ),
      (eq_iff col.name k).0 same,
    )
    | inr other ↦
        let (c, at, n) =
          h.placed k i (ground (arith, get-put col.name k (length t.columns) t.column_index)) in
        (
          c,
          ground (arith, get_elem?-append_one t.columns col i, get_elem?-length t.columns i c at),
          n,
        )
  ];
  named = λ k c e. elim (Bool-cases (str_eq col.name k)) [
    | inl same ↦ (
      ground (arith, get-put col.name k col t.column_by_name, eq_iff col.name k),
      length t.columns,
      ground (
        arith,
        get-put col.name k col t.column_by_name,
        get_elem?-append_one t.columns col (length t.columns),
      ),
    )
    | inr other ↦
        let (n, i, at) = h.named k c (ground (arith, get-put col.name k col t.column_by_name)) in
        (
          n,
          i,
          ground (arith, get_elem?-append_one t.columns col i, get_elem?-length t.columns i c at),
        )
  ];
}
