-- ===== src/Normalize/Columns.antt =====
-- The map by name that normalising a table builds anew.
use migra_go.Prelude.{
  ℕ, String, true, Option, none, some, List, [], ◌∷◌, ◌≡◌, ◌≢◌, refl, sym, ap, ◌∙◌, arith, Map, All,
  get, put, get-put, has, str_eq, str_eq_refl, eq_iff, nat_eq, Bool-cases, inl, inr, subst,
}
use migra_go.Model.Store.{ColumnRef, TableRef, Store, write, write_text}
use migra_go.Normalize.Text.{TextFunctions}
use migra_go.Normalize.{
  canonicalize_default, canonicalize_column, canonicalize_columns, canonicalize_table,
}

-- No address of the list is this one; no address stands in the list twice.
abbrev pub IsApart : ℕ → List ℕ → Type 0
IsApart p ps = All (λ q. q ≢ p) ps

abbrev pub Distinct : List ℕ → Type 0
Distinct [] = Unit {0}
Distinct (p ∷ ps) = IsApart p ps × Distinct ps

-- What the map finds under a name has that name.
abbrev pub Named : Store → Map ℕ → Type 0
Named st m = (k : String) (p : ℕ) → get k m ≡ some p → (st.cell p).name ≡ k

-- Every column of the list has a name that the map has.
abbrev pub AllFound : Store → Map ℕ → List ℕ → Type 0
AllFound st m ps = All (λ p. has (st.cell p).name m ≡ true) ps

has-put : (k j : String) (p : ℕ) (m : Map ℕ) → has j m ≡ true → has j (put k p m) ≡ true
unfolding has
has-put k j p m h =
    rw (get-put k j p m)
      (elim (Bool-cases (str_eq k j)) [ inl same ↦ rw same refl | inr other ↦ rw other h ])

has-put_same : (k : String) (p : ℕ) (m : Map ℕ) → has k (put k p m) ≡ true
unfolding has
has-put_same k p m = rw (get-put k k p m, str_eq_refl k) refl

module _ (tf : TextFunctions) where
  canonicalize_default-cell :
      (o : Option ℕ) (st : Store) (q : ℕ) → (canonicalize_default tf o st).cell q ≡ st.cell q
  unfolding canonicalize_default write_text
  canonicalize_default-cell none st q = refl
  canonicalize_default-cell (some a) st q = refl

  write-other :
      (p q : ℕ) (col : ColumnRef) (st : Store) → q ≢ p → (write p col st).cell q ≡ st.cell q
  unfolding write
  write-other p q col st other = elim (Bool-cases (nat_eq q p)) [
    | inl same ↦ absurd (other (ground (arith, same)))
    | inr differs ↦ rw differs refl
  ]

  canonicalize_column-other :
      (p q : ℕ) (st : Store) → q ≢ p → (canonicalize_column tf p st).cell q ≡ st.cell q
  unfolding canonicalize_column
  canonicalize_column-other p q st other =
      canonicalize_default-cell (st.cell p).default_expr _ q ∙ write-other p q _ st other

  cell-apart :
      (ps : List ℕ) (st : Store) (m : Map ℕ) (q : ℕ)
      → IsApart q ps
      → (canonicalize_columns tf ps st m).0.cell q ≡ st.cell q
  unfolding canonicalize_columns
  cell-apart [] st m q h = refl
  cell-apart (p ∷ ps) st m q h =
      cell-apart ps _ _ q h.1 ∙ canonicalize_column-other p q st (λ e. h.0 (sym e))

  has-kept :
      (ps : List ℕ) (st : Store) (m : Map ℕ) (k : String)
      → has k m ≡ true
      → has k (canonicalize_columns tf ps st m).1 ≡ true
  unfolding canonicalize_columns
  has-kept [] st m k h = h
  has-kept (p ∷ ps) st m k h = has-kept ps _ _ k (has-put _ k p m h)

  columns-AllFound :
      (ps : List ℕ) (st : Store) (m : Map ℕ)
      → Distinct ps
      → AllFound (canonicalize_columns tf ps st m).0 (canonicalize_columns tf ps st m).1 ps
  unfolding canonicalize_columns
  columns-AllFound [] st m h = tt
  columns-AllFound (p ∷ ps) st m h =
      let st₁ = canonicalize_column tf p st in
      let name = (st₁.cell p).name in
      let m₁ = put name p m in
      (
        rw (cell-apart ps st₁ m₁ p h.0) (has-kept ps st₁ m₁ name (has-put_same name p m)),
        columns-AllFound ps st₁ m₁ h.1,
      )

  -- The entries so far are not in the rest of the list.
  abbrev Settled : Store → Map ℕ → List ℕ → Type 0
  Settled st m ps = (k : String) (p : ℕ) → get k m ≡ some p → ((st.cell p).name ≡ k) × IsApart p ps

  columns-Named :
      (ps : List ℕ) (st : Store) (m : Map ℕ)
      → Distinct ps
      → Settled st m ps
      → Named (canonicalize_columns tf ps st m).0 (canonicalize_columns tf ps st m).1
  unfolding canonicalize_columns
  columns-Named [] st m h settled = λ k p at. (settled k p at).0
  columns-Named (p ∷ ps) st m h settled =
      let st₁ = canonicalize_column tf p st in
      let name = (st₁.cell p).name in
      let m₁ = put name p m in
      columns-Named ps st₁ m₁ h.1 (λ k q at.
        let at' = sym (get-put name k p m) ∙ at in
        elim (Bool-cases (str_eq name k)) [
          | inl same ↦
              let here : p ≡ q = ground (arith, at') in
              (
                ap (λ x. (st₁.cell x).name) (sym here) ∙ (eq_iff name k).0 same,
                subst (λ x. IsApart x ps) here h.0,
              )
          | inr other ↦
              let (named, apart) = settled k q (ground (arith, at')) in
              (
                ap (λ c. c.name) (canonicalize_column-other p q st (λ e. apart.0 (sym e))) ∙ named,
                apart.1,
              )
        ])

  no_entries : (st : Store) (ps : List ℕ) → Settled st [] ps
  unfolding get
  no_entries st ps k p at = absurd (cc at)

  -- If no column stands in the table twice: what the map by name finds under a name, behind the
  -- normalisation, is a column with that normalised name.
  pub name-canonicalize_table :
      (st : Store) (t : TableRef) (k : String) (p : ℕ)
      → Distinct t.columns
      → get k (canonicalize_table tf st t).1.column_by_name ≡ some p
      → ((canonicalize_table tf st t).0.cell p).name ≡ k
  unfolding canonicalize_table
  name-canonicalize_table st t k p h at =
      columns-Named t.columns st [] h (no_entries st t.columns) k p at

  -- If no column stands in the table twice: behind the normalisation the map by name has the
  -- normalised name of every column of the table.
  pub canonicalize_table-AllFound :
      (st : Store) (t : TableRef)
      → Distinct t.columns
      → AllFound
          (canonicalize_table tf st t).0
          (canonicalize_table tf st t).1.column_by_name
          t.columns
  unfolding canonicalize_table
  canonicalize_table-AllFound st t h = columns-AllFound t.columns st [] h
