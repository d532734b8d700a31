-- ===== src/Normalize/Keeps.antt =====
-- Normalising new columns in place leaves all older ones as they were.
use migra_go.Prelude.{
  ℕ, ◌<◌, ◌≤◌, Option, none, some, List, [], ◌∷◌, ◌≡◌, refl, sym, ap, ◌∙◌, subst, arith, Map, All,
  All-map, nat_eq, Bool-cases, inl, inr,
}
use migra_go.Model.Store.{ColumnRef, TableRef, NamespaceRef, Store, write, write_text}
use migra_go.Model.Store.Allocate.{Preserves}
use migra_go.Model.Clone.New.{TextIsNew, IsNew}
use migra_go.Model.Clone.Separate.{TablesCopy}
use migra_go.Model.Clone.Deep.{SchemaCopy}
use migra_go.Normalize.Text.{TextFunctions}
use migra_go.Normalize.{
  canonicalize_default, canonicalize_column, canonicalize_columns, canonicalize_table,
  canonicalize_tables, canonicalize_namespace, canonicalize_schema,
}

-- These are no columns and no texts of the first store: every column of the tables stands behind
-- its addresses, and so does the column's default.
abbrev pub TextAfter : Store → Option ℕ → Type 0
TextAfter old none = Unit {0}
TextAfter old (some a) = old.next_text ≤ a

abbrev pub IsAfter : Store → Store → ℕ → Type 0
IsAfter old st p = (old.next ≤ p) × TextAfter old (st.cell p).default_expr

abbrev pub TablesAfter : Store → Store → Map TableRef → Type 0
TablesAfter old st m = All (λ e. All (IsAfter old st) e.1.columns) m

abbrev pub SchemaAfter : Store → Store → Map NamespaceRef → Type 0
SchemaAfter old st m = All (λ e. TablesAfter old st e.1.tables) m

TextIsNew-TextAfter :
    (old st st' : Store) (o : Option ℕ) → Preserves old st → TextIsNew st st' o → TextAfter old o
TextIsNew-TextAfter old st st' none g h = tt
TextIsNew-TextAfter old st st' (some a) g h = omega (arith, g.text_grows, h.0)

IsNew-IsAfter :
    (old st st' : Store) (ps : List ℕ)
    → Preserves old st
    → All (IsNew st st') ps
    → All (IsAfter old st') ps
IsNew-IsAfter old st st' [] g h = tt
IsNew-IsAfter old st st' (p ∷ ps) g (new, rest) = (
  (
    omega (arith, g.next_grows, new.0),
    TextIsNew-TextAfter old st st' (st'.cell p).default_expr g new.2,
  ),
  IsNew-IsAfter old st st' ps g rest,
)

TablesCopy-TablesAfter :
    (old st : Store) (m : Map TableRef) (st' : Store) (m' : Map TableRef)
    → Preserves old st
    → TablesCopy st m st' m'
    → TablesAfter old st' m'
TablesCopy-TablesAfter old st [] st' [] g c = tt
TablesCopy-TablesAfter old st [] st' (_ ∷ m') g c = elim c [ ]
TablesCopy-TablesAfter old st (_ ∷ m) st' [] g c = elim c [ ]
TablesCopy-TablesAfter old st ((name, t) ∷ m) st' ((name', t') ∷ m') g (_, copy, rest) = (
  IsNew-IsAfter old st st' t'.columns g copy.all_new,
  TablesCopy-TablesAfter old st m st' m' g rest,
)

pub SchemaCopy-SchemaAfter :
    (old st : Store) (m : Map NamespaceRef) (st' : Store) (m' : Map NamespaceRef)
    → Preserves old st
    → SchemaCopy st m st' m'
    → SchemaAfter old st' m'
SchemaCopy-SchemaAfter old st [] st' [] g c = tt
SchemaCopy-SchemaAfter old st [] st' (_ ∷ m') g c = elim c [ ]
SchemaCopy-SchemaAfter old st (_ ∷ m) st' [] g c = elim c [ ]
SchemaCopy-SchemaAfter old st ((name, ns) ∷ m) st' ((name', ns') ∷ m') g (_, _, tables, rest) = (
  TablesCopy-TablesAfter old st ns.tables st' ns'.tables g tables,
  SchemaCopy-SchemaAfter old st m st' m' g rest,
)

-- The columns and the texts of the first store are unchanged, and no column's pointer to its default
-- is.
pub record Keeps (old st st' : Store) : Type 0 where
  pub cells : (q : ℕ) → q < old.next → st'.cell q ≡ st.cell q
  pub texts : (a : ℕ) → a < old.next_text → st'.text a ≡ st.text a
  pub pointers : (q : ℕ) → (st'.cell q).default_expr ≡ (st.cell q).default_expr

Keeps-refl : (old st : Store) → Keeps old st st
Keeps-refl old st = record { cells = λ q lt. refl; texts = λ a lt. refl; pointers = λ q. refl }

Keeps-trans : {old st st' st'' : Store} → Keeps old st st' → Keeps old st' st'' → Keeps old st st''
Keeps-trans g h = record {
  cells = λ q lt. h.cells q lt ∙ g.cells q lt;
  texts = λ a lt. h.texts a lt ∙ g.texts a lt;
  pointers = λ q. h.pointers q ∙ g.pointers q;
}

IsAfter-later :
    (old st st' : Store) (ps : List ℕ)
    → Keeps old st st'
    → All (IsAfter old st) ps
    → All (IsAfter old st') ps
IsAfter-later old st st' [] k h = tt
IsAfter-later old st st' (p ∷ ps) k h =
    ((h.0.0, subst (TextAfter old) (sym (k.pointers p)) h.0.1), IsAfter-later old st st' ps k h.1)

TablesAfter-later :
    (old st st' : Store) (m : Map TableRef)
    → Keeps old st st'
    → TablesAfter old st m
    → TablesAfter old st' m
TablesAfter-later old st st' m k h = All-map m (λ e. IsAfter-later old st st' e.1.columns k) h

pub SchemaAfter-later :
    (old st st' : Store) (m : Map NamespaceRef)
    → Keeps old st st'
    → SchemaAfter old st m
    → SchemaAfter old st' m
SchemaAfter-later old st st' m k h = All-map m (λ e. TablesAfter-later old st st' e.1.tables k) h

module _ (tf : TextFunctions) (old : Store) where
  default-Keeps :
      (o : Option ℕ) (st : Store) → TextAfter old o → Keeps old st (canonicalize_default tf o st)
  unfolding canonicalize_default write_text
  default-Keeps none st h = Keeps-refl old st
  default-Keeps (some a) st h = record {
    cells = λ q lt. refl;
    texts = λ b lt. elim (Bool-cases (nat_eq b a)) [
      | inl same ↦ absurd (ground (arith, same, h, lt))
      | inr other ↦ rw other refl
    ];
    pointers = λ q. refl;
  }

  write-Keeps :
      (p : ℕ) (col : ColumnRef) (st : Store)
      → old.next ≤ p
      → col.default_expr ≡ (st.cell p).default_expr
      → Keeps old st (write p col st)
  unfolding write
  write-Keeps p col st le same_pointer = record {
    cells = λ q lt. elim (Bool-cases (nat_eq q p)) [
      | inl same ↦ absurd (ground (arith, same, le, lt))
      | inr other ↦ rw other refl
    ];
    texts = λ a lt. refl;
    pointers = λ q. elim (Bool-cases (nat_eq q p)) [
      | inl same ↦
          let here : q ≡ p = ground (arith, same) in
          rw same (same_pointer ∙ ap (λ x. (st.cell x).default_expr) (sym here))
      | inr other ↦ rw other refl
    ];
  }

  column-Keeps :
      (p : ℕ) (st : Store) → IsAfter old st p → Keeps old st (canonicalize_column tf p st)
  unfolding canonicalize_column
  column-Keeps p st h =
      Keeps-trans (write-Keeps p _ st h.0 refl) (default-Keeps (st.cell p).default_expr _ h.1)

  columns-Keeps :
      (ps : List ℕ) (st : Store) (by_name : Map ℕ)
      → All (IsAfter old st) ps
      → Keeps old st (canonicalize_columns tf ps st by_name).0
  unfolding canonicalize_columns
  columns-Keeps [] st by_name h = Keeps-refl old st
  columns-Keeps (p ∷ ps) st by_name h =
      let st' = canonicalize_column tf p st in
      let first = column-Keeps p st h.0 in
      Keeps-trans first (columns-Keeps ps st' _ (IsAfter-later old st st' ps first h.1))

  tables-Keeps :
      (st : Store) (m : Map TableRef)
      → TablesAfter old st m
      → Keeps old st (canonicalize_tables tf st m).0
  unfolding canonicalize_tables canonicalize_table
  tables-Keeps st [] h = Keeps-refl old st
  tables-Keeps st ((name, t) ∷ m) h =
      let st' = (canonicalize_columns tf t.columns st []).0 in
      let first = columns-Keeps t.columns st [] h.0 in
      Keeps-trans first (tables-Keeps st' m (TablesAfter-later old st st' m first h.1))

  pub schema-Keeps :
      (st : Store) (m : Map NamespaceRef)
      → SchemaAfter old st m
      → Keeps old st (canonicalize_schema tf st m).0
  unfolding canonicalize_schema canonicalize_namespace
  schema-Keeps st [] h = Keeps-refl old st
  schema-Keeps st ((name, ns) ∷ m) h =
      let st' = (canonicalize_tables tf st ns.tables).0 in
      let first = tables-Keeps st ns.tables h.0 in
      Keeps-trans first (schema-Keeps st' m (SchemaAfter-later old st st' m first h.1))
