-- ===== src/Model/Store/Allocate.antt =====
-- What a new column or a new text changes in the store.
use migra_go.Prelude.{
  ℕ, suc, String, Option, none, some, ◌<◌, ◌≤◌, ◌≡◌, refl, sym, ap, ◌∙◌, arith, subst, List, [],
  ◌∷◌, map, All,
}
use migra_go.Model.Objects.{Column}
use migra_go.Model.Store.{ColumnRef, Store, write, write_text, allocate, allocate_text}

pub allocate-at : (col : ColumnRef) (st : Store) → (allocate col st).cell st.next ≡ col
unfolding allocate write
allocate-at col st = ground arith

pub allocate-below :
    (col : ColumnRef) (st : Store) (p : ℕ) → p < st.next → (allocate col st).cell p ≡ st.cell p
unfolding allocate write
allocate-below col st p lt = ground arith

pub allocate-next : (col : ColumnRef) (st : Store) → (allocate col st).next ≡ suc st.next
unfolding allocate
allocate-next col st = refl

pub allocate_text-at : (s : String) (st : Store) → (allocate_text s st).text st.next_text ≡ s
unfolding allocate_text write_text
allocate_text-at s st = ground arith

allocate_text-below :
    (s : String) (st : Store) (a : ℕ) → a < st.next_text → (allocate_text s st).text a ≡ st.text a
unfolding allocate_text write_text
allocate_text-below s st a lt = ground arith

-- The columns and the texts that were there are unchanged.
pub record Preserves (st st' : Store) : Type 0 where
  pub next_grows : st.next ≤ st'.next
  pub text_grows : st.next_text ≤ st'.next_text
  pub cells_kept : (p : ℕ) → p < st.next → st'.cell p ≡ st.cell p
  pub texts_kept : (a : ℕ) → a < st.next_text → st'.text a ≡ st.text a

pub Preserves-refl : (st : Store) → Preserves st st
Preserves-refl st = record {
  next_grows = omega arith;
  text_grows = omega arith;
  cells_kept = λ p lt. refl;
  texts_kept = λ a lt. refl;
}

pub Preserves-trans :
    (st st' st'' : Store) → Preserves st st' → Preserves st' st'' → Preserves st st''
Preserves-trans st st' st'' g h = record {
  next_grows = omega (arith, g.next_grows, h.next_grows);
  text_grows = omega (arith, g.text_grows, h.text_grows);
  cells_kept = λ p lt. h.cells_kept p (omega (arith, g.next_grows)) ∙ g.cells_kept p lt;
  texts_kept = λ a lt. h.texts_kept a (omega (arith, g.text_grows)) ∙ g.texts_kept a lt;
}

pub Preserves-allocate : (col : ColumnRef) (st : Store) → Preserves st (allocate col st)
unfolding allocate write
Preserves-allocate col st = record {
  next_grows = omega arith;
  text_grows = omega arith;
  cells_kept = λ p lt. ground arith;
  texts_kept = λ a lt. refl;
}

pub Preserves-allocate_text : (s : String) (st : Store) → Preserves st (allocate_text s st)
unfolding allocate_text write_text
Preserves-allocate_text s st = record {
  next_grows = omega arith;
  text_grows = omega arith;
  cells_kept = λ p lt. refl;
  texts_kept = λ a lt. ground arith;
}

-- The text that an address leads to.
abbrev pub text_at : Store → Option ℕ → Option String
text_at st none = none
text_at st (some a) = some (st.text a)

-- The value of a column: with its default's text in place of the address.
abbrev pub value_of : Store → ColumnRef → Column
value_of st c = record {
  name = c.name;
  data_type = c.data_type;
  is_nullable = c.is_nullable;
  default_expr = text_at st c.default_expr;
  is_identity = c.is_identity;
  identity_kind = c.identity_kind;
  collation = c.collation;
}

abbrev pub column_at : Store → ℕ → Column
column_at st p = value_of st (st.cell p)

abbrev pub TextBelow : Store → Option ℕ → Type 0
TextBelow st none = Unit {0}
TextBelow st (some a) = a < st.next_text

-- The column stands in the store, and so does its default.
abbrev pub IsBelow : Store → ℕ → Type 0
IsBelow st p = (p < st.next) × TextBelow st (st.cell p).default_expr

text_at-kept :
    (st st' : Store) (o : Option ℕ)
    → Preserves st st'
    → TextBelow st o
    → text_at st' o ≡ text_at st o
text_at-kept st st' none g h = refl
text_at-kept st st' (some a) g h = ap some (g.texts_kept a h)

TextBelow-later :
    (st st' : Store) (o : Option ℕ) → Preserves st st' → TextBelow st o → TextBelow st' o
TextBelow-later st st' none g h = tt
TextBelow-later st st' (some a) g h = omega (arith, g.text_grows, h)

pub column_at-kept :
    (st st' : Store) (p : ℕ) → Preserves st st' → IsBelow st p → column_at st' p ≡ column_at st p
column_at-kept st st' p g h =
    ap (value_of st') (g.cells_kept p h.0)
    ∙ ap (λ d. record (value_of st (st.cell p)) { default_expr = d })
        (text_at-kept st st' (st.cell p).default_expr g h.1)

-- The columns behind old addresses are what they were.
pub Preserves-map :
    (st st' : Store) (ps : List ℕ)
    → Preserves st st'
    → All (IsBelow st) ps
    → map (column_at st') ps ≡ map (column_at st) ps
Preserves-map st st' [] g h = refl
Preserves-map st st' (p ∷ ps) g h =
    ap (λ c. c ∷ map (column_at st') ps) (column_at-kept st st' p g h.0)
    ∙ ap (λ cs. column_at st p ∷ cs) (Preserves-map st st' ps g h.1)

pub IsBelow-later : (st st' : Store) (p : ℕ) → Preserves st st' → IsBelow st p → IsBelow st' p
IsBelow-later st st' p g h = (
  omega (arith, g.next_grows, h.0),
  subst (λ c. TextBelow st' c.default_expr) (sym (g.cells_kept p h.0))
      (TextBelow-later st st' (st.cell p).default_expr g h.1),
)

pub Preserves-IsBelow :
    (st st' : Store) (ps : List ℕ) → Preserves st st' → All (IsBelow st) ps → All (IsBelow st') ps
Preserves-IsBelow st st' [] g h = tt
Preserves-IsBelow st st' (p ∷ ps) g h =
    (IsBelow-later st st' p g h.0, Preserves-IsBelow st st' ps g h.1)
