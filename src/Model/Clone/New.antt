-- ===== src/Model/Clone/New.antt =====
-- `cloneStringPtr` and the `Clone` of a column: the copy stands behind new addresses.
use migra_go.Prelude.{ℕ, ◌<◌, ◌≤◌, Option, none, some, ◌≡◌, refl, sym, ap, ◌∙◌, arith, subst}
use migra_go.Model.Store.{Store, allocate, allocate_text, write, write_text}
use migra_go.Model.Store.Allocate.{
  IsBelow, TextBelow, Preserves, Preserves-refl, Preserves-trans, Preserves-allocate,
  Preserves-allocate_text, allocate-at, allocate-next, allocate_text-at, text_at, value_of,
  column_at,
}
use migra_go.Model.Clone.{clone_string_ptr, clone_column}

-- No text, or one that is not in the first store, but in the second.
abbrev pub TextIsNew : Store → Store → Option ℕ → Type 0
TextIsNew st st' none = Unit {0}
TextIsNew st st' (some a) = (st.next_text ≤ a) × (a < st'.next_text)

-- A column that is not in the first store, but in the second, and so is its default.
abbrev pub IsNew : Store → Store → ℕ → Type 0
IsNew st st' p = (st.next ≤ p) × (p < st'.next) × TextIsNew st st' (st'.cell p).default_expr

TextIsNew-TextBelow : (st st' : Store) (o : Option ℕ) → TextIsNew st st' o → TextBelow st' o
TextIsNew-TextBelow st st' none h = tt
TextIsNew-TextBelow st st' (some a) h = h.1

TextIsNew-widen :
    (st₀ st st' st'' : Store) (o : Option ℕ)
    → Preserves st₀ st
    → Preserves st' st''
    → TextIsNew st st' o
    → TextIsNew st₀ st'' o
TextIsNew-widen st₀ st st' st'' none g g' h = tt
TextIsNew-widen st₀ st st' st'' (some a) g g' h =
    (omega (arith, g.text_grows, h.0), omega (arith, g'.text_grows, h.1))

pub IsNew-IsBelow : (st st' : Store) (p : ℕ) → IsNew st st' p → IsBelow st' p
IsNew-IsBelow st st' p (above, below, text) = (below, TextIsNew-TextBelow st st' _ text)

pub IsNew-widen :
    (st₀ st st' st'' : Store) (p : ℕ)
    → Preserves st₀ st
    → Preserves st' st''
    → IsNew st st' p
    → IsNew st₀ st'' p
IsNew-widen st₀ st st' st'' p g g' (above, below, text) = (
  omega (arith, g.next_grows, above),
  omega (arith, g'.next_grows, below),
  subst (λ c. TextIsNew st₀ st'' c.default_expr) (sym (g'.cells_kept p below))
      (TextIsNew-widen st₀ st st' st'' (st'.cell p).default_expr g g' text),
)

clone_string_ptr-Preserves : (o : Option ℕ) (st : Store) → Preserves st (clone_string_ptr o st).0
unfolding clone_string_ptr
clone_string_ptr-Preserves none st = Preserves-refl st
clone_string_ptr-Preserves (some a) st = Preserves-allocate_text (st.text a) st

clone_string_ptr-next : (o : Option ℕ) (st : Store) → (clone_string_ptr o st).0.next ≡ st.next
unfolding clone_string_ptr allocate_text write_text
clone_string_ptr-next none st = refl
clone_string_ptr-next (some a) st = refl

clone_string_ptr-text_at :
    (o : Option ℕ) (st : Store)
    → text_at (clone_string_ptr o st).0 (clone_string_ptr o st).1 ≡ text_at st o
unfolding clone_string_ptr
clone_string_ptr-text_at none st = refl
clone_string_ptr-text_at (some a) st = ap some (allocate_text-at (st.text a) st)

clone_string_ptr-TextIsNew :
    (o : Option ℕ) (st : Store) → TextIsNew st (clone_string_ptr o st).0 (clone_string_ptr o st).1
unfolding clone_string_ptr allocate_text write_text
clone_string_ptr-TextIsNew none st = tt
clone_string_ptr-TextIsNew (some a) st = (omega arith, omega arith)

-- A new column, behind the address that was free, with the value of the old one.
pub record Cloned (st : Store) (p : ℕ) (st' : Store) (q : ℕ) : Type 0 where
  pub preserves : Preserves st st'
  pub is_new : IsNew st st' q
  pub same_value : column_at st' q ≡ column_at st p

pub clone_column-Cloned :
    (st : Store) (p : ℕ)
    → Cloned st p
        (allocate (clone_column (st.cell p) st).1 (clone_column (st.cell p) st).0)
        (clone_column (st.cell p) st).0.next
unfolding clone_column
clone_column-Cloned st p =
    let o = (st.cell p).default_expr in
    let st₁ = (clone_column (st.cell p) st).0 in
    let col = (clone_column (st.cell p) st).1 in
    let first = clone_string_ptr-Preserves o st in
    let second = Preserves-allocate col st₁ in
    record {
      preserves = Preserves-trans st st₁ (allocate col st₁) first second;
      is_new = (
        omega (arith, clone_string_ptr-next o st),
        omega (arith, allocate-next col st₁),
        subst (λ c. TextIsNew st (allocate col st₁) c.default_expr) (sym (allocate-at col st₁))
            (TextIsNew-widen st st st₁ (allocate col st₁) col.default_expr (Preserves-refl st)
              second (clone_string_ptr-TextIsNew o st)),
      );
      same_value =
          ap (value_of (allocate col st₁)) (allocate-at col st₁)
          ∙ unfold allocate write in
            ap (λ d. record (column_at st p) { default_expr = d }) (clone_string_ptr-text_at o st);
    }
