-- ===== src/Normalize/Suffix.antt =====
-- `without_last` takes away a last character.
use Prim.Native.Char.{Char, code}
use Prim.Native.String.{[], ◌∷◌, ◌++◌}
use text.Mathlib.TextLemmas.{nil-append, cons-append}
use migra_go.Prelude.{
  ℕ, String, Bool, true, false, Option, none, some, ◌≡◌, refl, sym, ap, ◌∙◌, nat_eq, if◌then◌else◌,
}
use migra_go.Normalize.Text.{prepend, without_last}

-- What `without_last` takes away is a last character with this code.
abbrev pub EndsIn : ℕ → String → String → Type 0
EndsIn q s t = (c : Char) × (nat_eq (code c) q ≡ true) × (s ≡ t ++ (c ∷ []))

if_empty : (b : Bool) (t : String) → (if b then some [] else none) ≡ some t → (b ≡ true) × (t ≡ [])
if_empty true t e = (refl, cc e)
if_empty false t e = absurd (cc e)

prepend-EndsIn :
    (q : ℕ) (c : Char) (s : String) (o : Option String) (t : String)
    → ((u : String) → o ≡ some u → EndsIn q s u)
    → prepend c o ≡ some t
    → EndsIn q (c ∷ s) t
prepend-EndsIn q c s none t h e = absurd (cc e)
prepend-EndsIn q c s (some u) t h e =
    let (z, is_q, whole) = h u refl in
    let same : c ∷ u ≡ t = cc e in
    (z, is_q, ap (λ r. c ∷ r) whole ∙ sym (cons-append c u (z ∷ [])) ∙ ap (λ r. r ++ (z ∷ [])) same)

pub without_last-EndsIn : (q : ℕ) (s t : String) → without_last q s ≡ some t → EndsIn q s t
unfolding without_last
without_last-EndsIn q [] t e = absurd (cc e)
without_last-EndsIn q (c ∷ []) t e =
    let (is_q, is_empty) = if_empty (nat_eq (code c) q) t e in
    (c, is_q, sym (ap (λ u. u ++ (c ∷ [])) is_empty ∙ nil-append (c ∷ [])))
without_last-EndsIn q (c ∷ d ∷ s) t e =
    prepend-EndsIn q c (d ∷ s) (without_last q (d ∷ s)) t (without_last-EndsIn q (d ∷ s)) e

pub without_last-append :
    (q : ℕ) (s : String) (c : Char)
    → nat_eq (code c) q ≡ true
    → without_last q (s ++ (c ∷ [])) ≡ some s
unfolding without_last
without_last-append q [] c h = rw (nil-append (c ∷ []), h) refl
without_last-append q (x ∷ []) c h = rw (cons-append x [] (c ∷ []), nil-append (c ∷ []), h) refl
without_last-append q (x ∷ y ∷ s) c h =
    let rest = without_last-append q (y ∷ s) c h in
    rw (cons-append x (y ∷ s) (c ∷ []), cons-append y s (c ∷ []))
      (ap (prepend x) (ap (without_last q) (sym (cons-append y s (c ∷ []))) ∙ rest))
