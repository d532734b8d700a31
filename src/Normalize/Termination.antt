-- ===== src/Normalize/Termination.antt =====
-- About the loop over parentheses in `normalizeDefaultExpr`, and that an element type is shorter than
-- its array type.
use Prim.Native.Char.{Char, code}
use Prim.Native.String.{[], ◌∷◌}
use migra_go.Prelude.{
  ℕ, zero, suc, ◌<◌, ◌≤◌, String, Bool, true, false, Option, none, some, ◌≡◌, refl, sym, ap, ◌∙◌,
  arith, nat_eq, if◌then◌else◌, Option-cases, inl, inr,
}
use migra_go.Normalize.Text.{
  TextFunctions, char_count, prepend, without_last, inside, is_balanced_parens, balanced_only,
  in_parens, element_type, before_bracket, strip_parens,
}

-- `TrimSpace` takes characters away; `ToLower` maps each character to one.
pub record Shortens (tf : TextFunctions) : Type 0 where
  pub trim_shortens : (s : String) → char_count (tf.trim_space s) ≤ char_count s
  pub lower_keeps : (s : String) → char_count (tf.to_lower s) ≤ char_count s

char_count-cons : (c : Char) (s : String) → char_count (c ∷ s) ≡ suc (char_count s)
unfolding char_count
char_count-cons c s = refl

prepend-count :
    (c : Char) (o : Option String) (n : ℕ) (t : String)
    → ((u : String) → o ≡ some u → suc (char_count u) ≡ n)
    → prepend c o ≡ some t
    → suc (char_count t) ≡ suc n
unfolding char_count
prepend-count c none n t h e = absurd (cc e)
prepend-count c (some u) n t h e =
    let same : c ∷ u ≡ t = cc e in ap suc (ap char_count (sym same) ∙ h u refl)

if_some-count : (b : Bool) (s t : String) → (if b then some s else none) ≡ some t → t ≡ s
if_some-count true s t e = cc e
if_some-count false s t e = absurd (cc e)

without_last-count :
    (q : ℕ) (s t : String) → without_last q s ≡ some t → suc (char_count t) ≡ char_count s
unfolding without_last char_count
without_last-count q [] t e = absurd (cc e)
without_last-count q (c ∷ []) t e = ap (λ u. suc (char_count u)) (if_some-count _ [] t e)
without_last-count q (c ∷ d ∷ s) t e =
    prepend-count c (without_last q (d ∷ s)) (char_count (d ∷ s)) t (without_last-count q (d ∷ s)) e

if_option :
    (b : Bool) (o : Option String) (t : String) → (if b then o else none) ≡ some t → o ≡ some t
if_option true o t e = e
if_option false o t e = absurd (cc e)

inside-count :
    (opening closing : ℕ) (s t : String)
    → inside opening closing s ≡ some t
    → char_count t < char_count s
unfolding inside char_count
inside-count opening closing [] t e = absurd (cc e)
inside-count opening closing (c ∷ s) t e =
    omega (arith, without_last-count closing s t (if_option (nat_eq (code c) opening) _ t e))

balanced_only-some : (o : Option String) (t : String) → balanced_only o ≡ some t → o ≡ some t
balanced_only-some none t e = e
balanced_only-some (some s) t e = ap some (sym (if_some-count (is_balanced_parens s) s t e))

in_parens-count : (s t : String) → in_parens s ≡ some t → char_count t < char_count s
unfolding in_parens
in_parens-count s t e = inside-count b'(' b')' s t (balanced_only-some _ t e)

before_bracket-count :
    (o : Option String) (n : ℕ) (t : String)
    → ((u : String) → o ≡ some u → suc (char_count u) ≡ n)
    → before_bracket o ≡ some t
    → char_count t < n
before_bracket-count none n t h e = absurd (cc e)
before_bracket-count (some s) n t h e = omega (arith, h s refl, without_last-count b'[' s t e)

element_type-count : (s t : String) → element_type s ≡ some t → char_count t < char_count s
unfolding element_type
element_type-count s t e =
    before_bracket-count (without_last b']' s) (char_count s) t (without_last-count b']' s) e

-- Rounds of the loop: parentheses around the whole text go, then white space.
pub data Strips (tf : TextFunctions) : String → String → Type 0 where
  stop : {expr : String} → Strips tf expr expr
  again :
      {expr s bare : String}
      → in_parens expr ≡ some s
      → Strips tf (tf.trim_space s) bare
      → Strips tf expr bare

module _ (tf : TextFunctions) (h : Shortens tf) where
  strip_parens-bare :
      (fuel : ℕ) (expr : String)
      → char_count expr ≤ fuel
      → in_parens (strip_parens tf fuel expr) ≡ none
  unfolding strip_parens
  strip_parens-bare zero expr le = elim (Option-cases (in_parens expr)) [
    | inl bare ↦ bare
    | inr (s, at) ↦ absurd (omega (arith, in_parens-count expr s at))
  ]
  strip_parens-bare (suc fuel) expr le = elim (Option-cases (in_parens expr)) [
    | inl bare ↦ rw (strip_parens, bare) bare
    | inr (s, at) ↦
        rw (strip_parens, at)
          (strip_parens-bare fuel (tf.trim_space s)
            (omega (arith, in_parens-count expr s at, h.trim_shortens s)))
  ]

  strip_parens-Strips : (fuel : ℕ) (expr : String) → Strips tf expr (strip_parens tf fuel expr)
  unfolding strip_parens
  strip_parens-Strips zero expr = stop
  strip_parens-Strips (suc fuel) expr = elim (Option-cases (in_parens expr)) [
    | inl bare ↦ rw (strip_parens, bare) stop
    | inr (s, at) ↦ rw (strip_parens, at) (again at (strip_parens-Strips fuel (tf.trim_space s)))
  ]

  -- If trimming and lowering make no text longer: the loop of normalizeDefaultExpr comes by its steps
  -- to a text that no balanced parentheses enclose, so the bound on its rounds is never what ends it.
  pub strip_parens-ends :
      (expr : String)
      → let bare = strip_parens tf (char_count expr) expr in
        Strips tf expr bare × (in_parens bare ≡ none)
  strip_parens-ends expr = (
    strip_parens-Strips (char_count expr) expr,
    strip_parens-bare (char_count expr) expr (omega arith),
  )

  -- The element type is shorter.
  pub base-count :
      (dt base : String)
      → element_type (tf.to_lower (tf.trim_space dt)) ≡ some base
      → char_count base < char_count dt
  base-count dt base e =
      omega
        (arith, element_type-count _ base e, h.lower_keeps (tf.trim_space dt), h.trim_shortens dt)
