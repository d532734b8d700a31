-- ===== src/Normalize/Balanced.antt =====
-- About `isBalancedParens`.
use Prim.Native.Char.{Char, code}
use Prim.Native.String.{[], ◌∷◌, ◌++◌}
use text.Mathlib.TextLemmas.{nil-append, cons-append, append_assoc, append-nil}
use migra_go.Prelude.{
  ℕ, zero, suc, String, true, false, ◌≡◌, ◌↔◌, refl, sym, ap, ◌∙◌, subst, arith, nat_eq, Bool-cases,
  inl, inr,
}
use migra_go.Normalize.Text.{is_balanced_from, is_balanced_parens}

abbrev IsOpening : Char → Type 0
IsOpening c = nat_eq (code c) b'(' ≡ true

abbrev IsClosing : Char → Type 0
IsClosing c = nat_eq (code c) b')' ≡ true

-- Balanced texts as a grammar: nothing, another character before one, or one in parentheses before
-- one.
pub data Balanced : String → Type 0 where
  empty : Balanced []
  other :
      (c : Char) (s : String)
      → nat_eq (code c) b'(' ≡ false
      → nat_eq (code c) b')' ≡ false
      → Balanced s
      → Balanced (c ∷ s)
  nest :
      (o c : Char) (s t : String)
      → IsOpening o
      → IsClosing c
      → Balanced s
      → Balanced t
      → Balanced (o ∷ (s ++ (c ∷ t)))

-- A text that closes so many parentheses.
data Closes : ℕ → String → Type 0 where
  all : {s : String} → Balanced s → Closes 0 s
  one_more :
      {n : ℕ} (c : Char) (s t : String)
      → IsClosing c
      → Balanced s
      → Closes n t
      → Closes (suc n) (s ++ (c ∷ t))

from-opening :
    (n : ℕ) (c : Char) (s : String)
    → IsOpening c
    → is_balanced_from n (c ∷ s) ≡ is_balanced_from (suc n) s
unfolding is_balanced_from
from-opening n c s e = rw e refl

from-closing :
    (n : ℕ) (c : Char) (s : String)
    → IsClosing c
    → is_balanced_from (suc n) (c ∷ s) ≡ is_balanced_from n s
unfolding is_balanced_from
from-closing n c s e = ground arith

from-other :
    (n : ℕ) (c : Char) (s : String)
    → nat_eq (code c) b'(' ≡ false
    → nat_eq (code c) b')' ≡ false
    → is_balanced_from n (c ∷ s) ≡ is_balanced_from n s
unfolding is_balanced_from
from-other n c s e f = rw (e, f) refl

Balanced-from :
    (n : ℕ) {s : String} (rest : String)
    → Balanced s
    → is_balanced_from n (s ++ rest) ≡ is_balanced_from n rest
Balanced-from n rest empty = ap (is_balanced_from n) (nil-append rest)
Balanced-from n rest (other c s e f b) =
    ap (is_balanced_from n) (cons-append c s rest)
    ∙ from-other n c (s ++ rest) e f
    ∙ Balanced-from n rest b
Balanced-from n rest (nest o c s t e f b b') =
    ap (is_balanced_from n) (cons-append o (s ++ (c ∷ t)) rest)
    ∙ from-opening n o ((s ++ (c ∷ t)) ++ rest) e
    ∙ ap (is_balanced_from (suc n)) (append_assoc s (c ∷ t) rest)
    ∙ Balanced-from (suc n) ((c ∷ t) ++ rest) b
    ∙ ap (is_balanced_from (suc n)) (cons-append c t rest)
    ∙ from-closing n c (t ++ rest) f
    ∙ Balanced-from n rest b'

Closes-other :
    (n : ℕ) (c : Char) (s : String)
    → nat_eq (code c) b'(' ≡ false
    → nat_eq (code c) b')' ≡ false
    → Closes n s
    → Closes n (c ∷ s)
Closes-other n c s e f (all b) = all (other c s e f b)
Closes-other n c s e f (one_more {n = m} d u t h b k) =
    subst (Closes (suc m)) (cons-append c u (d ∷ t)) (one_more d (c ∷ u) t h (other c u e f b) k)

nest-Closes :
    (n : ℕ) (o c : Char) (s t : String)
    → IsOpening o
    → IsClosing c
    → Balanced s
    → Closes n t
    → Closes n (o ∷ (s ++ (c ∷ t)))
nest-Closes n o c s t e f b (all b') = all (nest o c s t e f b b')
nest-Closes n o c s t e f b (one_more {n = m} d u v h b' k) =
    subst (Closes (suc m))
      (cons-append o (s ++ (c ∷ u)) (d ∷ v)
        ∙ ap (λ x. o ∷ x)
            (append_assoc s (c ∷ u) (d ∷ v) ∙ ap (λ x. s ++ x) (cons-append c u (d ∷ v))))
      (one_more d (o ∷ (s ++ (c ∷ u))) v h (nest o c s u e f b b') k)

Closes-opening : (n : ℕ) (o : Char) (s : String) → IsOpening o → Closes (suc n) s → Closes n (o ∷ s)
Closes-opening n o s e (one_more {n = m} c u t f b k) = nest-Closes n o c u t e f b k

closing_none : (c : Char) (s : String) → IsClosing c → is_balanced_from zero (c ∷ s) ≡ false
unfolding is_balanced_from
closing_none c s e = ground arith

unclosed : (n : ℕ) → is_balanced_from (suc n) [] ≡ false
unfolding is_balanced_from
unclosed n = ground arith

Closes-from : (n : ℕ) (s : String) → is_balanced_from n s ≡ true → Closes n s
Closes-from zero [] e = all empty
Closes-from (suc n) [] e = absurd (cc (sym (unclosed n) ∙ e))
Closes-from zero (c ∷ s) e = elim (Bool-cases (nat_eq (code c) b'(')) [
  | inl opens ↦
      Closes-opening zero c s opens (Closes-from 1 s (sym (from-opening zero c s opens) ∙ e))
  | inr plain ↦ elim (Bool-cases (nat_eq (code c) b')')) [
    | inl closes ↦ absurd (cc (sym (closing_none c s closes) ∙ e))
    | inr other_char ↦
        Closes-other zero c s plain other_char
          (Closes-from zero s (sym (from-other zero c s plain other_char) ∙ e))
  ]
]
Closes-from (suc n) (c ∷ s) e = elim (Bool-cases (nat_eq (code c) b'(')) [
  | inl opens ↦
      Closes-opening (suc n) c s opens
        (Closes-from (suc (suc n)) s (sym (from-opening (suc n) c s opens) ∙ e))
  | inr plain ↦ elim (Bool-cases (nat_eq (code c) b')')) [
    | inl closes ↦
        subst (Closes (suc n)) (nil-append (c ∷ s))
          (one_more c [] s closes empty (Closes-from n s (sym (from-closing n c s closes) ∙ e)))
    | inr other_char ↦
        Closes-other (suc n) c s plain other_char
          (Closes-from (suc n) s (sym (from-other (suc n) c s plain other_char) ∙ e))
  ]
]

nothing_open : is_balanced_from zero [] ≡ true
unfolding is_balanced_from
nothing_open = refl

Closes-none : (s : String) → Closes zero s → Balanced s
Closes-none s (all b) = b

-- isBalancedParens accepts exactly the texts of the grammar of balanced parentheses.
pub is_balanced_parens-Balanced : (s : String) → (is_balanced_parens s ≡ true) ↔ Balanced s
unfolding is_balanced_parens
is_balanced_parens-Balanced s = (
  λ e. Closes-none s (Closes-from zero s e),
  λ b. ap (is_balanced_from zero) (sym (append-nil s)) ∙ Balanced-from zero [] b ∙ nothing_open,
)
