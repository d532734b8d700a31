-- ===== src/Prelude/Counts.antt =====
-- How often numbers stand in lists, and sums over a range.
use Prim.Native.Nat.{ℕ, zero, suc, ◌+◌, ◌≤◌, ◌<◌}
use mathlib.Core.Path.{◌≡◌, refl}
use mathlib.Core.Bool.{Bool, ◌&&◌}
use native.Mathlib.Decide.{ℕ_discrete}
use mathlib.Core.List.{List, [], ◌∷◌, ◌++◌}
use native.Mathlib.Omega.{arith}
use migra_go.Prelude.Tests.{nat_eq, ltb, leb, if◌then◌else◌}
use migra_go.Prelude.Lists.{length, count, range_from, keep_if}

-- 1 for 0, and 0 for any other number.
abbrev pub null : ℕ → ℕ
null n = if nat_eq n 0 then 1 else 0

abbrev pub same : ℕ → ℕ → ℕ
same x y = if nat_eq x y then 1 else 0

pub count-append : (x : ℕ) (xs ys : List ℕ) → count x (xs ++ ys) ≡ count x xs + count x ys
count-append x [] ys = omega arith
count-append x (y ∷ xs) ys = ground (arith, count-append x xs ys)

pub count-append_one :
    (x : ℕ) (xs : List ℕ) (y : ℕ) → count x (xs ++ y ∷ []) ≡ count x xs + same x y
count-append_one x xs y = ground (arith, count-append x xs (y ∷ []))

-- How many elements of the second list the first lacks.
abbrev pub pending : List ℕ → List ℕ → ℕ
pending done [] = 0
pending done (d ∷ ds) = null (count d done) + pending done ds

pub pending-append_one :
    (x : ℕ) (done l : List ℕ)
    → count x done ≡ 0
    → pending (done ++ x ∷ []) l + count x l ≡ pending done l
pending-append_one x done [] h = refl
pending-append_one x done (d ∷ l) h =
    ground (arith, pending-append_one x done l h, count-append_one d done x)

pub count_of_pending :
    (done l : List ℕ) (x : ℕ) → pending done l ≡ 0 → 0 < count x l → 0 < count x done
count_of_pending done [] x h m = absurd (omega arith)
count_of_pending done (d ∷ l) x h m = ground (arith, count_of_pending done l x)

pub pending_of_count :
    (done l : List ℕ) → ((x : ℕ) → 0 < count x l → 0 < count x done) → pending done l ≡ 0
pending_of_count done [] h = refl
pending_of_count done (d ∷ l) h =
    ground (arith, h d, pending_of_count done l (λ x m. h x (ground arith)))

pub pending-nil : (l : List ℕ) → pending [] l ≡ length l
pending-nil [] = refl
pending-nil (d ∷ l) = omega (arith, pending-nil l)

pub count-le-length : (x : ℕ) (l : List ℕ) → count x l ≤ length l
count-le-length x [] = omega arith
count-le-length x (y ∷ l) = ground (arith, count-le-length x l)

-- Sums of f over the numbers below n.
abbrev pub sum_below : ℕ → (ℕ → ℕ) → ℕ
sum_below zero f = 0
sum_below (suc n) f = f n + sum_below n f

sum_below-add : (n : ℕ) (f g : ℕ → ℕ) → sum_below n (λ i. f i + g i) ≡ sum_below n f + sum_below n g
sum_below-add zero f g = refl
sum_below-add (suc n) f g = omega (arith, sum_below-add n f g)

sum_below-same : (n x : ℕ) → sum_below n (λ i. same i x) ≡ (if ltb x n then 1 else 0)
sum_below-same zero x = ground arith
sum_below-same (suc n) x = ground (arith, sum_below-same n x)

sum_below-zero : (n : ℕ) → sum_below n (λ i. 0) ≡ 0
sum_below-zero zero = refl
sum_below-zero (suc n) = omega (arith, sum_below-zero n)

sum_below-le : (n : ℕ) (f : ℕ → ℕ) → ((i : ℕ) → f i ≤ 1) → sum_below n f ≤ n
sum_below-le zero f h = omega arith
sum_below-le (suc n) f h = omega (arith, h n, sum_below-le n f h)

sum_below-eq : (n : ℕ) (f : ℕ → ℕ) → ((i : ℕ) → i < n → f i ≡ 1) → sum_below n f ≡ n
sum_below-eq zero f h = refl
sum_below-eq (suc n) f h =
    omega (arith, h n (omega arith), sum_below-eq n f (λ i lt. h i (omega arith)))

-- A list of numbers below n is as long as its counts add up to.
pub length-sum :
    (n : ℕ) (l : List ℕ)
    → ((i : ℕ) → n ≤ i → count i l ≡ 0)
    → length l ≡ sum_below n (λ i. count i l)
length-sum n [] h = omega (arith, sum_below-zero n)
length-sum n (x ∷ l) h = ground (
  arith,
  h x,
  sum_below-add n (λ i. same i x) (λ i. count i l),
  sum_below-same n x,
  length-sum n l (λ i le. ground (arith, h i)),
)

pub length-le :
    (n : ℕ) (l : List ℕ)
    → ((i : ℕ) → n ≤ i → count i l ≡ 0)
    → ((i : ℕ) → count i l ≤ 1)
    → length l ≤ n
length-le n l bounded simple =
    omega (arith, length-sum n l bounded, sum_below-le n (λ i. count i l) simple)

pub length-full :
    (n : ℕ) (l : List ℕ)
    → ((i : ℕ) → n ≤ i → count i l ≡ 0)
    → ((i : ℕ) → i < n → count i l ≡ 1)
    → length l ≡ n
length-full n l bounded full =
    omega (arith, length-sum n l bounded, sum_below-eq n (λ i. count i l) full)

-- An element that a test keeps stands there as often as before.
pub count-keep_if :
    (p : ℕ → Bool) (y : ℕ) (l : List ℕ) → count y (keep_if p l) ≡ (if p y then count y l else 0)
count-keep_if p y [] = ground arith
count-keep_if p y (x ∷ l) = elim (ℕ_discrete y x) [
  | yes e ↦ rw e (ground (arith, count-keep_if p x l))
  | no e ↦ ground (arith, count-keep_if p y l)
]

pub count-range_from :
    (y i n : ℕ) → count y (range_from i n) ≡ (if leb i y && ltb y (i + n) then 1 else 0)
count-range_from y i zero = ground arith
count-range_from y i (suc n) = ground (arith, count-range_from y (suc i) n)

sum_below-full :
    (n : ℕ) (f : ℕ → ℕ) → ((i : ℕ) → f i ≤ 1) → sum_below n f ≡ n → (i : ℕ) → i < n → f i ≡ 1
sum_below-full zero f small full i lt = absurd (omega arith)
sum_below-full (suc n) f small full i lt = elim (ℕ_discrete i n) [
  | yes e ↦ rw e (omega (arith, small n, sum_below-le n f small))
  | no e ↦ sum_below-full n f small (omega (arith, small n, sum_below-le n f small)) i (omega arith)
]

-- n numbers below n, none twice, are all of them.
pub count_of_length :
    (n : ℕ) (l : List ℕ)
    → ((i : ℕ) → n ≤ i → count i l ≡ 0)
    → ((i : ℕ) → count i l ≤ 1)
    → length l ≡ n
    → (i : ℕ) → i < n
    → count i l ≡ 1
count_of_length n l bounded simple full =
    sum_below-full n (λ i. count i l) simple (omega (arith, length-sum n l bounded))
