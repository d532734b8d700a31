-- ===== src/Plan/Order/Relax.antt =====
-- The inner loop of Kahn's algorithm: it counts down the degrees of a node's dependents, and queues
-- each that comes to zero.
use migra_go.Prelude.{
  ℕ, zero, suc, ◌+◌, ◌-◌, ◌≤◌, ◌<◌, List, [], ◌∷◌, ◌++◌, ◌≡◌, refl, ap, ◌∙◌, arith, count, nat_eq,
  if◌then◌else◌,
}
use migra_go.Prelude.Int.{pos, pred, is_zero}
use migra_go.Prelude.Counts.{null, same, count-append_one}
use migra_go.Plan.Order.{Kahn, relax, decrement}

-- Degrees as the natural numbers that they are.
abbrev pub HasDegrees : Kahn → (ℕ → ℕ) → Type 0
HasDegrees k f = (y : ℕ) → k.in_degree y ≡ pos (f y)

abbrev lowered : (ℕ → ℕ) → ℕ → ℕ → ℕ
lowered f d y = f y - same y d

pred_pos : (n : ℕ) → 0 < n → pred (pos n) ≡ pos (n - 1)
pred_pos n h = ground arith

pub is_zero_pos : (n : ℕ) → is_zero (pos n) ≡ nat_eq n 0
is_zero_pos zero = refl
is_zero_pos (suc n) = ground arith

module _ (k : Kahn) (f : ℕ → ℕ) (d : ℕ) (degrees : HasDegrees k f) (waits : 0 < f d) where
  decrement-HasDegrees : (y : ℕ) → decrement k.in_degree d y ≡ pos (lowered f d y)
  decrement-HasDegrees y = ground (arith, degrees y, degrees d, pred_pos (f d))

  enqueue-count :
      (y : ℕ)
      → count y (if is_zero (decrement k.in_degree d d) then k.queue ++ d ∷ [] else k.queue)
          + null (f y)
        ≡ count y k.queue + null (lowered f d y)
  enqueue-count y =
      rw (decrement-HasDegrees d, is_zero_pos (lowered f d d))
        (ground (arith, count-append_one y k.queue d))

-- Every dependent stands once in the list, and each has at least that much to wait for.
pub record IsRelaxable (l : List ℕ) (f : ℕ → ℕ) : Type 0 where
  pub at_most_one : (y : ℕ) → count y l ≤ 1
  pub enough : (y : ℕ) → count y l ≤ f y

IsRelaxable-tail :
    (d : ℕ) (l : List ℕ) (f : ℕ → ℕ) → IsRelaxable (d ∷ l) f → IsRelaxable l (lowered f d)
IsRelaxable-tail d l f h = record {
  at_most_one = λ y. ground (arith, h.at_most_one y);
  enough = λ y. ground (arith, h.enough y, h.at_most_one y);
}

head-waits : (d : ℕ) (l : List ℕ) (f : ℕ → ℕ) → IsRelaxable (d ∷ l) f → 0 < f d
head-waits d l f r = ground (arith, r.enough d)

lowered-sub :
    (f : ℕ → ℕ) (d y c : ℕ) → lowered f d y - c ≡ f y - ((if nat_eq y d then 1 else 0) + c)
lowered-sub f d y c = omega arith

add_cancel : (a b c d e m : ℕ) → a + b ≡ c + d → c + e ≡ m + b → a + e ≡ m + d
add_cancel a b c d e m p q = omega arith

pub relax-HasDegrees :
    (l : List ℕ) (k : Kahn) (f : ℕ → ℕ)
    → IsRelaxable l f
    → HasDegrees k f
    → HasDegrees (relax l k) (λ y. f y - count y l)
unfolding relax
relax-HasDegrees [] k f r h y = ground (arith, h y)
relax-HasDegrees (d ∷ l) k f r h y =
    relax-HasDegrees l _ (lowered f d) (IsRelaxable-tail d l f r)
      (decrement-HasDegrees k f d h (head-waits d l f r)) y
    ∙ ap pos (lowered-sub f d y (count y l))

pub relax-count :
    (l : List ℕ) (k : Kahn) (f : ℕ → ℕ)
    → IsRelaxable l f
    → HasDegrees k f
    → (y : ℕ) → count y (relax l k).queue + null (f y) ≡ count y k.queue + null (f y - count y l)
unfolding relax
relax-count [] k f r h y = ground arith
relax-count (d ∷ l) k f r h y =
    let waits = head-waits d l f r in
    let rest =
      relax-count l _ (lowered f d) (IsRelaxable-tail d l f r) (decrement-HasDegrees k f d h waits)
        y in
    add_cancel _ _ _ _ _ _ (rw (← lowered-sub f d y (count y l)) rest)
      (enqueue-count k f d h waits y)

pub relax_frame :
    (l : List ℕ) (k : Kahn) → ((relax l k).visited ≡ k.visited) × ((relax l k).result ≡ k.result)
unfolding relax
relax_frame [] k = (refl, refl)
relax_frame (d ∷ l) k = relax_frame l _
