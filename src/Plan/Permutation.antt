-- ===== src/Plan/Permutation.antt =====
-- A listing of the nodes makes a permutation of the operations.
use mathlib.Core.Nat
use mathlib.Core.List
use mathlib.Core.List.{
  Perm, Permᴰ, perm_iff_count, count-cons_self, count-cons_of_ne, perm_append_comm,
}
use mathlib.Core.List.Perm
use mathlib.Core.Logic.{∥∥₁_elim}
use native.Mathlib.Bridge.{from_ℕ, to_ℕ, to_ℕ-from_ℕ}
use migra_go.Prelude.{
  ℕ, suc, ◌+◌, List, [], ◌∷◌, ◌++◌, ◌≡◌, refl, ap, sym, ◌∙◌, arith, count, length, get_elem?,
  range_from, ℕ_discrete, append_assoc, subst, some,
}
use migra_go.Prelude.Counts.{count-range_from}
use migra_go.Diff.Operation.{Operation}
use migra_go.Plan.Graph.{IsListing}
use migra_go.Plan.Order.{op_list}
use migra_go.Plan.Order.Invariant.{ops_at}

-- The library's count, as a native number.
count-from_ℕ : (a : ℕ) (l : List ℕ) → from_ℕ (mathlib.Core.List.count ℕ_discrete a l) ≡ count a l
count-from_ℕ a [] = refl
count-from_ℕ a (x ∷ l) = elim (ℕ_discrete x a) [
  | yes e ↦ rw e (ap from_ℕ (count-cons_self ℕ_discrete a l) ∙ ground (arith, count-from_ℕ a l))
  | no n ↦ ap from_ℕ (count-cons_of_ne ℕ_discrete n l) ∙ ground (arith, count-from_ℕ a l)
]

from_ℕ_inj : {m n : mathlib.Core.Nat.ℕ} → from_ℕ m ≡ from_ℕ n → m ≡ n
from_ℕ_inj {m} {n} e = sym (to_ℕ-from_ℕ m) ∙ ap to_ℕ e ∙ to_ℕ-from_ℕ n

pub perm_of_count : (l m : List ℕ) → ((a : ℕ) → count a l ≡ count a m) → Perm l m
perm_of_count l m h =
    (perm_iff_count ℕ_discrete).1
      (λ a. from_ℕ_inj (count-from_ℕ a l ∙ h a ∙ sym (count-from_ℕ a m)))

module _ (nodes : List Operation) where
  ops_at-perm : {l m : List ℕ} → Permᴰ l m → Perm (ops_at nodes l) (ops_at nodes m)
  ops_at-perm Permᴰ.nil = Perm.nil
  ops_at-perm (Permᴰ.cons {a = a} e p) = rw e (Perm.append_left _ (ops_at-perm p))
  ops_at-perm (Permᴰ.swap {a' = x} {b' = y} {l = l} e e') =
      let f = λ (p : ℕ). op_list (get_elem? nodes p) in
      rw
        (
          e,
          e',
          ← append_assoc (f y) (f x) (ops_at nodes l),
          ← append_assoc (f x) (f y) (ops_at nodes l),
        )
        (Perm.append_right (ops_at nodes l) (perm_append_comm (f y) (f x)))
  ops_at-perm (Permᴰ.trans p q) = Perm.trans (ops_at-perm p) (ops_at-perm q)

ops_at-range_from :
    (all rest : List Operation) (i : ℕ)
    → ((j : ℕ) → get_elem? all (j + i) ≡ get_elem? rest j)
    → ops_at all (range_from i (length rest)) ≡ rest
ops_at-range_from all [] i h = refl
ops_at-range_from all (op ∷ rest) i h =
    let here : get_elem? all i ≡ some op = ap (get_elem? all) (omega arith) ∙ h 0 in
    ap (λ o. op_list o ++ ops_at all (range_from (suc i) (length rest))) here
    ∙ ap (λ l. op ∷ l)
        (ops_at-range_from all rest (suc i) (λ j. ap (get_elem? all) (omega arith) ∙ h (suc j)))

pub listing-perm :
    (nodes : List Operation) (order : List ℕ)
    → IsListing (length nodes) order
    → Perm (ops_at nodes order) nodes
listing-perm nodes order listing =
    subst (Perm (ops_at nodes order))
      (ops_at-range_from nodes nodes 0 (λ j. ap (get_elem? nodes) (omega arith)))
      (∥∥₁_elim
        (perm_of_count order (range_from 0 (length nodes))
          (λ a. ground (arith, listing.0 a, listing.1 a, count-range_from a 0 (length nodes))))
        squash₁ (ops_at-perm nodes))
