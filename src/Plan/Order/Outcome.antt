-- ===== src/Plan/Order/Outcome.antt =====
-- What `GetExecutionOrder` returns, on every path.
use migra_go.Prelude.{ℕ, suc, Bool, true, false, List, [], ◌≡◌, refl, arith, length, nat_eq, if_ind}
use migra_go.Prelude.Counts.{length-full}
use migra_go.Context.{Context}
use migra_go.Diff.Operation.{Operation}
use migra_go.Plan.Dag.{Dag}
use migra_go.Plan.Graph.{IsGraph, IsTopological, IsListing, IsRanked}
use migra_go.Plan.Result.{Result, ok, cancelled, cycle_detected, out_of_fuel}
use migra_go.Plan.Order.{Kahn, start, finish, get_execution_order}
use migra_go.Plan.Order.Invariant.{ops_at}
use migra_go.Plan.Order.Correct.{
  LoopPost, loop-LoopPost, start-Inv, visited-IsListing, visited-all, visited-bounded,
  result-length,
}

-- A list of operations is right if it is that of all nodes, each once and behind all that it waits
-- for. Cancellation is reported only where the context says so, and a cycle only where no rank
-- grows along the dependencies. The fuel does not run out.
unfoldable pub OrderPost :
    (ℕ → Bool) → List Operation → (ℕ → List ℕ) → Result (List Operation) → Type 0
OrderPost err_at nodes deps (ok ops) =
    (order : List ℕ) × (ops ≡ ops_at nodes order)
    × IsListing (length nodes) order
    × IsTopological deps [] order
OrderPost err_at nodes deps (Result.err cancelled) = (n : ℕ) × (err_at n ≡ true)
OrderPost err_at nodes deps (Result.err cycle_detected) = (rank : ℕ → ℕ) → ¬ IsRanked deps rank
OrderPost err_at nodes deps (Result.err out_of_fuel) = ⊥

nat_eq→eq : (a b : ℕ) → nat_eq a b ≡ true → a ≡ b
nat_eq→eq a b h = ground arith

nat_eq→ne : (a b : ℕ) → nat_eq a b ≡ false → a ≡ b → ⊥
nat_eq→ne a b h e = ground arith

module _ (d : Dag) (graph : IsGraph (length d.nodes) d.dependencies d.dependents) where
  finish-OrderPost :
      (err_at : ℕ → Bool) (r : Result Kahn)
      → LoopPost d graph err_at r
      → OrderPost err_at d.nodes d.dependencies (finish (length d.nodes) r)
  unfolding LoopPost OrderPost
  finish-OrderPost err_at (ok k) (inv, drained) =
      if_ind (OrderPost err_at d.nodes d.dependencies) (nat_eq (length k.result) (length d.nodes))
        (λ full. (
          k.visited,
          inv.rendered,
          visited-IsListing d graph k inv drained
              (omega (arith, result-length d graph k inv drained, nat_eq→eq _ _ full)),
          inv.ordered,
        ))
        (λ short rank ranked. nat_eq→ne _ _ short (
          omega (
            arith,
            result-length d graph k inv drained,
            length-full (length d.nodes) k.visited (visited-bounded d graph k inv drained) (λ i lt.
                visited-all d graph k inv drained rank ranked (suc (rank i)) i lt (omega arith)),
          )))
  finish-OrderPost err_at (Result.err cancelled) (e, (n, stop)) = (n, stop)
  finish-OrderPost err_at (Result.err cycle_detected) (e, _) = λ _ _. cc e
  finish-OrderPost err_at (Result.err out_of_fuel) (e, _) = cc e

  pub get_execution_order-OrderPost :
      (ctx : Context) → OrderPost ctx.err_at d.nodes d.dependencies (get_execution_order ctx d).0
  unfolding get_execution_order
  get_execution_order-OrderPost ctx = finish-OrderPost ctx.err_at _ (
      loop-LoopPost d graph (length d.nodes) ctx (start d) (start d).queue refl (start-Inv d graph)
        (omega arith))
