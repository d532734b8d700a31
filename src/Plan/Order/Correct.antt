-- ===== src/Plan/Order/Correct.antt =====
-- Kahn's algorithm is right: what it returns is a topological order of all nodes, it does not run out
-- of fuel, and it reports a cycle only where there is one.
use migra_go.Prelude.{
  ℕ, zero, suc, ◌+◌, ◌≤◌, ◌<◌, Bool, true, List, [], ◌∷◌, ◌++◌, ◌≡◌, refl, ap, ◌∙◌, sym, arith,
  count, length, length-append, get_elem?, range_from, ltb, if_ind, if◌then◌else◌,
}
use migra_go.Prelude.Int.{pos, is_zero}
use migra_go.Prelude.Counts.{
  null, pending, pending-nil, count-keep_if, count-range_from, count-append, pending_of_count,
  length-le, count_of_length,
}
use migra_go.Context.{Context, err, polled}
use migra_go.Diff.Operation.{Operation}
use migra_go.Plan.Dag.{Dag}
use migra_go.Plan.Graph.{IsGraph, IsListing, IsRanked}
use migra_go.Plan.Result.{Result, ok, cancelled}
use migra_go.Plan.Order.{Kahn, visit, loop, op_list, start, start_degree}
use migra_go.Plan.Order.Relax.{is_zero_pos}
use migra_go.Plan.Order.Invariant.{Inv, ops_at, visit-Inv, visit-visited}

op_list-length :
    (nodes : List Operation) (i : ℕ) → i < length nodes → length (op_list (get_elem? nodes i)) ≡ 1
op_list-length [] i h = absurd (omega arith)
op_list-length (op ∷ nodes) zero h = refl
op_list-length (op ∷ nodes) (suc i) h = op_list-length nodes i (omega arith)

ops_at-length :
    (nodes : List Operation) (l : List ℕ)
    → ((x : ℕ) → 0 < count x l → x < length nodes)
    → length (ops_at nodes l) ≡ length l
ops_at-length nodes [] h = refl
ops_at-length nodes (x ∷ l) h = omega (
  arith,
  length-append (op_list (get_elem? nodes x)) (ops_at nodes l),
  op_list-length nodes x (h x (ground arith)),
  ops_at-length nodes l (λ y m. h y (ground arith)),
)

module _ (d : Dag) (graph : IsGraph (length d.nodes) d.dependencies d.dependents) where
  -- No more nodes are visited or queued than there are.
  Inv-length : (k : Kahn) → Inv d graph k → length k.visited + length k.queue ≤ length d.nodes
  Inv-length k inv = omega (
    arith,
    length-append k.visited k.queue,
    length-le (length d.nodes) (k.visited ++ k.queue)
        (λ y le. omega (arith, count-append y k.visited k.queue, inv.nothing_else y le))
        (λ y. ground (arith, count-append y k.visited k.queue, inv.nothing_else y, inv.queued y)),
  )

  -- The loop ends with an empty queue, unless the context is cancelled.
  unfoldable pub LoopPost : (ℕ → Bool) → Result Kahn → Type 0
  LoopPost err_at (ok k) = Inv d graph k × (k.queue ≡ [])
  LoopPost err_at (Result.err e) = (e ≡ cancelled) × ((n : ℕ) × (err_at n ≡ true))

  pub loop-LoopPost :
      (fuel : ℕ) (ctx : Context) (k : Kahn) (queue : List ℕ)
      → k.queue ≡ queue
      → Inv d graph k
      → length d.nodes ≤ length k.visited + fuel
      → LoopPost ctx.err_at (loop fuel d ctx k queue).0
  unfolding loop LoopPost
  loop-LoopPost fuel ctx k [] e inv enough = (inv, e)
  loop-LoopPost zero ctx k (x ∷ queue) e inv enough =
      absurd (omega (arith, Inv-length k inv, ap length e))
  loop-LoopPost (suc fuel) ctx k (x ∷ queue) e inv enough =
      if_ind (λ (r : Result Kahn × Context). LoopPost ctx.err_at r.0) (err ctx)
        (λ stop. (refl, (ctx.polls, stop)))
        λ _.
          loop-LoopPost fuel (polled ctx) (visit d x queue k) (visit d x queue k).queue refl
            (visit-Inv d graph k inv x queue e)
            (omega (arith, visit-visited d graph k inv x queue e))

  start-count :
      (y : ℕ)
      → count y (start d).queue
        ≡ (if ltb y (length d.nodes) then null (length (d.dependencies y)) else 0)
  unfolding start
  start-count y = ground (
    arith,
    count-keep_if (λ p. is_zero (start_degree d p)) y (range_from 0 (length d.nodes)),
    count-range_from y 0 (length d.nodes),
    is_zero_pos (length (d.dependencies y)),
  )

  pub start-Inv : Inv d graph (start d)
  unfolding start
  start-Inv = record {
    degrees = λ y. ap pos (sym (pending-nil (d.dependencies y)));
    queued = λ y lt. ground (arith, start-count y, pending-nil (d.dependencies y));
    nothing_else = λ y le. ground (arith, start-count y);
    ordered = tt;
    rendered = refl;
  }

  module _ (k : Kahn) (inv : Inv d graph k) (drained : k.queue ≡ []) where
    visited-count :
        (y : ℕ)
        → y < length d.nodes
        → count y k.visited ≡ null (pending k.visited (d.dependencies y))
    visited-count y lt = omega (arith, inv.queued y lt, ap (count y) drained)

    pub visited-bounded : (y : ℕ) → length d.nodes ≤ y → count y k.visited ≡ 0
    visited-bounded y le = omega (arith, inv.nothing_else y le)

    visited-simple : (y : ℕ) → count y k.visited ≤ 1
    visited-simple y = ground (arith, visited-bounded y, visited-count y)

    -- Where all nodes have been visited, each was once.
    pub visited-IsListing : length k.visited ≡ length d.nodes → IsListing (length d.nodes) k.visited
    visited-IsListing full = (
      count_of_length (length d.nodes) k.visited visited-bounded visited-simple full,
      visited-bounded,
    )

    -- In a graph without a cycle all nodes are visited.
    pub visited-all :
        (rank : ℕ → ℕ)
        → IsRanked d.dependencies rank
        → (m y : ℕ) → y < length d.nodes
        → rank y < m
        → count y k.visited ≡ 1
    visited-all rank ranked zero y lt below = absurd (omega arith)
    visited-all rank ranked (suc m) y lt below =
        let deps_visited : pending k.visited (d.dependencies y) ≡ 0 =
          pending_of_count k.visited (d.dependencies y) (λ x waits.
            let earlier = ranked x y waits in
            omega (
              arith,
              visited-all rank ranked m x (ground (arith, graph.bounded x y)) (omega arith),
            )) in
        ground (arith, visited-count y lt)

    pub result-length : length k.result ≡ length k.visited
    result-length =
        ap length inv.rendered
        ∙ ops_at-length d.nodes k.visited (λ x m. ground (arith, visited-bounded x))
