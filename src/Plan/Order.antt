-- ===== src/Plan/Order.antt =====
-- internal/plan/dag.go: Kahn's algorithm. The queue is kept in its two parts, `visited` before the
-- code's `head` and `queue` from `head` on.
pub mod Relax
pub mod Invariant
pub mod Correct
pub mod Outcome
use migra_go.Prelude.{
  ℕ, zero, suc, Bool, true, false, Option, none, some, List, [], ◌∷◌, ◌++◌, get_elem?, keep_if,
  length, nat_eq, range_from, if◌then◌else◌,
}
use migra_go.Prelude.Int.{ℤ, pos, pred, is_zero}
use migra_go.Context.{Context, err, polled}
use migra_go.Diff.Operation.{Operation}
use migra_go.Plan.Dag.{Dag}
use migra_go.Plan.Result.{Result, ok, cancelled, cycle_detected, out_of_fuel}

pub record Kahn : Type 0 where
  pub in_degree : ℕ → ℤ
  pub visited : List ℕ
  pub queue : List ℕ
  pub result : List Operation

-- inDegree[p]--
abbrev pub decrement : (ℕ → ℤ) → ℕ → ℕ → ℤ
decrement f p q = if nat_eq q p then pred (f q) else f q

-- The loop over the dependents of a node.
unfoldable pub relax : List ℕ → Kahn → Kahn
relax [] k = k
relax (dep ∷ deps) k =
    let in_degree = decrement k.in_degree dep in
    relax deps (record k {
      in_degree = in_degree;
      queue = if is_zero (in_degree dep) then k.queue ++ dep ∷ [] else k.queue;
    })

-- result = append(result, node.Op)
abbrev pub op_list : Option Operation → List Operation
op_list none = []
op_list (some op) = op ∷ []

-- One round, for the node at the head of the queue.
unfoldable pub visit : Dag → ℕ → List ℕ → Kahn → Kahn
unfolding relax
visit d node queue k = relax (d.dependents node) (record k {
  visited = k.visited ++ node ∷ [];
  queue = queue;
  result = k.result ++ op_list (get_elem? d.nodes node);
})

unfoldable pub loop : ℕ → Dag → Context → Kahn → List ℕ → Result Kahn × Context
unfolding visit
loop fuel d ctx k [] = (ok k, ctx)
loop zero d ctx k (node ∷ queue) = (Result.err out_of_fuel, ctx)
loop (suc fuel) d ctx k (node ∷ queue) =
    let k' = visit d node queue k in
    let rest = loop fuel d (polled ctx) k' k'.queue in
    if err ctx then (Result.err cancelled, polled ctx) else rest

abbrev pub start_degree : Dag → ℕ → ℤ
start_degree d p = pos (length (d.dependencies p))

unfoldable pub start : Dag → Kahn
start d = record {
  in_degree = start_degree d;
  visited = [];
  queue = keep_if (λ p. is_zero (start_degree d p)) (range_from 0 (length d.nodes));
  result = [];
}

abbrev pub finish : ℕ → Result Kahn → Result (List Operation)
finish n (ok k) = if nat_eq (length k.result) n then ok k.result else Result.err cycle_detected
finish n (Result.err e) = Result.err e

-- Every node enters the queue at most once, so one unit of fuel for each node is enough.
unfoldable pub get_execution_order : Context → Dag → Result (List Operation) × Context
unfolding loop start
get_execution_order ctx d =
    let (outcome, ctx') = loop (length d.nodes) d ctx (start d) (start d).queue in
    (finish (length d.nodes) outcome, ctx')
