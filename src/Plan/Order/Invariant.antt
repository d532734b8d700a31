-- ===== src/Plan/Order/Invariant.antt =====
-- The invariant of Kahn's algorithm, and that a round keeps it.
use migra_go.Prelude.{
  ℕ, suc, ◌+◌, ◌-◌, ◌≤◌, ◌<◌, List, [], ◌∷◌, ◌++◌, ◌≡◌, ap, ◌∙◌, arith, count, length, get_elem?,
  append_assoc, append-nil, sym, subst, length-append,
}
use migra_go.Prelude.Int.{pos}
use migra_go.Prelude.Counts.{
  null, same, pending, count-append_one, pending-append_one, count_of_pending,
}
use migra_go.Diff.Operation.{Operation}
use migra_go.Plan.Dag.{Dag}
use migra_go.Plan.Graph.{IsGraph, IsTopological, IsTopological-append_one}
use migra_go.Plan.Order.{Kahn, relax, visit, op_list}
use migra_go.Plan.Order.Relax.{HasDegrees, IsRelaxable, relax-HasDegrees, relax-count, relax_frame}

-- The operations of some nodes.
abbrev pub ops_at : List Operation → List ℕ → List Operation
ops_at nodes [] = []
ops_at nodes (p ∷ ps) = op_list (get_elem? nodes p) ++ ops_at nodes ps

ops_at-append_one :
    (nodes : List Operation) (ps : List ℕ) (p : ℕ)
    → ops_at nodes (ps ++ p ∷ []) ≡ ops_at nodes ps ++ op_list (get_elem? nodes p)
ops_at-append_one nodes [] p = append-nil _
ops_at-append_one nodes (q ∷ ps) p =
    ap (λ l. op_list (get_elem? nodes q) ++ l) (ops_at-append_one nodes ps p)
    ∙ sym (append_assoc (op_list (get_elem? nodes q)) (ops_at nodes ps) _)

module _ (d : Dag) (graph : IsGraph (length d.nodes) d.dependencies d.dependents) where
  pub record Inv (k : Kahn) : Type 0 where
    -- A degree counts the dependencies that have not been visited.
    pub degrees : HasDegrees k (λ y. pending k.visited (d.dependencies y))
    -- Visited or queued, once, is each node with no such dependency.
    pub queued :
        (y : ℕ)
        → y < length d.nodes
        → count y k.visited + count y k.queue ≡ null (pending k.visited (d.dependencies y))
    pub nothing_else : (y : ℕ) → length d.nodes ≤ y → count y k.visited + count y k.queue ≡ 0
    pub ordered : IsTopological d.dependencies [] k.visited
    pub rendered : k.result ≡ ops_at d.nodes k.visited

  module _ (k : Kahn) (inv : Inv k) (x : ℕ) (queue : List ℕ) (head : k.queue ≡ x ∷ queue) where
    before : ℕ → ℕ
    before y = pending k.visited (d.dependencies y)

    head-counted : 0 < count x k.queue
    head-counted = rw head (ground arith)

    pub head-bounded : x < length d.nodes
    head-bounded = ground (arith, inv.nothing_else x, head-counted)

    head-new : count x k.visited ≡ 0
    head-new = ground (arith, inv.queued x head-bounded, head-counted)

    head-ready : before x ≡ 0
    unfolding before
    head-ready = ground (arith, inv.queued x head-bounded, head-counted)

    -- What is left to wait for once x has been visited.
    after-eq :
        (y : ℕ)
        → before y - count y (d.dependents x) ≡ pending (k.visited ++ x ∷ []) (d.dependencies y)
    unfolding before
    after-eq y =
        omega
          (arith, graph.mirrored x y, pending-append_one x k.visited (d.dependencies y) head-new)

    entered : Kahn
    entered = record k {
      visited = k.visited ++ x ∷ [];
      queue = queue;
      result = k.result ++ op_list (get_elem? d.nodes x);
    }

    dependents-IsRelaxable : IsRelaxable (d.dependents x) before
    unfolding before
    dependents-IsRelaxable = record {
      at_most_one = λ y. omega (arith, graph.mirrored x y, graph.simple x y);
      enough = λ y.
          omega
            (arith, graph.mirrored x y, pending-append_one x k.visited (d.dependencies y) head-new);
    }

    entered-HasDegrees : HasDegrees entered before
    unfolding entered before
    entered-HasDegrees y = inv.degrees y

    visit-HasDegrees :
        HasDegrees
          (relax (d.dependents x) entered)
          (λ y. pending (k.visited ++ x ∷ []) (d.dependencies y))
    visit-HasDegrees y =
        relax-HasDegrees (d.dependents x) entered before dependents-IsRelaxable entered-HasDegrees y
        ∙ ap pos (after-eq y)

    head-split : (y : ℕ) → count y k.queue ≡ same y x + count y queue
    head-split y = ap (count y) head

    visit-count :
        (y : ℕ)
        → count y (relax (d.dependents x) entered).queue + null (before y)
          ≡ count y queue + null (pending (k.visited ++ x ∷ []) (d.dependencies y))
    unfolding entered
    visit-count y =
        rw (← after-eq y)
          (relax-count (d.dependents x) entered before dependents-IsRelaxable entered-HasDegrees y)

    visit-queued :
        (y : ℕ)
        → y < length d.nodes
        → count y (k.visited ++ x ∷ []) + count y (relax (d.dependents x) entered).queue
          ≡ null (pending (k.visited ++ x ∷ []) (d.dependencies y))
    unfolding before
    visit-queued y lt =
        omega (arith, visit-count y, inv.queued y lt, head-split y, count-append_one y k.visited x)

    stays-outside :
        (y : ℕ) → length d.nodes ≤ y → before y ≡ pending (k.visited ++ x ∷ []) (d.dependencies y)
    stays-outside y le = omega (arith, after-eq y, graph.mirrored x y, graph.outside x y le)

    visit-nothing_else :
        (y : ℕ)
        → length d.nodes ≤ y
        → count y (k.visited ++ x ∷ []) + count y (relax (d.dependents x) entered).queue ≡ 0
    unfolding before
    visit-nothing_else y le =
        let same_null = ap null (stays-outside y le) in
        omega (
          arith,
          visit-count y,
          inv.nothing_else y le,
          head-split y,
          same_null,
          count-append_one y k.visited x,
        )

    visit-IsTopological : IsTopological d.dependencies [] (k.visited ++ x ∷ [])
    unfolding before
    visit-IsTopological =
        IsTopological-append_one d.dependencies x [] k.visited inv.ordered
          (λ e m. omega (arith, count_of_pending k.visited (d.dependencies x) e head-ready m))

    visit-rendered :
        k.result ++ op_list (get_elem? d.nodes x) ≡ ops_at d.nodes (k.visited ++ x ∷ [])
    visit-rendered =
        ap (λ l. l ++ op_list (get_elem? d.nodes x)) inv.rendered
        ∙ sym (ops_at-append_one d.nodes k.visited x)

    visited-eq : k.visited ++ x ∷ [] ≡ (relax (d.dependents x) entered).visited
    unfolding entered
    visited-eq = sym (relax_frame (d.dependents x) entered).0

    result-eq : k.result ++ op_list (get_elem? d.nodes x) ≡ (relax (d.dependents x) entered).result
    unfolding entered
    result-eq = sym (relax_frame (d.dependents x) entered).1

    pub visit-Inv : Inv (visit d x queue k)
    unfolding visit entered
    visit-Inv =
        let next = relax (d.dependents x) entered in
        record {
          degrees =
              subst (λ v. HasDegrees next (λ y. pending v (d.dependencies y))) visited-eq
                visit-HasDegrees;
          queued =
              subst
                (λ v.
                  (y : ℕ)
                  → y < length d.nodes
                  → count y v + count y next.queue ≡ null (pending v (d.dependencies y)))
                visited-eq visit-queued;
          nothing_else =
              subst (λ v. (y : ℕ) → length d.nodes ≤ y → count y v + count y next.queue ≡ 0)
                visited-eq visit-nothing_else;
          ordered = subst (IsTopological d.dependencies []) visited-eq visit-IsTopological;
          rendered = sym result-eq ∙ visit-rendered ∙ ap (ops_at d.nodes) visited-eq;
        }

    pub visit-visited : length (visit d x queue k).visited ≡ suc (length k.visited)
    unfolding visit entered
    visit-visited = ap length (sym visited-eq) ∙ omega (arith, length-append k.visited (x ∷ []))
