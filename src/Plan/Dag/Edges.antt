-- ===== src/Plan/Dag/Edges.antt =====
-- Which edges `BuildDAG` draws.
use migra_go.Prelude.{
  ℕ, ◌+◌, ◌<◌, Bool, false, not, ◌&&◌, ◌||◌, Option, none, some, List, [], ◌∷◌, ◌≡◌, refl, ap, sym,
  ◌∙◌, arith, any, count, length, get_elem?, ltb, nat_eq, range_from, if_ind, ℕ_discrete,
}
use migra_go.Prelude.Counts.{same, count-range_from}
use migra_go.Model.ObjectKey.{ObjectKey}
use migra_go.Diff.Operation.{Operation}
use migra_go.Plan.Dag.{
  Dag, new_dag, add_node, add_dependency, find_node_by_object_key, add_found, add_keys, keys_of,
  add_dependencies, add_nodes, add_all_dependencies, build_dag,
}
use migra_go.Plan.Dag.Build.{
  IsSound, count-append_at, find-Below, add_found-IsSound, add_keys-IsSound, add_nodes-IsSound,
  IsSound-new_dag, add_nodes-nodes,
}

-- Node y waits for node x.
abbrev pub has_edge : Dag → ℕ → ℕ → Bool
has_edge d x y = ltb 0 (count x (d.dependencies y))

abbrev pub is_node : ℕ → Option ℕ → Bool
is_node x none = false
is_node x (some p) = nat_eq x p

-- One of the keys finds node x.
abbrev pub finds : Dag → ℕ → List ObjectKey → Bool
finds d x keys = any (λ key. is_node x (find_node_by_object_key d key)) keys

any-count_pos : (x : ℕ) (l : List ℕ) → any (nat_eq x) l ≡ ltb 0 (count x l)
any-count_pos x [] = ground arith
any-count_pos x (y ∷ l) = ground (arith, any-count_pos x l)

module _ (d : Dag) (sound : IsSound d) (from to x y : ℕ) where
  abbrev linked : Bool
  linked = has_edge d x y || nat_eq y from && not (nat_eq x from) && nat_eq x to

  present-linked : 0 < count to (d.dependencies from) → has_edge d x y ≡ linked
  present-linked h = elim (ℕ_discrete y from) [
    | yes e ↦ elim (ℕ_discrete x to) [ yes e' ↦ rw (e, e') (ground arith) | no n ↦ ground arith ]
    | no n ↦ ground arith
  ]

  add_dependency-has_edge : has_edge (add_dependency d from to) x y ≡ linked
  unfolding add_dependency
  add_dependency-has_edge =
      if_ind (λ (d' : Dag). has_edge d' x y ≡ linked) (nat_eq from to) (λ e. ground arith)
        λ e.
          if_ind (λ (d' : Dag). has_edge d' x y ≡ linked) (any (nat_eq to) (d.dependency_set from))
            (λ old. present-linked (
              ground (
                arith,
                any-count_pos to (d.dependencies from),
                ap (any (nat_eq to)) (sound.sets from),
              )))
            λ fresh. ground (arith, count-append_at d.dependencies from to y x)

-- What is found for a key does not depend on the edges.
pub record SameNodes (d d' : Dag) : Type 0 where
  pub nodes_eq : d'.nodes ≡ d.nodes
  pub keys_eq : d'.by_object ≡ d.by_object

add_dependency-SameNodes : (d : Dag) (from to : ℕ) → SameNodes d (add_dependency d from to)
unfolding add_dependency
add_dependency-SameNodes d from to =
    if_ind (SameNodes d) (nat_eq from to) (λ _. record { nodes_eq = refl; keys_eq = refl })
      λ _.
        if_ind (SameNodes d) (any (nat_eq to) (d.dependency_set from))
          (λ _. record { nodes_eq = refl; keys_eq = refl })
          (λ _. record { nodes_eq = refl; keys_eq = refl })

find-SameNodes :
    (d d' : Dag)
    → SameNodes d d'
    → (key : ObjectKey) → find_node_by_object_key d' key ≡ find_node_by_object_key d key
unfolding find_node_by_object_key
find-SameNodes d d' h key = rw (h.nodes_eq, h.keys_eq)

SameNodes-trans : {d e f : Dag} → SameNodes d e → SameNodes e f → SameNodes d f
SameNodes-trans p q = record { nodes_eq = q.nodes_eq ∙ p.nodes_eq; keys_eq = q.keys_eq ∙ p.keys_eq }

SameNodes-refl : (d : Dag) → SameNodes d d
SameNodes-refl d = record { nodes_eq = refl; keys_eq = refl }

add_found-SameNodes : (d : Dag) (node : ℕ) (o : Option ℕ) → SameNodes d (add_found d node o)
add_found-SameNodes d node none = SameNodes-refl d
add_found-SameNodes d node (some p) = add_dependency-SameNodes d node p

add_found-has_edge :
    (d : Dag) (node : ℕ) (o : Option ℕ) (x y : ℕ)
    → IsSound d
    → has_edge (add_found d node o) x y
      ≡ (has_edge d x y || nat_eq y node && not (nat_eq x node) && is_node x o)
add_found-has_edge d node none x y sound = ground arith
add_found-has_edge d node (some p) x y sound = add_dependency-has_edge d sound node p x y

-- Two rounds of edges make one.
join_edges :
    (x y p c : ℕ) (h0 h1 h2 at_p at_y : Bool)
    → h1 ≡ (h0 || nat_eq y p && not (nat_eq x p) && at_p)
    → h2 ≡ (h1 || ltb 0 c && not (nat_eq x y) && at_y)
    → (y ≡ p → at_p ≡ at_y)
    → h2 ≡ (h0 || ltb 0 (same y p + c) && not (nat_eq x y) && at_y)
join_edges x y p c h0 h1 h2 at_p at_y e1 e2 agree = elim (ℕ_discrete y p) [
  | yes e ↦ rw e (ground (arith, rw e at e1, rw e at e2, agree e))
  | no n ↦ ground arith
]

-- The graph whose nodes and keys the loops only read.
module _ (base : Dag) (x y : ℕ) where
  add_keys-has_edge :
      (keys : List ObjectKey) (d : Dag) (node : ℕ)
      → SameNodes base d
      → IsSound d
      → node < length d.nodes
      → (has_edge (add_keys d node keys) x y
          ≡ (has_edge d x y || nat_eq y node && not (nat_eq x node) && finds base x keys))
        × SameNodes base (add_keys d node keys)
  unfolding add_keys
  add_keys-has_edge [] d node same sound lt = (ground arith, same)
  add_keys-has_edge (key ∷ keys) d node same sound lt =
      let found = find_node_by_object_key d key in
      let d' = add_found d node found in
      let (sound', nodes_eq) = add_found-IsSound d node found sound lt (find-Below d sound key) in
      let (rest, same') =
        add_keys-has_edge keys d' node (SameNodes-trans same (add_found-SameNodes d node found))
          sound' (rw nodes_eq lt) in
      (
        ground (
          arith,
          rest,
          add_found-has_edge d node found x y sound,
          find-SameNodes base d same key,
        ),
        same',
      )

  add_all-has_edge :
      (ps : List ℕ) (d : Dag)
      → SameNodes base d
      → IsSound d
      → ((p : ℕ) → 0 < count p ps → p < length d.nodes)
      → has_edge (add_all_dependencies d ps) x y ≡ (
          has_edge d x y
          || ltb 0 (count y ps)
            && not (nat_eq x y)
            && finds base x (keys_of (get_elem? base.nodes y)))
  unfolding add_all_dependencies add_dependencies
  add_all-has_edge [] d same sound h = ground arith
  add_all-has_edge (p ∷ ps) d same sound h =
      let lt = h p (ground arith) in
      let keys = keys_of (get_elem? d.nodes p) in
      let (step, same') = add_keys-has_edge keys d p same sound lt in
      let (sound', nodes_eq) = add_keys-IsSound keys d p sound lt in
      let rest =
        add_all-has_edge ps (add_dependencies d p) same' sound'
          (λ q m. rw nodes_eq (h q (ground arith))) in
      join_edges x y p (count y ps) _ _ _ _ _ step rest (λ e.
        ap (λ q. finds base x (keys_of q))
          (ap (get_elem? d.nodes) (sym e) ∙ ap (λ l. get_elem? l y) same.nodes_eq))

  -- Before any edge is drawn there is none.
  add_nodes-dependencies :
      (ops : List Operation) (d : Dag) → (add_nodes d ops).dependencies y ≡ d.dependencies y
  unfolding add_nodes add_node
  add_nodes-dependencies [] d = refl
  add_nodes-dependencies (op ∷ ops) d = add_nodes-dependencies ops (add_node d op)

-- For each y below the number of operations: node y of the graph waits for node x exactly if they
-- differ and one of the keys that the operation at y depends on finds x among the nodes of the
-- first pass.
pub build_dag-has_edge :
    (ops : List Operation) (x y : ℕ)
    → y < length ops
    → has_edge (build_dag ops) x y
      ≡ (not (nat_eq x y) && finds (add_nodes new_dag ops) x (keys_of (get_elem? ops y)))
unfolding build_dag
build_dag-has_edge ops x y lt =
    let base = add_nodes new_dag ops in
    let nodes_eq : base.nodes ≡ ops = add_nodes-nodes ops new_dag ∙ (unfold new_dag in refl) in
    let none_yet : base.dependencies y ≡ [] =
      add_nodes-dependencies base x y ops new_dag ∙ (unfold new_dag in refl) in
    let all =
      add_all-has_edge base x y (range_from 0 (length base.nodes)) base (SameNodes-refl base)
        (add_nodes-IsSound ops new_dag IsSound-new_dag)
        (λ p m. ground (arith, count-range_from p 0 (length base.nodes))) in
    ground (
      arith,
      all,
      ap (count x) none_yet,
      count-range_from y 0 (length base.nodes),
      ap length nodes_eq,
      ap (λ l. finds base x (keys_of (get_elem? l y))) nodes_eq,
    )
