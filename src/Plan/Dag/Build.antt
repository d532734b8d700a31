-- ===== src/Plan/Dag/Build.antt =====
-- The graph that `BuildDAG` makes is one that Kahn's algorithm can work with.
use migra_go.Prelude.{
  ℕ, ◌+◌, ◌≤◌, ◌<◌, false, Option, none, some, List, [], ◌∷◌, ◌++◌, ◌≡◌, refl, ap, sym, arith, any,
  count, length, length-append, get_elem?, nat_eq, range_from, if_ind, if◌then◌else◌, if_pos,
  if_neg, ℕ_discrete, append-nil, append_assoc, ◌∙◌,
}
use migra_go.Prelude.Counts.{same, count-append_one, count-range_from}
use migra_go.Model.ObjectKey.{ObjectKey, ObjectKey-discrete}
use migra_go.Diff.Operation.{Operation}
use migra_go.Plan.Graph.{IsGraph}
use migra_go.Plan.Dag.{
  Dag, new_dag, append_at, append_key, add_node, add_dependency, first_drop, or_first,
  is_drop_constraint, find_node_by_object_key, add_found, add_keys, keys_of, add_dependencies,
  add_nodes, add_all_dependencies, build_dag,
}

pub count-append_at :
    (f : ℕ → List ℕ) (p v q x : ℕ)
    → count x (append_at f p v q) ≡ count x (f q) + (if nat_eq q p then same x v else 0)
count-append_at f p v q x = ground (arith, count-append_one x (f q) v)

pub any-count : (x : ℕ) (l : List ℕ) → any (nat_eq x) l ≡ false → count x l ≡ 0
any-count x [] h = refl
any-count x (y ∷ l) h = ground (arith, any-count x l)

pub record IsSound (d : Dag) : Type 0 where
  pub graph : IsGraph (length d.nodes) d.dependencies d.dependents
  pub sets : (y : ℕ) → d.dependency_set y ≡ d.dependencies y
  pub keyed : (key : ObjectKey) (x : ℕ) → 0 < count x (d.by_object key) → x < length d.nodes

module _ (d : Dag) (sound : IsSound d) (from to : ℕ) (from_lt : from < length d.nodes)
    (to_lt : to < length d.nodes) where
  absent : any (nat_eq to) (d.dependency_set from) ≡ false → count to (d.dependencies from) ≡ 0
  absent fresh = rw (← sound.sets from) (any-count to (d.dependency_set from) fresh)

  linked-IsGraph :
      any (nat_eq to) (d.dependency_set from) ≡ false
      → IsGraph (length d.nodes) (append_at d.dependencies from to) (append_at d.dependents to from)
  linked-IsGraph fresh = record {
    mirrored = λ x y. ground (
      arith,
      count-append_at d.dependencies from to y x,
      count-append_at d.dependents to from x y,
      sound.graph.mirrored x y,
    );
    simple = λ x y. elim (ℕ_discrete y from) [
      | yes e ↦ elim (ℕ_discrete x to) [
        | yes e' ↦
            rw (e, e')
              (ground (arith, count-append_at d.dependencies from to from to, absent fresh))
        | no n ↦ ground (arith, count-append_at d.dependencies from to y x, sound.graph.simple x y)
      ]
      | no n ↦ ground (arith, count-append_at d.dependencies from to y x, sound.graph.simple x y)
    ];
    bounded = λ x y le.
        ground (arith, count-append_at d.dependencies from to y x, sound.graph.bounded x y le);
    outside = λ x y le.
        ground (arith, count-append_at d.dependencies from to y x, sound.graph.outside x y le);
  }

  pub add_dependency-IsSound : IsSound (add_dependency d from to)
  unfolding add_dependency
  add_dependency-IsSound =
      if_ind IsSound (nat_eq from to) (λ _. sound)
        λ _.
          if_ind IsSound (any (nat_eq to) (d.dependency_set from)) (λ _. sound)
            λ fresh. record {
              graph = linked-IsGraph fresh;
              sets = λ y. ap (λ l. if nat_eq y from then l ++ to ∷ [] else l) (sound.sets y);
              keyed = sound.keyed;
            }

  add_dependency-nodes : (add_dependency d from to).nodes ≡ d.nodes
  unfolding add_dependency
  add_dependency-nodes = ground arith

unfoldable pub Below : ℕ → Option ℕ → Type 0
Below n none = Unit
Below n (some p) = p < n

module _ (nodes : List Operation) (n : ℕ) where
  first_drop-Below :
      (ps : List ℕ) → ((x : ℕ) → 0 < count x ps → x < n) → Below n (first_drop nodes ps)
  unfolding Below
  first_drop-Below [] h = tt
  first_drop-Below (q ∷ ps) h =
      if_ind (Below n) (is_drop_constraint (get_elem? nodes q)) (λ _. h q (ground arith))
        (λ _. first_drop-Below ps (λ x m. h x (ground arith)))

  or_first-Below :
      (o : Option ℕ) (ps : List ℕ)
      → Below n o
      → ((x : ℕ) → 0 < count x ps → x < n)
      → Below n (or_first o ps)
  unfolding Below
  or_first-Below (some p) ps b h = b
  or_first-Below none [] b h = tt
  or_first-Below none (q ∷ ps) b h = h q (ground arith)

pub find-Below :
    (d : Dag)
    → IsSound d
    → (key : ObjectKey) → Below (length d.nodes) (find_node_by_object_key d key)
unfolding find_node_by_object_key
find-Below d sound key =
    or_first-Below d.nodes _ (first_drop d.nodes (d.by_object key)) (d.by_object key)
      (first_drop-Below d.nodes _ (d.by_object key) (sound.keyed key)) (sound.keyed key)

pub add_found-IsSound :
    (d : Dag) (node : ℕ) (o : Option ℕ)
    → IsSound d
    → node < length d.nodes
    → Below (length d.nodes) o
    → IsSound (add_found d node o) × ((add_found d node o).nodes ≡ d.nodes)
unfolding Below
add_found-IsSound d node none sound lt b = (sound, refl)
add_found-IsSound d node (some dep) sound lt b =
    (add_dependency-IsSound d sound node dep lt b, add_dependency-nodes d sound node dep lt b)

pub add_keys-IsSound :
    (keys : List ObjectKey) (d : Dag) (node : ℕ)
    → IsSound d
    → node < length d.nodes
    → IsSound (add_keys d node keys) × ((add_keys d node keys).nodes ≡ d.nodes)
unfolding add_keys
add_keys-IsSound [] d node sound lt = (sound, refl)
add_keys-IsSound (key ∷ keys) d node sound lt =
    let (s, e) =
      add_found-IsSound d node (find_node_by_object_key d key) sound lt (find-Below d sound key) in
    let (s', e') =
      add_keys-IsSound keys (add_found d node (find_node_by_object_key d key)) node s (rw e lt) in
    (s', e' ∙ e)

add_all-IsSound :
    (ps : List ℕ) (d : Dag)
    → IsSound d
    → ((x : ℕ) → 0 < count x ps → x < length d.nodes)
    → IsSound (add_all_dependencies d ps) × ((add_all_dependencies d ps).nodes ≡ d.nodes)
unfolding add_all_dependencies add_dependencies
add_all-IsSound [] d sound h = (sound, refl)
add_all-IsSound (p ∷ ps) d sound h =
    let (s, e) = add_keys-IsSound (keys_of (get_elem? d.nodes p)) d p sound (h p (ground arith)) in
    let (s', e') = add_all-IsSound ps (add_dependencies d p) s (λ x m. rw e (h x (ground arith))) in
    (s', e' ∙ e)

pub IsSound-new_dag : IsSound new_dag
unfolding new_dag
IsSound-new_dag = record {
  graph = record {
    mirrored = λ x y. refl;
    simple = λ x y. omega arith;
    bounded = λ x y le. refl;
    outside = λ x y le. refl;
  };
  sets = λ y. refl;
  keyed = λ key x m. absurd (omega arith);
}

append_key-count :
    (f : ObjectKey → List ℕ) (key : ObjectKey) (v : ℕ) (k : ObjectKey) (x : ℕ)
    → count x (append_key f key v k) ≤ count x (f k) + same x v
unfolding append_key
append_key-count f key v k x = elim (ObjectKey-discrete k key) [
  | yes e ↦ rw (if_pos _ e) (omega (arith, count-append_one x (f k) v))
  | no e ↦ rw (if_neg _ e) (omega arith)
]

add_node-IsSound : (d : Dag) (op : Operation) → IsSound d → IsSound (add_node d op)
unfolding add_node
add_node-IsSound d op sound = record {
  graph = record {
    mirrored = sound.graph.mirrored;
    simple = sound.graph.simple;
    bounded = λ x y le. sound.graph.bounded x y (omega (arith, length-append d.nodes (op ∷ [])));
    outside = λ x y le. sound.graph.outside x y (omega (arith, length-append d.nodes (op ∷ [])));
  };
  sets = sound.sets;
  keyed = λ key x m. ground (
    arith,
    append_key-count d.by_object op.object_key (length d.nodes) key x,
    sound.keyed key x,
    length-append d.nodes (op ∷ []),
  );
}

pub add_nodes-IsSound : (ops : List Operation) (d : Dag) → IsSound d → IsSound (add_nodes d ops)
unfolding add_nodes
add_nodes-IsSound [] d sound = sound
add_nodes-IsSound (op ∷ ops) d sound =
    add_nodes-IsSound ops (add_node d op) (add_node-IsSound d op sound)

pub add_nodes-nodes : (ops : List Operation) (d : Dag) → (add_nodes d ops).nodes ≡ d.nodes ++ ops
unfolding add_nodes add_node
add_nodes-nodes [] d = sym (append-nil d.nodes)
add_nodes-nodes (op ∷ ops) d =
    add_nodes-nodes ops (add_node d op) ∙ append_assoc d.nodes (op ∷ []) ops

pub build_dag-IsSound : (ops : List Operation) → IsSound (build_dag ops)
unfolding build_dag
build_dag-IsSound ops =
    (add_all-IsSound (range_from 0 (length (add_nodes new_dag ops).nodes)) (add_nodes new_dag ops)
      (add_nodes-IsSound ops new_dag IsSound-new_dag)
      (λ x m. ground (arith, count-range_from x 0 (length (add_nodes new_dag ops).nodes)))).0

pub build_dag-nodes : (ops : List Operation) → (build_dag ops).nodes ≡ ops
unfolding build_dag new_dag
build_dag-nodes ops =
    (add_all-IsSound (range_from 0 (length (add_nodes new_dag ops).nodes)) (add_nodes new_dag ops)
      (add_nodes-IsSound ops new_dag IsSound-new_dag)
      (λ x m. ground (arith, count-range_from x 0 (length (add_nodes new_dag ops).nodes)))).1
    ∙ add_nodes-nodes ops new_dag
