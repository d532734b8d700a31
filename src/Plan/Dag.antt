-- ===== src/Plan/Dag.antt =====
-- internal/plan/dag.go: the dependency graph. A node pointer is the node's position in `nodes`; the
-- fields of a node stand in functions over pointers, which are empty where nothing was stored.
pub mod Build
pub mod Edges
use migra_go.Prelude.{
  ℕ, zero, suc, Bool, true, false, Option, none, some, List, [], ◌∷◌, ◌++◌, any, get_elem?, length,
  nat_eq, range_from, ite, if◌then◌else◌,
}
use migra_go.Model.ObjectKey.{ObjectKey, ObjectKey-discrete}
use migra_go.Diff.Operation.{Kind, Operation, depends_on}

pub record Dag : Type 0 where
  pub nodes : List Operation
  pub dependencies : ℕ → List ℕ
  pub dependents : ℕ → List ℕ
  pub dependency_set : ℕ → List ℕ
  pub by_object : ObjectKey → List ℕ

unfoldable pub new_dag : Dag
new_dag = record {
  nodes = [];
  dependencies = λ _. [];
  dependents = λ _. [];
  dependency_set = λ _. [];
  by_object = λ _. [];
}

-- f[p] = append(f[p], v)
abbrev pub append_at : (ℕ → List ℕ) → ℕ → ℕ → ℕ → List ℕ
append_at f p v q = if nat_eq q p then f q ++ v ∷ [] else f q

-- byObject[key] = append(byObject[key], node)
unfoldable pub append_key : (ObjectKey → List ℕ) → ObjectKey → ℕ → ObjectKey → List ℕ
unfolding ObjectKey-discrete
append_key f key v k = ite (ObjectKey-discrete k key) (f k ++ v ∷ []) (f k)

unfoldable pub add_node : Dag → Operation → Dag
unfolding append_key
add_node d op = record d {
  nodes = d.nodes ++ op ∷ [];
  by_object = append_key d.by_object op.object_key (length d.nodes);
}

unfoldable pub add_dependency : Dag → ℕ → ℕ → Dag
add_dependency d from to =
    if nat_eq from to then d else if any (nat_eq to) (d.dependency_set from) then d else record d {
      dependency_set = append_at d.dependency_set from to;
      dependencies = append_at d.dependencies from to;
      dependents = append_at d.dependents to from;
    }

abbrev kind_is_drop : Kind → Bool
kind_is_drop Kind.drop_constraint = true
kind_is_drop _ = false

abbrev pub is_drop_constraint : Option Operation → Bool
is_drop_constraint none = false
is_drop_constraint (some op) = kind_is_drop op.kind

abbrev pub first_drop : List Operation → List ℕ → Option ℕ
first_drop nodes [] = none
first_drop nodes (p ∷ ps) =
    let rest = first_drop nodes ps in
    if is_drop_constraint (get_elem? nodes p) then some p else rest

abbrev pub head? : List ℕ → Option ℕ
head? [] = none
head? (p ∷ ps) = some p

abbrev pub or_first : Option ℕ → List ℕ → Option ℕ
or_first none ps = head? ps
or_first (some p) ps = some p

unfoldable pub find_node_by_object_key : Dag → ObjectKey → Option ℕ
find_node_by_object_key d key =
    let matches = d.by_object key in or_first (first_drop d.nodes matches) matches

abbrev pub add_found : Dag → ℕ → Option ℕ → Dag
add_found d node none = d
add_found d node (some dep) = add_dependency d node dep

-- The loop of `addDependencies` over the keys.
unfoldable pub add_keys : Dag → ℕ → List ObjectKey → Dag
unfolding find_node_by_object_key add_dependency
add_keys d node [] = d
add_keys d node (key ∷ keys) = add_keys (add_found d node (find_node_by_object_key d key)) node keys

abbrev pub keys_of : Option Operation → List ObjectKey
keys_of none = []
keys_of (some op) = depends_on op

unfoldable pub add_dependencies : Dag → ℕ → Dag
unfolding add_keys
add_dependencies d node = add_keys d node (keys_of (get_elem? d.nodes node))

unfoldable pub add_nodes : Dag → List Operation → Dag
unfolding add_node
add_nodes d [] = d
add_nodes d (op ∷ ops) = add_nodes (add_node d op) ops

unfoldable pub add_all_dependencies : Dag → List ℕ → Dag
unfolding add_dependencies
add_all_dependencies d [] = d
add_all_dependencies d (p ∷ ps) = add_all_dependencies (add_dependencies d p) ps

unfoldable pub build_dag : List Operation → Dag
unfolding add_nodes add_all_dependencies new_dag
build_dag ops =
    let dag = add_nodes new_dag ops in add_all_dependencies dag (range_from 0 (length dag.nodes))
