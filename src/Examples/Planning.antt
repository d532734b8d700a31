-- ===== src/Examples/Planning.antt =====
-- Planning at concrete operations.

use migra_go.Prelude.{
  false, true, List, [], ◌∷◌, ◌≡◌, refl, arith, All, nat_eq, not, ◌&&◌, get_elem?, map, dotted,
}
use migra_go.Model.ObjectKey.{new_object_key}
use migra_go.Diff.Create.{
  new_add_column_op, new_add_table_op, new_add_constraint_op, new_drop_constraint_op,
  new_drop_column_op,
}
use migra_go.Diff.Payload.{constraint_depends_on, column_depends_on, table_depends_on}
use migra_go.Diff.Operation.{Operation, Kind, is_destructive, depends_on}
use migra_go.Plan.Result.{Result, ok}
use migra_go.Plan.Dag.{build_dag, add_nodes, new_dag, keys_of}
use migra_go.Plan.Dag.Edges.{has_edge, finds, build_dag-has_edge}
use migra_go.Plan.Order.Outcome.{OrderPost}
use migra_go.Plan.Stages.{plan, topo_sort}
use migra_go.Plan.Stages.Partition.{PartitionPost, plan-PartitionPost}
use migra_go.Plan.Topological.{topo_sort-OrderPost}
use migra_go.App.Pipeline.{filter_destructive_ops, build_execution_plan, compute_diff}
use migra_go.App.Pipeline.Filter.{
  filter_destructive_ops-safe, Splits, Reports, filter_destructive_ops-accounted, Splits, Reports,
}
use migra_go.App.Pipeline.Ordering.{PlanPost, build_execution_plan-PlanPost}
use migra_go.App.Pipeline.Permutes.{Permutes, build_execution_plan-Permutes}
use migra_go.App.Pipeline.Rising.{Rises, build_execution_plan-Rises}
use migra_go.App.Pipeline.Safe.{IsHarmless, compute_diff-safe}
use migra_go.Examples.{calm, hasty, sample_ops, schema_of, old_accounts, new_accounts}

abbrev kinds : Result (List Operation) → List Kind
kinds (ok ops) = map (λ op. op.kind) ops
kinds (Result.err e) = []

-- Within one graph the removal of the constraint comes before its addition.
kinds-topo_sort :
    kinds (topo_sort calm sample_ops).0
    ≡ Kind.drop_constraint ∷ Kind.add_table ∷ Kind.add_constraint ∷ Kind.add_column
      ∷ Kind.drop_column ∷ []
unfolding topo_sort depends_on new_add_constraint_op constraint_depends_on new_object_key
    new_drop_column_op dotted new_add_table_op new_add_column_op new_drop_constraint_op
    column_depends_on table_depends_on
kinds-topo_sort = refl

-- In the whole plan the addition of the constraint comes first.
kinds-build_execution_plan :
    kinds (build_execution_plan calm sample_ops).0
    ≡ Kind.add_table ∷ Kind.add_constraint ∷ Kind.add_column ∷ Kind.drop_constraint
      ∷ Kind.drop_column ∷ []
unfolding build_execution_plan depends_on new_add_constraint_op constraint_depends_on new_object_key
    new_drop_column_op dotted new_add_table_op new_add_column_op new_drop_constraint_op
    column_depends_on table_depends_on
kinds-build_execution_plan = refl

topo_sort_example :
    OrderPost calm.err_at sample_ops
      (build_dag sample_ops).dependencies
      (topo_sort calm sample_ops).0
topo_sort_example = topo_sort-OrderPost calm sample_ops

build_dag_example : has_edge (build_dag sample_ops) 3 2 ≡ (
    not (nat_eq 3 2) && finds (add_nodes new_dag sample_ops) 3 (keys_of (get_elem? sample_ops 2)))
build_dag_example = build_dag-has_edge sample_ops 3 2 (omega arith)

plan_example :
    PartitionPost hasty.err_at
      (record { pre = []; main = []; post = [] })
      sample_ops
      (plan hasty sample_ops).0
plan_example = plan-PartitionPost hasty sample_ops

build_execution_plan_example :
    PlanPost calm.err_at sample_ops (build_execution_plan calm sample_ops).0
build_execution_plan_example = build_execution_plan-PlanPost calm sample_ops

build_execution_plan-Permutes_example : Permutes sample_ops (build_execution_plan calm sample_ops).0
build_execution_plan-Permutes_example = build_execution_plan-Permutes calm sample_ops

build_execution_plan-Rises_example : Rises (build_execution_plan calm sample_ops).0
build_execution_plan-Rises_example = build_execution_plan-Rises calm sample_ops

filter_safe_example :
    All (λ op. is_destructive op ≡ false) (filter_destructive_ops sample_ops false).0
filter_safe_example = filter_destructive_ops-safe sample_ops

filter_accounted_example :
    (filter_destructive_ops sample_ops true ≡ (sample_ops, []))
    × (left : List Operation) × Splits sample_ops (filter_destructive_ops sample_ops false).0 left
    × Reports left (filter_destructive_ops sample_ops false).1
filter_accounted_example = filter_destructive_ops-accounted sample_ops

compute_diff_example :
    IsHarmless
      (compute_diff calm (schema_of "app" old_accounts) (schema_of "public" new_accounts) [] false)
compute_diff_example =
    compute_diff-safe calm (schema_of "app" old_accounts) (schema_of "public" new_accounts) []
