-- ===== src/Plan/Stages.antt =====
-- internal/plan/plan.go: the stages of a plan.
pub mod Partition
use migra_go.Prelude.{List, [], ◌∷◌, ◌++◌, if◌then◌else◌}
use migra_go.Context.{Context, err, polled}
use migra_go.Diff.Operation.{Kind, Operation}
use migra_go.Plan.Dag.{build_dag}
use migra_go.Plan.Order.{get_execution_order}
use migra_go.Plan.Result.{Result, ok, cancelled}

pub data Stage : Type 0 where
  pre_deploy deploy post_deploy : Stage

-- The `switch` on the kind. No operation of the repository implements `HasStage`.
unfoldable pub kind_stage : Kind → Stage
kind_stage Kind.add_table = pre_deploy
kind_stage Kind.add_column = pre_deploy
kind_stage Kind.set_default = pre_deploy
kind_stage Kind.add_enum_type = pre_deploy
kind_stage Kind.add_enum_label = pre_deploy
kind_stage Kind.add_index = pre_deploy
kind_stage Kind.add_constraint = pre_deploy
kind_stage Kind.create_view = pre_deploy
kind_stage Kind.create_materialized_view = pre_deploy
kind_stage Kind.create_schema = pre_deploy
kind_stage Kind.create_sequence = pre_deploy
kind_stage Kind.create_extension = pre_deploy
kind_stage Kind.alter_extension_update = pre_deploy
kind_stage Kind.alter_column_type = deploy
kind_stage Kind.set_not_null = deploy
kind_stage Kind.drop_not_null = deploy
kind_stage Kind.drop_default = deploy
kind_stage Kind.rename_column = deploy
kind_stage Kind.add_identity = deploy
kind_stage Kind.set_identity = deploy
kind_stage Kind.drop_identity = deploy
kind_stage Kind.alter_column_collation = deploy
kind_stage Kind.alter_sequence = deploy
kind_stage Kind.drop_table = post_deploy
kind_stage Kind.drop_column = post_deploy
kind_stage Kind.drop_index = post_deploy
kind_stage Kind.drop_constraint = post_deploy
kind_stage Kind.drop_enum_type = post_deploy
kind_stage Kind.drop_view = post_deploy
kind_stage Kind.drop_materialized_view = post_deploy
kind_stage Kind.drop_schema = post_deploy
kind_stage Kind.drop_sequence = post_deploy
kind_stage Kind.drop_extension = post_deploy
kind_stage Kind.replace_view = post_deploy

unfoldable pub assign_stage : Operation → Stage
unfolding kind_stage
assign_stage op = kind_stage op.kind

-- The map from stages to operations.
pub record Stages : Type 0 where
  pub pre : List Operation
  pub main : List Operation
  pub post : List Operation

-- stages[stage] = append(stages[stage], op)
unfoldable pub put_stage : Stage → Operation → Stages → Stages
put_stage pre_deploy op s = record s { pre = s.pre ++ op ∷ [] }
put_stage deploy op s = record s { main = s.main ++ op ∷ [] }
put_stage post_deploy op s = record s { post = s.post ++ op ∷ [] }

-- The loop of `Planner.Plan`.
unfoldable pub plan_from : Context → Stages → List Operation → Result Stages × Context
unfolding put_stage assign_stage
plan_from ctx s [] = (ok s, ctx)
plan_from ctx s (op ∷ ops) =
    let rest = plan_from (polled ctx) (put_stage (assign_stage op) op s) ops in
    if err ctx then (Result.err cancelled, polled ctx) else rest

unfoldable pub plan : Context → List Operation → Result Stages × Context
unfolding plan_from
plan ctx ops = plan_from ctx (record { pre = []; main = []; post = [] }) ops

unfoldable pub topo_sort : Context → List Operation → Result (List Operation) × Context
unfolding build_dag get_execution_order
topo_sort ctx ops = get_execution_order ctx (build_dag ops)
