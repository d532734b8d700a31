-- ===== src/Plan/Topological.antt =====
-- `TopoSort`: what its order promises for the operations that it is given.
use migra_go.Prelude.{List, subst}
use migra_go.Context.{Context}
use migra_go.Diff.Operation.{Operation}
use migra_go.Plan.Dag.{build_dag}
use migra_go.Plan.Dag.Build.{build_dag-IsSound, build_dag-nodes}
use migra_go.Plan.Order.Outcome.{OrderPost, get_execution_order-OrderPost}
use migra_go.Plan.Stages.{topo_sort}

-- Whatever the operations are: a list that `TopoSort` returns holds each operation once, behind
-- all operations that it waits for in the graph; cancellation is reported only where the context
-- says so, and a cycle only where no rank grows along the dependencies; nothing else is returned.
pub topo_sort-OrderPost :
    (ctx : Context) (ops : List Operation)
    → OrderPost ctx.err_at ops (build_dag ops).dependencies (topo_sort ctx ops).0
unfolding topo_sort
topo_sort-OrderPost ctx ops =
    subst (λ nodes. OrderPost ctx.err_at nodes (build_dag ops).dependencies (topo_sort ctx ops).0)
      (build_dag-nodes ops)
      (get_execution_order-OrderPost (build_dag ops) (build_dag-IsSound ops).graph ctx)
