-- ===== src/App/Pipeline/Ordering.antt =====
-- `BuildExecutionPlan`: the order of a whole plan.
use migra_go.Prelude.{
  ℕ, zero, suc, Bool, true, List, [], ◌∷◌, ◌++◌, ◌≡◌, refl, sym, ◌∙◌, subst, arith, length, ◌⊎◌,
  inl, inr, if_ind, append_assoc, append-nil,
}
use migra_go.Context.{Context, err, polled}
use migra_go.Diff.Operation.{Operation}
use migra_go.Plan.Result.{Error, Result, ok, cancelled, cycle_detected, out_of_fuel}
use migra_go.Plan.Dag.{Dag, build_dag}
use migra_go.Plan.Graph.{IsListing, IsTopological, IsRanked}
use migra_go.Plan.Order.{Kahn, visit, loop, get_execution_order}
use migra_go.Plan.Order.Invariant.{ops_at}
use migra_go.Plan.Order.Outcome.{OrderPost}
use migra_go.Plan.Topological.{topo_sort-OrderPost}
use migra_go.Plan.Stages.{
  pre_deploy, deploy, post_deploy, assign_stage, Stages, put_stage, plan_from, plan, topo_sort,
}
use migra_go.Plan.Stages.Partition.{of_stage, PartitionPost, plan-PartitionPost}
use migra_go.App.Pipeline.{sort_stage, sort_stages, sort_plan, build_execution_plan}

-- `sorted` is a topological order of all of `ops`, in the graph that they make.
pub record IsSorted (ops sorted : List Operation) : Type 0 where
  pub order : List ℕ
  pub lists : sorted ≡ ops_at ops order
  pub complete : IsListing (length ops) order
  pub topological : IsTopological (build_dag ops).dependencies [] order

-- The graph that the operations make has a cycle.
pub HasNoRank : List Operation → Type 0
HasNoRank ops = (rank : ℕ → ℕ) → ¬ IsRanked (build_dag ops).dependencies rank

-- A list that falls into one sorted list for each stage.
abbrev pub IsSplit : List (List Operation) → List Operation → Type 0
IsSplit [] r = r ≡ []
IsSplit (ops ∷ stages) r =
    (sorted : List Operation) × (rest : List Operation) × (r ≡ sorted ++ rest)
    × IsSorted ops sorted
    × IsSplit stages rest

abbrev pub SomeCyclic : List (List Operation) → Type 0
SomeCyclic [] = ⊥
SomeCyclic (ops ∷ stages) = HasNoRank ops ⊎ SomeCyclic stages

-- The only errors are that of the context and a cycle within one stage.
pub IsHonest : (ℕ → Bool) → List (List Operation) → Error → Type 0
IsHonest err_at stages cancelled = (n : ℕ) × (err_at n ≡ true)
IsHonest err_at stages cycle_detected = SomeCyclic stages
IsHonest err_at stages out_of_fuel = ⊥

IsHonest-further :
    (err_at : ℕ → Bool) (ops : List Operation) (stages : List (List Operation)) (e : Error)
    → IsHonest err_at stages e
    → IsHonest err_at (ops ∷ stages) e
unfolding IsHonest
IsHonest-further err_at ops stages cancelled h = h
IsHonest-further err_at ops stages cycle_detected h = inr h
IsHonest-further err_at ops stages out_of_fuel h = h

-- What one stage makes of its operations.
StagePost : (ℕ → Bool) → List Operation → Result (List Operation) → Type 0
StagePost err_at ops (ok sorted) = IsSorted ops sorted
StagePost err_at ops (Result.err e) = IsHonest err_at (ops ∷ []) e

OrderPost-StagePost :
    (err_at : ℕ → Bool) (ops : List Operation) (r : Result (List Operation))
    → OrderPost err_at ops (build_dag ops).dependencies r
    → StagePost err_at ops r
unfolding OrderPost StagePost IsHonest HasNoRank
OrderPost-StagePost err_at ops (ok sorted) (order, lists, complete, topological) = record {
  order = order;
  lists = lists;
  complete = complete;
  topological = topological;
}
OrderPost-StagePost err_at ops (Result.err cancelled) h = h
OrderPost-StagePost err_at ops (Result.err cycle_detected) h = inl h
OrderPost-StagePost err_at ops (Result.err out_of_fuel) h = h

sort_stage-StagePost :
    (ctx : Context) (ops : List Operation) → StagePost ctx.err_at ops (sort_stage ctx ops).0
unfolding StagePost
sort_stage-StagePost ctx [] = record {
  order = [];
  lists = refl;
  complete = ((λ i lt. absurd (omega arith)), (λ i le. refl));
  topological = tt;
}
sort_stage-StagePost ctx (op ∷ ops) =
    OrderPost-StagePost ctx.err_at (op ∷ ops) _ (topo_sort-OrderPost ctx (op ∷ ops))

-- The questions to the context stay the same.
loop-err_at :
    (fuel : ℕ) (d : Dag) (ctx : Context) (k : Kahn) (queue : List ℕ)
    → (loop fuel d ctx k queue).1.err_at ≡ ctx.err_at
unfolding loop
loop-err_at fuel d ctx k [] = refl
loop-err_at zero d ctx k (node ∷ queue) = refl
loop-err_at (suc fuel) d ctx k (node ∷ queue) =
    if_ind (λ (r : Result Kahn × Context). r.1.err_at ≡ ctx.err_at) (err ctx) (λ _. refl)
      (λ _. loop-err_at fuel d (polled ctx) (visit d node queue k) (visit d node queue k).queue)

sort_stage-err_at :
    (ctx : Context) (ops : List Operation) → (sort_stage ctx ops).1.err_at ≡ ctx.err_at
unfolding topo_sort get_execution_order
sort_stage-err_at ctx [] = refl
sort_stage-err_at ctx (op ∷ ops) = loop-err_at _ _ ctx _ _

plan_from-err_at :
    (ops : List Operation) (ctx : Context) (s : Stages)
    → (plan_from ctx s ops).1.err_at ≡ ctx.err_at
unfolding plan_from
plan_from-err_at [] ctx s = refl
plan_from-err_at (op ∷ ops) ctx s =
    if_ind (λ (r : Result Stages × Context). r.1.err_at ≡ ctx.err_at) (err ctx) (λ _. refl)
      (λ _. plan_from-err_at ops (polled ctx) (put_stage (assign_stage op) op s))

plan-err_at : (ctx : Context) (ops : List Operation) → (plan ctx ops).1.err_at ≡ ctx.err_at
unfolding plan
plan-err_at ctx ops = plan_from-err_at ops ctx _

-- Behind what was sorted before, one sorted list for each stage.
RowsPost : (ℕ → Bool) → List Operation → List (List Operation) → Result (List Operation) → Type 0
RowsPost err_at acc stages (ok r) =
    (tail : List Operation) × (r ≡ acc ++ tail) × IsSplit stages tail
RowsPost err_at acc stages (Result.err e) = IsHonest err_at stages e

RowsPost-further :
    (err_at : ℕ → Bool) (acc ops sorted : List Operation) (stages : List (List Operation))
    (r : Result (List Operation))
    → IsSorted ops sorted
    → RowsPost err_at (acc ++ sorted) stages r
    → RowsPost err_at acc (ops ∷ stages) r
unfolding RowsPost
RowsPost-further err_at acc ops sorted stages (ok r) row (tail, splits, rest) =
    (sorted ++ tail, splits ∙ append_assoc acc sorted tail, (sorted, tail, refl, row, rest))
RowsPost-further err_at acc ops sorted stages (Result.err e) row h =
    IsHonest-further err_at ops stages e h

sort_stages-RowsPost :
    (stages : List (List Operation)) (ctx : Context) (acc : List Operation)
    → RowsPost ctx.err_at acc stages (sort_stages ctx acc stages).0
unfolding sort_stages RowsPost StagePost IsHonest
sort_stages-RowsPost [] ctx acc = ([], sym (append-nil acc), refl)
sort_stages-RowsPost (ops ∷ stages) ctx acc =
    step (sort_stage ctx ops) (sort_stage-err_at ctx ops) (sort_stage-StagePost ctx ops)
      (sort_stages-RowsPost stages)
  where
    widen : (e : Error) → IsHonest ctx.err_at (ops ∷ []) e → IsHonest ctx.err_at (ops ∷ stages) e
    widen cancelled h = h
    widen cycle_detected (inl h) = inl h
    widen cycle_detected (inr h) = absurd h
    widen out_of_fuel h = h

    step :
        (r : Result (List Operation) × Context)
        → r.1.err_at ≡ ctx.err_at
        → StagePost ctx.err_at ops r.0
        → ((c : Context) (l : List Operation)
            → RowsPost c.err_at l stages (sort_stages c l stages).0)
        → RowsPost ctx.err_at acc
            (ops ∷ stages)
            (elim r.0 as (λ _. Result (List Operation) × Context) [
              | ok sorted ↦ sort_stages r.1 (acc ++ sorted) stages
              | Result.err e ↦ (Result.err e, r.1)
            ]).0
    step (ok sorted, ctx') same row ih = RowsPost-further ctx.err_at acc ops sorted stages _ row (
        subst (λ e. RowsPost e (acc ++ sorted) stages (sort_stages ctx' (acc ++ sorted) stages).0)
          same (ih ctx' (acc ++ sorted)))
    step (Result.err e, ctx') same h ih = widen e h

-- The operations of the three stages, in the given order.
abbrev pub stage_rows : List Operation → List (List Operation)
stage_rows ops = of_stage pre_deploy ops ∷ of_stage deploy ops ∷ of_stage post_deploy ops ∷ []

unfoldable pub PlanPost : (ℕ → Bool) → List Operation → Result (List Operation) → Type 0
PlanPost err_at ops (ok r) = IsSplit (stage_rows ops) r
PlanPost err_at ops (Result.err e) = IsHonest err_at (stage_rows ops) e

-- Whatever the operations are: a plan that is returned falls into the operations of the stages
-- pre-deploy, deploy and post-deploy, in this order, each sorted topologically in the graph of its
-- stage's operations; cancellation is reported only where the context says so, and a cycle only
-- where the graph of one stage has no rank that grows along its dependencies.
pub build_execution_plan-PlanPost :
    (ctx : Context) (ops : List Operation)
    → PlanPost ctx.err_at ops (build_execution_plan ctx ops).0
unfolding build_execution_plan PlanPost RowsPost PartitionPost IsHonest
build_execution_plan-PlanPost ctx ops =
    step (plan ctx ops) (plan-err_at ctx ops) (plan-PartitionPost ctx ops)
  where
    rows :
        (r : Result (List Operation))
        → RowsPost ctx.err_at [] (stage_rows ops) r
        → PlanPost ctx.err_at ops r
    rows (ok r) (tail, splits, h) = subst (IsSplit (stage_rows ops)) (sym splits) h
    rows (Result.err e) h = h

    step :
        (r : Result Stages × Context)
        → r.1.err_at ≡ ctx.err_at
        → PartitionPost ctx.err_at (record { pre = []; main = []; post = [] }) ops r.0
        → PlanPost ctx.err_at ops (sort_plan r.0 r.1).0
    step (ok s, ctx') same (pre, main, post) =
        rw (pre, main, post)
          (rows _ (
            subst (λ e. RowsPost e [] (stage_rows ops) (sort_stages ctx' [] (stage_rows ops)).0)
              same (sort_stages-RowsPost (stage_rows ops) ctx' [])))
    step (Result.err e, ctx') same (is_cancelled, stop) = rw is_cancelled stop
