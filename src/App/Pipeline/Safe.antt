-- ===== src/App/Pipeline/Safe.antt =====
-- `ComputeDiff` as a whole.
use migra_go.Prelude.{
  ℕ, String, Bool, false, List, [], ◌∷◌, ◌≡◌, sym, subst, All, All-append, if_ind,
}
use migra_go.Context.{Context}
use migra_go.Model.Objects.{Schema}
use migra_go.Diff.Operation.{Operation, is_destructive}
use migra_go.Diff.Schemas.{diff}
use migra_go.Plan.Result.{Result, ok}
use migra_go.Plan.Stages.{Stage, pre_deploy, deploy, post_deploy, assign_stage}
use migra_go.Plan.Stages.Partition.{stage_eq, of_stage}
use migra_go.App.Pipeline.{Warning, filter_namespaces, with_warnings, compute_diff}
use migra_go.App.Pipeline.Filter.{filter_destructive_ops-safe}
use migra_go.App.Pipeline.Ordering.{
  IsSorted, IsSplit, PlanPost, stage_rows, build_execution_plan-PlanPost,
}
use migra_go.App.Pipeline.Rising.{ops_at-All}

module _ (P : Operation → Type 0) where
  of_stage-All : (s : Stage) (ops : List Operation) → All P ops → All P (of_stage s ops)
  of_stage-All s [] h = tt
  of_stage-All s (op ∷ ops) h =
      if_ind (All P) (stage_eq s (assign_stage op)) (λ _. (h.0, of_stage-All s ops h.1))
        (λ _. of_stage-All s ops h.1)

  IsSorted-All : (ops sorted : List Operation) → IsSorted ops sorted → All P ops → All P sorted
  IsSorted-All ops sorted s h = subst (All P) (sym s.lists) (ops_at-All P ops s.order h)

  IsSplit-All :
      (stages : List (List Operation)) (r : List Operation)
      → IsSplit stages r
      → All (All P) stages
      → All P r
  IsSplit-All [] r e h = subst (All P) (sym e) tt
  IsSplit-All (ops ∷ stages) r (sorted, rest, e, row, splits) h = subst (All P) (sym e) (
      All-append P sorted rest (IsSorted-All ops sorted row h.0)
        (IsSplit-All stages rest splits h.1))

  -- Every operation of the plan that is returned has the property.
  abbrev PlanHas : Result (List Operation) → Type 0
  PlanHas (ok r) = All P r
  PlanHas (Result.err e) = Unit

  plan-All :
      (err_at : ℕ → Bool) (ops : List Operation) (r : Result (List Operation))
      → PlanPost err_at ops r
      → All P ops
      → PlanHas r
  unfolding PlanPost
  plan-All err_at ops (ok r) h a = IsSplit-All (stage_rows ops) r h (
    of_stage-All pre_deploy ops a,
    (of_stage-All deploy ops a, (of_stage-All post_deploy ops a, tt)),
  )
  plan-All err_at ops (Result.err e) h a = tt

-- No operation of the result destroys anything.
abbrev pub IsHarmless : Result (List Operation × List Warning) → Type 0
IsHarmless (ok (ops, warnings)) = All (λ op. is_destructive op ≡ false) ops
IsHarmless (Result.err e) = Unit

with_warnings-IsHarmless :
    (warnings : List Warning) (r : Result (List Operation))
    → PlanHas (λ op. is_destructive op ≡ false) r
    → IsHarmless (with_warnings warnings r)
with_warnings-IsHarmless warnings (ok r) h = h
with_warnings-IsHarmless warnings (Result.err e) h = tt

-- For all schemas and all namespaces asked for: without --unsafe-drop, no operation of the plan
-- that `ComputeDiff` returns, behind the normalisation, is destructive.
pub compute_diff-safe :
    (ctx : Context) (source target : Schema) (schemas : List String)
    → IsHarmless (compute_diff ctx source target schemas false)
unfolding compute_diff
compute_diff-safe ctx source target schemas =
    let (source', target', filter_warnings) = filter_namespaces source target schemas in
    let found = diff ctx source' target' in
    with_warnings-IsHarmless _ _ (
      plan-All (λ op. is_destructive op ≡ false) _ _ _ (build_execution_plan-PlanPost found.ctx _)
        (filter_destructive_ops-safe found.ops))
