-- ===== src/App/Pipeline/Rising.antt =====
-- `BuildExecutionPlan`: the stages of the whole plan.

use migra_go.Prelude.{
  All-map, ℕ, zero, suc, ◌≤◌, true, List, [], ◌∷◌, ◌++◌, ◌≡◌, refl, sym, subst, arith, All,
  All-append, append-nil, get_elem?, if_ind,
}
use migra_go.Context.{Context}
use migra_go.Diff.Operation.{Operation}
use migra_go.Plan.Result.{Result, ok}
use migra_go.Plan.Order.{op_list}
use migra_go.Plan.Order.Invariant.{ops_at}
use migra_go.Plan.Stages.{Stage, pre_deploy, deploy, post_deploy, assign_stage}
use migra_go.Plan.Stages.Partition.{stage_eq, of_stage}
use migra_go.App.Pipeline.{build_execution_plan}
use migra_go.App.Pipeline.Ordering.{
  IsSorted, IsSplit, PlanPost, stage_rows, build_execution_plan-PlanPost,
}

-- The place of a stage in a plan.
pub stage_rank : Stage → ℕ
stage_rank pre_deploy = 0
stage_rank deploy = 1
stage_rank post_deploy = 2

abbrev pub rank : Operation → ℕ
rank op = stage_rank (assign_stage op)

-- No operation stands behind one of a later stage.
abbrev pub IsRising : List Operation → Type 0
IsRising [] = Unit
IsRising (op ∷ ops) = All (λ later. rank op ≤ rank later) ops × IsRising ops

abbrev AtRank : ℕ → List Operation → Type 0
AtRank n ops = All (λ op. rank op ≡ n) ops

append-IsRising :
    (n : ℕ) (a b : List Operation)
    → AtRank n a
    → All (λ op. n ≤ rank op) b
    → IsRising b
    → IsRising (a ++ b)
append-IsRising n [] b at above rising = rising
append-IsRising n (op ∷ a) b (here, at) above rising = (
  All-append (λ later. rank op ≤ rank later) a b (All-map a (λ _ e. omega (arith, e, here)) at)
      (All-map b (λ _ le. omega (arith, le, here)) above),
  append-IsRising n a b at above rising,
)

stage_eq-rank : (s t : Stage) → stage_eq s t ≡ true → stage_rank t ≡ stage_rank s
unfolding stage_rank
stage_eq-rank pre_deploy pre_deploy e = refl
stage_eq-rank deploy deploy e = refl
stage_eq-rank post_deploy post_deploy e = refl
stage_eq-rank pre_deploy deploy e = cc e
stage_eq-rank pre_deploy post_deploy e = cc e
stage_eq-rank deploy pre_deploy e = cc e
stage_eq-rank deploy post_deploy e = cc e
stage_eq-rank post_deploy pre_deploy e = cc e
stage_eq-rank post_deploy deploy e = cc e

of_stage-AtRank : (s : Stage) (ops : List Operation) → AtRank (stage_rank s) (of_stage s ops)
of_stage-AtRank s [] = tt
of_stage-AtRank s (op ∷ ops) =
    if_ind (AtRank (stage_rank s)) (stage_eq s (assign_stage op))
      (λ e. (stage_eq-rank s (assign_stage op) e, of_stage-AtRank s ops))
      (λ _. of_stage-AtRank s ops)

All-get_elem? :
    (P : Operation → Type 0) (ops : List Operation) (i : ℕ)
    → All P ops
    → All P (op_list (get_elem? ops i))
All-get_elem? P [] i h = tt
All-get_elem? P (op ∷ ops) zero h = (h.0, tt)
All-get_elem? P (op ∷ ops) (suc i) h = All-get_elem? P ops i h.1

pub ops_at-All :
    (P : Operation → Type 0) (ops : List Operation) (order : List ℕ)
    → All P ops
    → All P (ops_at ops order)
ops_at-All P ops [] h = tt
ops_at-All P ops (i ∷ order) h =
    All-append P (op_list (get_elem? ops i)) (ops_at ops order) (All-get_elem? P ops i h)
      (ops_at-All P ops order h)

IsSorted-AtRank :
    (n : ℕ) (ops sorted : List Operation) → IsSorted ops sorted → AtRank n ops → AtRank n sorted
IsSorted-AtRank n ops sorted h at =
    subst (AtRank n) (sym h.lists) (ops_at-All (λ op. rank op ≡ n) ops h.order at)

pub Rises : Result (List Operation) → Type 0
Rises (ok r) = IsRising r
Rises (Result.err e) = Unit

split-IsRising : (ops r : List Operation) → IsSplit (stage_rows ops) r → IsRising r
unfolding stage_rank
split-IsRising ops r (a, ra, ea, ha, (b, rb, eb, hb, (c, rc, ec, hc, e))) =
    let at_c : AtRank 2 c = IsSorted-AtRank 2 _ c hc (of_stage-AtRank post_deploy ops) in
    let at_b : AtRank 1 b = IsSorted-AtRank 1 _ b hb (of_stage-AtRank deploy ops) in
    let at_a : AtRank 0 a = IsSorted-AtRank 0 _ a ha (of_stage-AtRank pre_deploy ops) in
    let from_b : IsRising (b ++ c) =
      append-IsRising 1 b c at_b (All-map c (λ _ k. omega (arith, k)) at_c)
        (subst IsRising (append-nil c) (append-IsRising 2 c [] at_c tt tt)) in
    rw (ea, eb, ec, e, append-nil c) (append-IsRising 0 a (b ++ c) at_a (All-zero (b ++ c)) from_b)
  where
    All-zero : (l : List Operation) → All (λ op. 0 ≤ rank op) l
    All-zero [] = tt
    All-zero (op ∷ l) = (omega arith, All-zero l)

-- Whatever the operations are: in a plan that is returned no operation stands behind one of a later
-- stage. So the addition of a constraint or an index stands before every removal of one, also of
-- the one that it replaces.
pub build_execution_plan-Rises :
    (ctx : Context) (ops : List Operation) → Rises (build_execution_plan ctx ops).0
unfolding Rises PlanPost
build_execution_plan-Rises ctx ops =
    step (build_execution_plan ctx ops).0 (build_execution_plan-PlanPost ctx ops)
  where
    step : (r : Result (List Operation)) → PlanPost ctx.err_at ops r → Rises r
    step (ok r) h = split-IsRising ops r h
    step (Result.err e) h = tt
