-- ===== src/Plan/Stages/Partition.antt =====
-- `Planner.Plan` splits the operations by stage and keeps their order.
use migra_go.Prelude.{
  ℕ, Bool, true, false, List, [], ◌∷◌, ◌++◌, ◌≡◌, refl, sym, ◌∙◌, keep_if, if_ind, append_assoc,
  append-nil,
}
use migra_go.Context.{Context, err, polled}
use migra_go.Diff.Operation.{Operation}
use migra_go.Plan.Result.{Result, ok, cancelled}
use migra_go.Plan.Stages.{
  Stage, pre_deploy, deploy, post_deploy, assign_stage, Stages, put_stage, plan_from, plan,
}

abbrev pub stage_eq : Stage → Stage → Bool
stage_eq pre_deploy pre_deploy = true
stage_eq deploy deploy = true
stage_eq post_deploy post_deploy = true
stage_eq _ _ = false

-- The operations of one stage, in the given order.
abbrev pub of_stage : Stage → List Operation → List Operation
of_stage s ops = keep_if (λ op. stage_eq s (assign_stage op)) ops

-- The map holds, behind what was in it, the operations of each stage; cancellation is the only error.
unfoldable pub PartitionPost : (ℕ → Bool) → Stages → List Operation → Result Stages → Type 0
PartitionPost err_at s ops (ok t) =
    (t.pre ≡ s.pre ++ of_stage pre_deploy ops)
    × (t.main ≡ s.main ++ of_stage deploy ops)
    × (t.post ≡ s.post ++ of_stage post_deploy ops)
PartitionPost err_at s ops (Result.err e) = (e ≡ cancelled) × ((n : ℕ) × (err_at n ≡ true))

put_stage-PartitionPost :
    (err_at : ℕ → Bool) (p : Stage) (op : Operation) (s : Stages) (ops : List Operation)
    (r : Result Stages)
    → assign_stage op ≡ p
    → PartitionPost err_at (put_stage p op s) ops r
    → PartitionPost err_at s (op ∷ ops) r
unfolding PartitionPost put_stage
put_stage-PartitionPost err_at pre_deploy op s ops (ok t) e h =
    rw e (h.0 ∙ append_assoc s.pre (op ∷ []) (of_stage pre_deploy ops), h.1, h.2)
put_stage-PartitionPost err_at deploy op s ops (ok t) e h =
    rw e (h.0, h.1 ∙ append_assoc s.main (op ∷ []) (of_stage deploy ops), h.2)
put_stage-PartitionPost err_at post_deploy op s ops (ok t) e h =
    rw e (h.0, h.1, h.2 ∙ append_assoc s.post (op ∷ []) (of_stage post_deploy ops))
put_stage-PartitionPost err_at pre_deploy op s ops (Result.err e') e h = h
put_stage-PartitionPost err_at deploy op s ops (Result.err e') e h = h
put_stage-PartitionPost err_at post_deploy op s ops (Result.err e') e h = h

plan_from-PartitionPost :
    (ops : List Operation) (ctx : Context) (s : Stages)
    → PartitionPost ctx.err_at s ops (plan_from ctx s ops).0
unfolding plan_from PartitionPost
plan_from-PartitionPost [] ctx s =
    (sym (append-nil s.pre), sym (append-nil s.main), sym (append-nil s.post))
plan_from-PartitionPost (op ∷ ops) ctx s =
    if_ind (λ (r : Result Stages × Context). PartitionPost ctx.err_at s (op ∷ ops) r.0) (err ctx)
      (λ stop. (refl, (ctx.polls, stop)))
      (λ _.
        put_stage-PartitionPost ctx.err_at (assign_stage op) op s ops _ refl
          (plan_from-PartitionPost ops (polled ctx) (put_stage (assign_stage op) op s)))

-- Whatever the operations are, the plan's stages hold those assigned to them, in the given order;
-- the only error is that of the context.
pub plan-PartitionPost :
    (ctx : Context) (ops : List Operation)
    → PartitionPost ctx.err_at (record { pre = []; main = []; post = [] }) ops (plan ctx ops).0
unfolding plan
plan-PartitionPost ctx ops = plan_from-PartitionPost ops ctx _
