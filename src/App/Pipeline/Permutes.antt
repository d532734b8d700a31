-- ===== src/App/Pipeline/Permutes.antt =====
-- `BuildExecutionPlan`: the plan as a rearrangement of the operations it was given.
use mathlib.Core.List.{Perm, perm_append_comm}
use mathlib.Core.List.Perm
use migra_go.Prelude.{
  ℕ, if◌then◌else◌, Bool, List, [], ◌∷◌, ◌++◌, ap, sym, ◌∙◌, subst, append_assoc, append-nil,
}
use migra_go.Context.{Context}
use migra_go.Diff.Operation.{Operation}
use migra_go.Plan.Result.{Result, ok}
use migra_go.Plan.Permutation.{listing-perm}
use migra_go.Plan.Stages.{Stage, pre_deploy, deploy, post_deploy, assign_stage}
use migra_go.Plan.Stages.Partition.{stage_eq, of_stage}
use migra_go.App.Pipeline.{build_execution_plan}
use migra_go.App.Pipeline.Ordering.{IsSorted, IsSplit, PlanPost, build_execution_plan-PlanPost}

insert-Perm : (a b : List Operation) (op : Operation) → Perm (a ++ op ∷ b) (op ∷ a ++ b)
insert-Perm a b op =
    subst (λ l. Perm l (op ∷ a ++ b)) (append_assoc a (op ∷ []) b)
      (Perm.append_right b (perm_append_comm a (op ∷ [])))

cons-Perm : (op : Operation) (a b : List Operation) → Perm a b → Perm (op ∷ a) (op ∷ b)
cons-Perm op a b p = Perm.append_left (op ∷ []) p

-- One more operation, at the head of its stage.
grow-Perm :
    (s : Stage) (op : Operation) (a b c ops : List Operation)
    → Perm (a ++ (b ++ c)) ops
    → Perm
        ((if stage_eq pre_deploy s then op ∷ a else a)
          ++ ((if stage_eq deploy s then op ∷ b else b)
              ++ (if stage_eq post_deploy s then op ∷ c else c)))
        (op ∷ ops)
grow-Perm pre_deploy op a b c ops p = cons-Perm op (a ++ (b ++ c)) ops p
grow-Perm deploy op a b c ops p =
    Perm.trans (insert-Perm a (b ++ c) op) (cons-Perm op (a ++ (b ++ c)) ops p)
grow-Perm post_deploy op a b c ops p =
    Perm.trans
      (subst (λ l. Perm l (op ∷ a ++ (b ++ c))) (append_assoc a b (op ∷ c))
        (subst (λ l. Perm ((a ++ b) ++ op ∷ c) (op ∷ l)) (append_assoc a b c)
          (insert-Perm (a ++ b) c op)))
      (cons-Perm op (a ++ (b ++ c)) ops p)

stages-Perm :
    (ops : List Operation)
    → Perm (of_stage pre_deploy ops ++ (of_stage deploy ops ++ of_stage post_deploy ops)) ops
stages-Perm [] = Perm.nil
stages-Perm (op ∷ ops) = grow-Perm (assign_stage op) op _ _ _ ops (stages-Perm ops)

IsSorted-Perm : (ops sorted : List Operation) → IsSorted ops sorted → Perm sorted ops
IsSorted-Perm ops sorted h =
    subst (λ l. Perm l ops) (sym h.lists) (listing-perm ops h.order h.complete)

Perm-append : (a b c d : List Operation) → Perm a b → Perm c d → Perm (a ++ c) (b ++ d)
Perm-append a b c d p q = Perm.trans (Perm.append_right c p) (Perm.append_left b q)

split-Perm : (a b c r : List Operation) → IsSplit (a ∷ b ∷ c ∷ []) r → Perm r (a ++ (b ++ c))
split-Perm a b c r (sa, ra, ea, ha, (sb, rb, eb, hb, (sc, rc, ec, hc, e))) =
    subst (λ l. Perm l (a ++ (b ++ c)))
      (sym (
        ea ∙ ap (λ l. sa ++ l) (eb ∙ ap (λ l. sb ++ l) (ec ∙ ap (λ l. sc ++ l) e ∙ append-nil sc))))
      (Perm-append sa a (sb ++ sc) (b ++ c) (IsSorted-Perm a sa ha)
        (Perm-append sb b sc c (IsSorted-Perm b sb hb) (IsSorted-Perm c sc hc)))

pub Permutes : List Operation → Result (List Operation) → Type 0
Permutes ops (ok r) = Perm r ops
Permutes ops (Result.err e) = Unit

PlanPost-Permutes :
    (err_at : ℕ → Bool) (ops : List Operation) (r : Result (List Operation))
    → PlanPost err_at ops r
    → Permutes ops r
unfolding Permutes PlanPost
PlanPost-Permutes err_at ops (ok r) h = Perm.trans (split-Perm _ _ _ r h) (stages-Perm ops)
PlanPost-Permutes err_at ops (Result.err e) h = tt

-- Whatever the operations are: a plan that is returned is a permutation of them.
pub build_execution_plan-Permutes :
    (ctx : Context) (ops : List Operation) → Permutes ops (build_execution_plan ctx ops).0
build_execution_plan-Permutes ctx ops =
    PlanPost-Permutes ctx.err_at ops _ (build_execution_plan-PlanPost ctx ops)
