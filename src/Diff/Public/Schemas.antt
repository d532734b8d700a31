-- ===== src/Diff/Public/Schemas.antt =====
-- Whole schemas: the schema "public" is never dropped.
use migra_go.Prelude.{
  String, false, Option, none, some, ◌≡◌, ◌≢◌, arith, All, get, str_eq, eq_iff, if_ind,
}
use migra_go.Context.{Context}
use migra_go.Model.Objects.{Namespace, Schema}
use migra_go.Diff.Context.{DiffContext, new_diff_context, call}
use migra_go.Diff.Context.Keeps.{Keeps-then, Keeps-call, Keeps-when, Keeps-for_each}
use migra_go.Diff.Create.{new_create_schema_op, new_drop_schema_op}
use migra_go.Diff.Schemas.{
  diff_namespace, diff_target_namespace, drop_namespace, diff_schemas, diff,
}
use migra_go.Diff.Public.{
  Spares, IsSparing, IsSafe, IsSafe-add, IsSafe-warn, IsSafe-check, IsSafe-polled,
}
use migra_go.Diff.Public.Tables.{IsSafe-tables}
use migra_go.Diff.Public.Objects.{IsSafe-types, IsSafe-views, IsSafe-sequences, IsSafe-extensions}

IsSafe-namespace :
    (source : Option Namespace) (target : Namespace) → IsSafe (diff_namespace source target)
unfolding diff_namespace
IsSafe-namespace source target = Keeps-then (Keeps-call (IsSafe-tables source target)) (
    Keeps-then (Keeps-call (IsSafe-types source target)) (
      Keeps-then (Keeps-call (IsSafe-views source target)) (
        Keeps-then (Keeps-call (IsSafe-sequences source target))
          (Keeps-call (IsSafe-extensions source target)))))

IsSafe-target_namespace :
    (name : String) (target : Namespace) (source : Option Namespace)
    → IsSafe (diff_target_namespace name target source)
unfolding diff_target_namespace new_create_schema_op
IsSafe-target_namespace name target none =
    Keeps-then (IsSafe-add _ tt) (Keeps-call (IsSafe-namespace none target))
IsSafe-target_namespace name target (some source) =
    Keeps-call (IsSafe-namespace (some source) target)

not_public : (name : String) → str_eq name "public" ≡ false → name ≢ "public"
not_public name e p = ground (arith, eq_iff name "public")

IsSafe-drop : (target : Schema) (name : String) → IsSafe (drop_namespace target name)
unfolding drop_namespace new_drop_schema_op
IsSafe-drop target name = Keeps-when _ (λ _.
    if_ind IsSafe (str_eq name "public") (λ _. IsSafe-warn _)
      (λ e. IsSafe-add _ (not_public name e)))

IsSafe-schemas : (source target : Schema) → IsSafe (diff_schemas source target)
unfolding diff_schemas
IsSafe-schemas source target =
    Keeps-then
      (IsSafe-polled _ target.schemas
        (λ name ns. IsSafe-target_namespace name ns (get name source.schemas)))
      (Keeps-for_each _ (λ name. Keeps-then IsSafe-check (IsSafe-drop target name)))

-- Whatever the two schemas are: no operation of their difference drops the schema "public".
pub diff-Spares :
    (ctx : Context) (source target : Schema)
    → All (λ op. Spares op.payload) (diff ctx source target).ops
unfolding diff call new_diff_context IsSparing
diff-Spares ctx source target = unpack (new_diff_context ctx) tt
  where
    unpack :
        (c : DiffContext)
        → All (λ op. Spares op.payload) c.ops
        → All (λ op. Spares op.payload) (diff_schemas source target c).0.ops
    unpack c h = (IsSafe-schemas source target).kept c h
