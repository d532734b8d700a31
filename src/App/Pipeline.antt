-- ===== src/App/Pipeline.antt =====
-- internal/app/pipeline.go: from the differ's operations to the ordered plan.
pub mod Filter
pub mod Ordering
pub mod Permutes
pub mod Rising
pub mod Safe
use migra_go.Prelude.{
  ℕ, suc, String, Bool, true, false, not, Option, none, some, List, [], ◌∷◌, ◌++◌, Map, any, get,
  has, keep_if, length, ltb, map, str_eq, if◌then◌else◌,
}
use migra_go.Context.{Context}
use migra_go.Model.ObjectKey.{ObjectKey}
use migra_go.Model.Objects.{Namespace, Schema}
use migra_go.Diff.Operation.{Kind, Operation, is_destructive}
use migra_go.Diff.Schemas.{diff}
use migra_go.Plan.Result.{Result, ok}
use migra_go.Plan.Stages.{Stages, plan, topo_sort}

-- The warnings, each with the arguments of its format in place of the text.
pub data Warning : Type 0 where
  differ_text : String → Warning
  no_schema_matched : Warning
  destructive_count : ℕ → Warning
  destructive_operation : Kind → ObjectKey → Warning
  unsafe_drop_hint : Warning

-- The closure `filterSchema`.
unfoldable pub filter_schema : List String → Schema → Schema
filter_schema schemas s = record s { schemas = keep_if (λ e. any (str_eq e.0) schemas) s.schemas }

abbrev is_empty : Map Namespace → Bool
is_empty [] = true
is_empty (_ ∷ _) = false

-- The filtered schemas, and the warnings.
unfoldable pub filter_namespaces : Schema → Schema → List String → Schema × Schema × List Warning
unfolding filter_schema
filter_namespaces source target [] = (source, target, [])
filter_namespaces source target (name ∷ names) =
    let source' = filter_schema (name ∷ names) source in
    let target' = filter_schema (name ∷ names) target in
    (
      source',
      target',
      if is_empty source'.schemas
          then if is_empty target'.schemas then no_schema_matched ∷ [] else []
          else [],
    )

abbrev pub describe : Operation → Warning
describe op = destructive_operation op.kind op.object_key

unfoldable pub filter_destructive_ops : List Operation → Bool → List Operation × List Warning
filter_destructive_ops ops true = (ops, [])
filter_destructive_ops ops false =
    let destructive = keep_if is_destructive ops in
    (
      keep_if (λ op. not (is_destructive op)) ops,
      if ltb 0 (length destructive)
          then (destructive_count (length destructive) ∷ map describe destructive)
            ++ unsafe_drop_hint ∷ []
          else [],
    )

-- One round of the loop over the stages: an empty stage is passed over.
abbrev pub sort_stage : Context → List Operation → Result (List Operation) × Context
sort_stage ctx [] = (ok [], ctx)
sort_stage ctx (op ∷ ops) = topo_sort ctx (op ∷ ops)

unfoldable pub sort_stages :
    Context → List Operation → List (List Operation) → Result (List Operation) × Context
unfolding topo_sort
sort_stages ctx all_ops [] = (ok all_ops, ctx)
sort_stages ctx all_ops (stage ∷ stages) =
    let (sorted, ctx') = sort_stage ctx stage in
    elim sorted [
      | ok ops ↦ sort_stages ctx' (all_ops ++ ops) stages
      | Result.err e ↦ (Result.err e, ctx')
    ]

abbrev pub sort_plan : Result Stages → Context → Result (List Operation) × Context
sort_plan (ok s) ctx = sort_stages ctx [] (s.pre ∷ s.main ∷ s.post ∷ [])
sort_plan (Result.err e) ctx = (Result.err e, ctx)

unfoldable pub build_execution_plan : Context → List Operation → Result (List Operation) × Context
unfolding plan sort_stages
build_execution_plan ctx ops = let (stages, ctx') = plan ctx ops in sort_plan stages ctx'

abbrev with_warnings :
    List Warning → Result (List Operation) → Result (List Operation × List Warning)
with_warnings warnings (ok ops) = ok (ops, warnings)
with_warnings warnings (Result.err e) = Result.err e

-- `ComputeDiff` behind the normalisation of its two schemas.
unfoldable pub compute_diff :
    Context → Schema → Schema → List String → Bool → Result (List Operation × List Warning)
unfolding filter_namespaces filter_destructive_ops build_execution_plan
compute_diff ctx source target schemas unsafe_drop =
    let (source', target', filter_warnings) = filter_namespaces source target schemas in
    let found = diff ctx source' target' in
    let (filtered, filter_warnings2) = filter_destructive_ops found.ops unsafe_drop in
    let warnings = (map differ_text found.warnings ++ filter_warnings) ++ filter_warnings2 in
    with_warnings warnings (build_execution_plan found.ctx filtered).0
