-- ===== src/Diff/Schemas.antt =====
-- internal/diff/differ.go: whole schemas.
use migra_go.Prelude.{String, not, Option, none, some, get, has, str_eq, if◌then◌else◌}
use migra_go.Model.Objects.{Namespace, Schema}
use migra_go.Context.{Context}
use migra_go.Diff.Context.{
  DiffContext, new_diff_context, Statement, ◌>>◌, check_cancelled, add_op, warnf, call, for_each,
  when,
}
use migra_go.Diff.Create.{new_create_schema_op, new_drop_schema_op}
use migra_go.Diff.Names.{sorted_names, for_polled}
use migra_go.Diff.Tables.{diff_tables}
use migra_go.Diff.Objects.{diff_types, diff_views, diff_sequences, diff_extensions}

unfoldable pub diff_namespace : Option Namespace → Namespace → Statement
diff_namespace source target = do
  call (diff_tables source target)
  call (diff_types source target)
  call (diff_views source target)
  call (diff_sequences source target)
  call (diff_extensions source target)

unfoldable pub diff_target_namespace : String → Namespace → Option Namespace → Statement
diff_target_namespace name target none = do
  add_op (new_create_schema_op name)
  call (diff_namespace none target)
diff_target_namespace name target (some source) = call (diff_namespace (some source) target)

unfoldable pub drop_namespace : Schema → String → Statement
drop_namespace target name = when (not (has name target.schemas)) (
    if str_eq name "public"
    then warnf "dropping 'public' schema is not allowed"
    else add_op (new_drop_schema_op name))

unfoldable pub diff_schemas : Schema → Schema → Statement
diff_schemas source target = do
  for_polled (sorted_names target.schemas) target.schemas
      (λ name ns. diff_target_namespace name ns (get name source.schemas))
  for_each (sorted_names source.schemas) (λ name. check_cancelled >> drop_namespace target name)

-- Differ.Diff: the state that the comparison leaves, which holds the operations and the warnings.
unfoldable pub diff : Context → Schema → Schema → DiffContext
diff ctx source target = (call (diff_schemas source target) (new_diff_context ctx)).0
