-- ===== src/Diff/Objects/Views.antt =====
-- internal/diff/differ.go: views and materialized views.
use migra_go.Prelude.{String, true, not, Option, none, some, get, has, str_eq, if◌then◌else◌, xor}
use migra_go.Model.Objects.{View, Namespace}
use migra_go.Diff.Context.{Statement, ◌>>◌, add_op, when}
use migra_go.Diff.Operation.{Operation, view_op}
use migra_go.Diff.Payload.{drop_view_op}
use migra_go.Diff.Create.{
  new_create_view_op, new_drop_view_op, new_replace_view_op, new_create_materialized_view_op,
  new_drop_materialized_view_op,
}
use migra_go.Diff.Names.{sorted_names, for_polled}

unfoldable pub create_view : String → View → Operation
create_view schema view =
    if view.materialized
    then new_create_materialized_view_op schema view
    else new_create_view_op schema view

-- drop := NewDropViewOp(...); drop.IsRecreate = true
unfoldable pub recreate_drop : String → String → Operation
unfolding new_drop_view_op
recreate_drop schema name = record (new_drop_view_op schema name) {
  payload = view_op (drop_view_op schema name true);
}

-- A view of the target that the source has too.
abbrev replace_pair : Operation → Operation → Statement
replace_pair old new = do add_op old; add_op new

-- A view of the target that the source has too.
unfoldable pub diff_view : String → String → String → View → View → Statement
diff_view source_name target_name name src tgt =
    if xor src.materialized tgt.materialized
    then replace_pair
        (if src.materialized
          then new_drop_materialized_view_op source_name name
          else recreate_drop source_name name)
        (create_view target_name tgt)
    else when (not (str_eq src.definition tgt.definition)) (
        if tgt.materialized
        then replace_pair (new_drop_materialized_view_op source_name name)
            (new_create_materialized_view_op target_name tgt)
        else add_op (new_replace_view_op target_name tgt))

unfoldable pub diff_target_view : Namespace → Namespace → String → View → Option View → Statement
diff_target_view source target name tgt none = add_op (create_view target.name tgt)
diff_target_view source target name tgt (some src) = diff_view source.name target.name name src tgt

unfoldable pub drop_missing_view : Namespace → Namespace → String → View → Statement
drop_missing_view source target name view = when (not (has name target.views)) (
    add_op (
      if view.materialized
      then new_drop_materialized_view_op source.name name
      else new_drop_view_op source.name name))

unfoldable pub diff_views : Option Namespace → Namespace → Statement
diff_views none target =
    for_polled (sorted_names target.views) target.views
      (λ name view. add_op (create_view target.name view))
diff_views (some source) target = do
  for_polled (sorted_names target.views) target.views
      (λ name tgt. diff_target_view source target name tgt (get name source.views))
  for_polled (sorted_names source.views) source.views (drop_missing_view source target)
