-- ===== src/Diff/Payload/View.antt =====
-- internal/diff/operation_view.go: the operation structs below their base, with `IsDestructive`.
-- None of them overrides `DependsOn`.
use migra_go.Prelude.{String, Bool, true, false, not}
use migra_go.Model.Objects.{View}

pub data ViewOp : Type 0 where
  create_view_op : (schema : String) → (view : View) → ViewOp
  drop_view_op : (schema : String) → (name : String) → (is_recreate : Bool) → ViewOp
  replace_view_op : (schema : String) → (view : View) → ViewOp
  create_materialized_view_op : (schema : String) → (view : View) → ViewOp
  drop_materialized_view_op : (schema : String) → (name : String) → ViewOp

unfoldable pub view_is_destructive : ViewOp → Bool
view_is_destructive (create_view_op _ _) = false
view_is_destructive (drop_view_op _ _ is_recreate) = not is_recreate
view_is_destructive (replace_view_op _ _) = false
view_is_destructive (create_materialized_view_op _ _) = false
view_is_destructive (drop_materialized_view_op _ _) = true
