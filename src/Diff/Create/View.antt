-- ===== src/Diff/Create/View.antt =====
-- internal/diff/operation_view.go: the constructors of the operations.
use migra_go.Prelude.{String, false}
use migra_go.Model.ObjectKey.{new_object_key, kind_view}
use migra_go.Model.Objects.{View}
use migra_go.Diff.Payload.{
  create_view_op, drop_view_op, replace_view_op, create_materialized_view_op,
  drop_materialized_view_op,
}
use migra_go.Diff.Operation.{Kind, Operation, view_op}

unfoldable pub new_create_view_op : (schema : String) → (view : View) → Operation
new_create_view_op schema view = record {
  base = record { kind = Kind.create_view; object_key = new_object_key schema view.name kind_view };
  payload = view_op (create_view_op schema view);
}

unfoldable pub new_drop_view_op : (schema : String) → (name : String) → Operation
new_drop_view_op schema name = record {
  base = record { kind = Kind.drop_view; object_key = new_object_key schema name kind_view };
  payload = view_op (drop_view_op schema name false);
}

unfoldable pub new_replace_view_op : (schema : String) → (view : View) → Operation
new_replace_view_op schema view = record {
  base = record {
    kind = Kind.replace_view;
    object_key = new_object_key schema view.name kind_view;
  };
  payload = view_op (replace_view_op schema view);
}

unfoldable pub new_create_materialized_view_op : (schema : String) → (view : View) → Operation
new_create_materialized_view_op schema view = record {
  base = record {
    kind = Kind.create_materialized_view;
    object_key = new_object_key schema view.name kind_view;
  };
  payload = view_op (create_materialized_view_op schema view);
}

unfoldable pub new_drop_materialized_view_op : (schema : String) → (name : String) → Operation
new_drop_materialized_view_op schema name = record {
  base = record {
    kind = Kind.drop_materialized_view;
    object_key = new_object_key schema name kind_view;
  };
  payload = view_op (drop_materialized_view_op schema name);
}
