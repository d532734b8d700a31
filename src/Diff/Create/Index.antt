-- ===== src/Diff/Create/Index.antt =====
-- internal/diff/operation_index.go: the constructors of the operations.
use migra_go.Prelude.{String}
use migra_go.Model.ObjectKey.{new_object_key, kind_index}
use migra_go.Model.Objects.{Index}
use migra_go.Diff.Payload.{create_index_op, drop_index_op}
use migra_go.Diff.Operation.{Kind, Operation, index_op}

unfoldable pub new_create_index_op : (schema : String) → (index : Index) → Operation
new_create_index_op schema index = record {
  base = record { kind = Kind.add_index; object_key = new_object_key schema index.name kind_index };
  payload = index_op (create_index_op schema index);
}

unfoldable pub new_drop_index_op : (schema : String) → (name : String) → Operation
new_drop_index_op schema name = record {
  base = record { kind = Kind.drop_index; object_key = new_object_key schema name kind_index };
  payload = index_op (drop_index_op schema name);
}
