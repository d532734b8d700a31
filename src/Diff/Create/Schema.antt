-- ===== src/Diff/Create/Schema.antt =====
-- internal/diff/operation_schema.go: the constructors of the operations.
use migra_go.Prelude.{String}
use migra_go.Model.ObjectKey.{new_object_key, kind_schema}
use migra_go.Diff.Payload.{create_schema_op, drop_schema_op}
use migra_go.Diff.Operation.{Kind, Operation, schema_op}

unfoldable pub new_create_schema_op : (schema : String) → Operation
new_create_schema_op schema = record {
  base = record { kind = Kind.create_schema; object_key = new_object_key schema "" kind_schema };
  payload = schema_op (create_schema_op schema);
}

unfoldable pub new_drop_schema_op : (schema : String) → Operation
new_drop_schema_op schema = record {
  base = record { kind = Kind.drop_schema; object_key = new_object_key schema "" kind_schema };
  payload = schema_op (drop_schema_op schema);
}
