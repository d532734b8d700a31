-- ===== src/Diff/Payload/Schema.antt =====
-- internal/diff/operation_schema.go: the operation structs below their base, with `IsDestructive`.
-- None of them overrides `DependsOn`.
use migra_go.Prelude.{String, Bool, true, false}

pub data SchemaOp : Type 0 where
  create_schema_op : (schema : String) → SchemaOp
  drop_schema_op : (schema : String) → SchemaOp

unfoldable pub schema_is_destructive : SchemaOp → Bool
schema_is_destructive (create_schema_op _) = false
schema_is_destructive (drop_schema_op _) = true
