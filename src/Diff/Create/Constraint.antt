-- ===== src/Diff/Create/Constraint.antt =====
-- internal/diff/operation_constraint.go: the constructors of the operations.
use migra_go.Prelude.{String, dotted}
use migra_go.Model.ObjectKey.{new_object_key, kind_constraint}
use migra_go.Model.Objects.{Constraint}
use migra_go.Diff.Payload.{add_constraint_op, drop_constraint_op}
use migra_go.Diff.Operation.{Kind, Operation, constraint_op}

unfoldable pub new_add_constraint_op :
    (schema : String) → (table : String) → (c : Constraint) → Operation
new_add_constraint_op schema table c = record {
  base = record {
    kind = Kind.add_constraint;
    object_key = new_object_key schema (dotted table c.name) kind_constraint;
  };
  payload = constraint_op (add_constraint_op schema table c);
}

unfoldable pub new_drop_constraint_op :
    (schema : String) → (table : String) → (name : String) → Operation
new_drop_constraint_op schema table name = record {
  base = record {
    kind = Kind.drop_constraint;
    object_key = new_object_key schema (dotted table name) kind_constraint;
  };
  payload = constraint_op (drop_constraint_op schema table name);
}
