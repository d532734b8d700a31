-- ===== src/Diff/Create/Enum.antt =====
-- internal/diff/operation_enum.go: the constructors of the operations.
use migra_go.Prelude.{String, dotted}
use migra_go.Model.ObjectKey.{new_object_key, kind_type}
use migra_go.Model.Objects.{EnumType}
use migra_go.Diff.Payload.{add_enum_type_op, drop_enum_type_op, add_enum_label_op}
use migra_go.Diff.Operation.{Kind, Operation, enum_op}

unfoldable pub new_add_enum_type_op : (schema : String) → (enum_type : EnumType) → Operation
new_add_enum_type_op schema enum_type = record {
  base = record {
    kind = Kind.add_enum_type;
    object_key = new_object_key schema enum_type.name kind_type;
  };
  payload = enum_op (add_enum_type_op schema enum_type);
}

unfoldable pub new_drop_enum_type_op : (schema : String) → (name : String) → Operation
new_drop_enum_type_op schema name = record {
  base = record { kind = Kind.drop_enum_type; object_key = new_object_key schema name kind_type };
  payload = enum_op (drop_enum_type_op schema name);
}

unfoldable pub new_add_enum_label_op :
    (schema : String) → (type_name : String) → (label : String) → Operation
new_add_enum_label_op schema type_name label = record {
  base = record {
    kind = Kind.add_enum_label;
    object_key = new_object_key schema (dotted type_name label) kind_type;
  };
  payload = enum_op (add_enum_label_op schema type_name label);
}
