-- ===== src/Diff/Create/Extension.antt =====
-- internal/diff/operation_extension.go: the constructors of the operations.
use migra_go.Prelude.{String}
use migra_go.Model.ObjectKey.{new_object_key, kind_extension}
use migra_go.Model.Objects.{Extension}
use migra_go.Diff.Payload.{create_extension_op, drop_extension_op, alter_extension_update_op}
use migra_go.Diff.Operation.{Kind, Operation, extension_op}

unfoldable pub new_create_extension_op : (schema : String) → (ext : Extension) → Operation
new_create_extension_op schema ext = record {
  base = record {
    kind = Kind.create_extension;
    object_key = new_object_key schema ext.name kind_extension;
  };
  payload = extension_op (create_extension_op schema ext);
}

unfoldable pub new_drop_extension_op : (schema : String) → (name : String) → Operation
new_drop_extension_op schema name = record {
  base = record {
    kind = Kind.drop_extension;
    object_key = new_object_key schema name kind_extension;
  };
  payload = extension_op (drop_extension_op schema name);
}

unfoldable pub new_alter_extension_update_op : (schema : String) → (ext : Extension) → Operation
new_alter_extension_update_op schema ext = record {
  base = record {
    kind = Kind.alter_extension_update;
    object_key = new_object_key schema ext.name kind_extension;
  };
  payload = extension_op (alter_extension_update_op schema ext);
}
