-- ===== src/Diff/Create/Column.antt =====
-- internal/diff/operation_column.go and rename_column_op.go: the constructors of the operations.
use migra_go.Prelude.{String, dotted}
use migra_go.Model.ObjectKey.{new_object_key, kind_column}
use migra_go.Model.Objects.{Column}
use migra_go.Diff.Payload.{
  add_column_op, alter_column_type_op, set_not_null_op, drop_not_null_op, drop_column_op,
  set_default_op, drop_default_op, set_identity_op, drop_identity_op, add_identity_op,
  alter_column_collation_op, rename_column_op,
}
use migra_go.Diff.Operation.{Kind, Operation, column_op}

unfoldable pub new_add_column_op : (schema : String) → (table : String) → (col : Column) → Operation
new_add_column_op schema table col = record {
  base = record {
    kind = Kind.add_column;
    object_key = new_object_key schema (dotted table col.name) kind_column;
  };
  payload = column_op (add_column_op schema table col);
}

unfoldable pub new_alter_column_type_op :
    (schema : String)
    → (table : String) → (column : String) → (from_type : String) → (to_type : String) → Operation
new_alter_column_type_op schema table column from_type to_type = record {
  base = record {
    kind = Kind.alter_column_type;
    object_key = new_object_key schema (dotted table column) kind_column;
  };
  payload = column_op (alter_column_type_op schema table column from_type to_type "");
}

unfoldable pub new_set_not_null_op :
    (schema : String) → (table : String) → (column : String) → Operation
new_set_not_null_op schema table column = record {
  base = record {
    kind = Kind.set_not_null;
    object_key = new_object_key schema (dotted table column) kind_column;
  };
  payload = column_op (set_not_null_op schema table column);
}

unfoldable pub new_drop_not_null_op :
    (schema : String) → (table : String) → (column : String) → Operation
new_drop_not_null_op schema table column = record {
  base = record {
    kind = Kind.drop_not_null;
    object_key = new_object_key schema (dotted table column) kind_column;
  };
  payload = column_op (drop_not_null_op schema table column);
}

unfoldable pub new_drop_column_op :
    (schema : String) → (table : String) → (column : String) → Operation
new_drop_column_op schema table column = record {
  base = record {
    kind = Kind.drop_column;
    object_key = new_object_key schema (dotted table column) kind_column;
  };
  payload = column_op (drop_column_op schema table column);
}

unfoldable pub new_set_default_op :
    (schema : String) → (table : String) → (column : String) → (default_expr : String) → Operation
new_set_default_op schema table column default_expr = record {
  base = record {
    kind = Kind.set_default;
    object_key = new_object_key schema (dotted table column) kind_column;
  };
  payload = column_op (set_default_op schema table column default_expr);
}

unfoldable pub new_drop_default_op :
    (schema : String) → (table : String) → (column : String) → Operation
new_drop_default_op schema table column = record {
  base = record {
    kind = Kind.drop_default;
    object_key = new_object_key schema (dotted table column) kind_column;
  };
  payload = column_op (drop_default_op schema table column);
}

unfoldable pub new_set_identity_op :
    (schema : String) → (table : String) → (column : String) → (identity_kind : String) → Operation
new_set_identity_op schema table column identity_kind = record {
  base = record {
    kind = Kind.set_identity;
    object_key = new_object_key schema (dotted table column) kind_column;
  };
  payload = column_op (set_identity_op schema table column identity_kind);
}

unfoldable pub new_drop_identity_op :
    (schema : String) → (table : String) → (column : String) → Operation
new_drop_identity_op schema table column = record {
  base = record {
    kind = Kind.drop_identity;
    object_key = new_object_key schema (dotted table column) kind_column;
  };
  payload = column_op (drop_identity_op schema table column);
}

unfoldable pub new_add_identity_op :
    (schema : String) → (table : String) → (column : String) → (identity_kind : String) → Operation
new_add_identity_op schema table column identity_kind = record {
  base = record {
    kind = Kind.add_identity;
    object_key = new_object_key schema (dotted table column) kind_column;
  };
  payload = column_op (add_identity_op schema table column identity_kind);
}

unfoldable pub new_alter_column_collation_op :
    (schema : String)
    → (table : String) → (column : String) → (data_type : String) → (from_collation : String)
    → (to_collation : String) → Operation
new_alter_column_collation_op schema table column data_type from_collation to_collation = record {
  base = record {
    kind = Kind.alter_column_collation;
    object_key = new_object_key schema (dotted table column) kind_column;
  };
  payload =
      column_op
        (alter_column_collation_op schema table column data_type from_collation to_collation);
}

unfoldable pub new_rename_column_op :
    (schema : String) → (table : String) → (old_name : String) → (new_name : String) → Operation
new_rename_column_op schema table old_name new_name = record {
  base = record {
    kind = Kind.rename_column;
    object_key = new_object_key schema (dotted table old_name) kind_column;
  };
  payload = column_op (rename_column_op schema table old_name new_name);
}
