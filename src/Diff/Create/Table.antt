-- ===== src/Diff/Create/Table.antt =====
-- internal/diff/operation_table.go: the constructors of the operations.
use migra_go.Prelude.{String}
use migra_go.Model.ObjectKey.{new_object_key, kind_table}
use migra_go.Model.Objects.{Table}
use migra_go.Diff.Payload.{add_table_op, drop_table_op}
use migra_go.Diff.Operation.{Kind, Operation, table_op}

unfoldable pub new_add_table_op : (schema : String) → (name : String) → (table : Table) → Operation
new_add_table_op schema name table = record {
  base = record { kind = Kind.add_table; object_key = new_object_key schema name kind_table };
  payload = table_op (add_table_op table);
}

unfoldable pub new_drop_table_op : (schema : String) → (name : String) → Operation
new_drop_table_op schema name = record {
  base = record { kind = Kind.drop_table; object_key = new_object_key schema name kind_table };
  payload = table_op (drop_table_op schema name);
}
