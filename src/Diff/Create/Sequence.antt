-- ===== src/Diff/Create/Sequence.antt =====
-- internal/diff/operation_sequence.go: the constructors of the operations.
use migra_go.Prelude.{String}
use migra_go.Model.ObjectKey.{new_object_key, kind_sequence}
use migra_go.Model.Objects.{Sequence}
use migra_go.Diff.Payload.{create_sequence_op, drop_sequence_op, alter_sequence_op}
use migra_go.Diff.Operation.{Kind, Operation, sequence_op}

unfoldable pub new_create_sequence_op : (schema : String) → (seq : Sequence) → Operation
new_create_sequence_op schema seq = record {
  base = record {
    kind = Kind.create_sequence;
    object_key = new_object_key schema seq.name kind_sequence;
  };
  payload = sequence_op (create_sequence_op schema seq);
}

unfoldable pub new_drop_sequence_op : (schema : String) → (name : String) → Operation
new_drop_sequence_op schema name = record {
  base = record {
    kind = Kind.drop_sequence;
    object_key = new_object_key schema name kind_sequence;
  };
  payload = sequence_op (drop_sequence_op schema name);
}

unfoldable pub new_alter_sequence_op :
    (schema : String) → (from : Sequence) → (to : Sequence) → Operation
new_alter_sequence_op schema from to = record {
  base = record {
    kind = Kind.alter_sequence;
    object_key = new_object_key schema to.name kind_sequence;
  };
  payload = sequence_op (alter_sequence_op schema from to);
}
