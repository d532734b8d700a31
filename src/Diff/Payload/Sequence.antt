-- ===== src/Diff/Payload/Sequence.antt =====
-- internal/diff/operation_sequence.go: the operation structs below their base, with `IsDestructive`.
-- None of them overrides `DependsOn`.
use migra_go.Prelude.{String, Bool, true, false}
use migra_go.Model.Objects.{Sequence}

pub data SequenceOp : Type 0 where
  create_sequence_op : (schema : String) → (seq : Sequence) → SequenceOp
  drop_sequence_op : (schema : String) → (name : String) → SequenceOp
  alter_sequence_op : (schema : String) → (from : Sequence) → (to : Sequence) → SequenceOp

unfoldable pub sequence_is_destructive : SequenceOp → Bool
sequence_is_destructive (create_sequence_op _ _) = false
sequence_is_destructive (drop_sequence_op _ _) = true
sequence_is_destructive (alter_sequence_op _ _ _) = false
