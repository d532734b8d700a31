-- ===== src/Diff/Objects/Sequences.antt =====
-- internal/diff/differ.go: sequences.
use migra_go.Prelude.{Bool, not, ◌&&◌, xor, String, Option, none, some, get, has, str_eq}
use migra_go.Prelude.Int.{int_eq}
use migra_go.Model.Objects.{Sequence, Namespace}
use migra_go.Diff.Context.{Statement, ◌>>◌, add_op, when}
use migra_go.Diff.Create.{new_create_sequence_op, new_drop_sequence_op, new_alter_sequence_op}
use migra_go.Diff.Names.{sorted_names, for_polled}

unfoldable pub same_sequence_content : Sequence → Sequence → Bool
same_sequence_content a b =
    str_eq a.data_type b.data_type
    && int_eq a.start_value b.start_value
    && int_eq a.increment_by b.increment_by
    && int_eq a.min_value b.min_value
    && int_eq a.max_value b.max_value
    && int_eq a.cache_size b.cache_size
    && not (xor a.cycle b.cycle)
    && str_eq a.owned_by_table b.owned_by_table
    && str_eq a.owned_by_column b.owned_by_column

unfoldable pub diff_sequence : String → Sequence → Option Sequence → Statement
diff_sequence schema tgt none = add_op (new_create_sequence_op schema tgt)
diff_sequence schema tgt (some src) =
    when (not (same_sequence_content src tgt)) (add_op (new_alter_sequence_op schema src tgt))

unfoldable pub diff_sequences : Option Namespace → Namespace → Statement
diff_sequences none target =
    for_polled (sorted_names target.sequences) target.sequences
      (λ name seq. add_op (new_create_sequence_op target.name seq))
diff_sequences (some source) target = do
  for_polled (sorted_names target.sequences) target.sequences
      (λ name seq. diff_sequence target.name seq (get name source.sequences))
  for_polled (sorted_names source.sequences) source.sequences (λ name seq.
      when (not (has name target.sequences)) (add_op (new_drop_sequence_op source.name name)))
