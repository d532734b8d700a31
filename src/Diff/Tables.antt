-- ===== src/Diff/Tables.antt =====
-- internal/diff/diff_tables.go: the tables of two namespaces.
pub mod Constraints
mod Indexes
mod Columns
unfoldable pub use Constraints.{
  same_constraint_content, same_constraint_semantics, changed_constraints, diff_table_constraints,
}
pub use Indexes.{same_elem}
unfoldable pub use Indexes.{same_elements, same_index_content, diff_table_indexes}
pub use Constraints.{differs, is_changed}
pub use Columns.{Renamed, emit_rename}
unfoldable pub use Columns.{
  column_signature, is_column_rename_candidate, index_signatures, flag, rename_target, mark_renamed,
  rename_columns, add_drop_compare, diff_table_columns,
}
use migra_go.Prelude.{String, Option, none, some, get}
use migra_go.Model.Objects.{Table, Namespace}
use migra_go.Diff.Context.{Statement, ◌>>◌, add_op, call, with_entry}
use migra_go.Diff.Create.{new_add_table_op, new_drop_table_op}
use migra_go.Diff.Names.{only_in, in_both, sorted_names, for_polled, for_names}

unfoldable pub diff_both_tables : Namespace → Namespace → Statement
diff_both_tables source target =
    for_names (in_both target.tables source.tables) target.tables (λ name tgt.
      with_entry (get name source.tables) (λ src. do
        call (diff_table_columns source.name src tgt)
        call (diff_table_indexes source.name src tgt)
        call (diff_table_constraints source.name src tgt)))

unfoldable pub diff_tables : Option Namespace → Namespace → Statement
diff_tables none target =
    for_polled (sorted_names target.tables) target.tables
      (λ name table. add_op (new_add_table_op target.name name table))
diff_tables (some source) target = do
  for_polled (only_in target.tables source.tables) target.tables
      (λ name table. add_op (new_add_table_op target.name name table))
  for_polled (only_in source.tables target.tables) source.tables
      (λ name table. add_op (new_drop_table_op source.name name))
  diff_both_tables source target
