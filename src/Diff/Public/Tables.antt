-- ===== src/Diff/Public/Tables.antt =====
-- Tables: no operation on them drops a schema.

use migra_go.Prelude.{String, not, ◌&&◌, Option, none, some, List, [], ◌∷◌, Map, get}
use migra_go.Model.Objects.{Column, Table, Namespace}
use migra_go.Diff.Context.{Statement}
use migra_go.Diff.Context.Keeps.{
  Keeps-then, Keeps-skip, Keeps-call, Keeps-when, Keeps-for_each, Keeps-with_entry,
}
use migra_go.Diff.Create.{
  new_add_column_op, new_alter_column_type_op, new_set_not_null_op, new_drop_not_null_op,
  new_drop_column_op, new_set_default_op, new_drop_default_op, new_set_identity_op,
  new_drop_identity_op, new_add_identity_op, new_alter_column_collation_op, new_rename_column_op,
  new_add_constraint_op, new_drop_constraint_op, new_create_index_op, new_drop_index_op,
  new_add_table_op, new_drop_table_op,
}
use migra_go.Diff.Columns.{
  diff_type, diff_nullable, set_or_drop_default, diff_default, diff_collation, diff_identity,
  diff_column,
}
use migra_go.Diff.Tables.{
  diff_table_constraints, diff_table_indexes, Renamed, rename_target, mark_renamed, emit_rename,
  rename_columns, add_drop_compare, diff_table_columns, diff_both_tables, diff_tables,
}
use migra_go.Diff.Public.{IsSafe, IsSafe-add, IsSafe-check, IsSafe-if, IsSafe-names, IsSafe-polled}

IsSafe-default :
    (schema table : String) (source target : Column) (d : Option String)
    → IsSafe (set_or_drop_default schema table source target d)
unfolding new_drop_default_op new_set_default_op
IsSafe-default schema table source target none = IsSafe-add _ tt
IsSafe-default schema table source target (some e) = IsSafe-add _ tt

IsSafe-identity :
    (schema table : String) (source target : Column)
    → IsSafe (diff_identity schema table source target)
unfolding diff_identity new_add_identity_op new_set_identity_op new_drop_identity_op
IsSafe-identity schema table source target = Keeps-when _ (λ _.
    IsSafe-if (not source.is_identity && target.is_identity) (IsSafe-add _ tt) (
      IsSafe-if (source.is_identity && target.is_identity) (IsSafe-add _ tt)
        (Keeps-when _ (λ _. IsSafe-add _ tt))))

IsSafe-column :
    (schema table : String) (source target : Column)
    → IsSafe (diff_column schema table source target)
unfolding diff_column diff_type diff_nullable diff_default diff_collation new_alter_column_type_op
    new_set_not_null_op new_drop_not_null_op new_alter_column_collation_op
IsSafe-column schema table source target = Keeps-then (Keeps-when _ (λ _. IsSafe-add _ tt)) (
    Keeps-then
      (IsSafe-if (source.is_nullable && not target.is_nullable) (IsSafe-add _ tt)
        (Keeps-when _ (λ _. IsSafe-add _ tt)))
      (Keeps-then
        (Keeps-when _ (λ _. IsSafe-default schema table source target target.default_expr))
        (Keeps-then (Keeps-when _ (λ _. IsSafe-add _ tt))
          (IsSafe-identity schema table source target))))

module _ (schema : String) (source target : Table) where
  IsSafe-rename :
      (src : String) (tgt : Option String) → IsSafe (emit_rename schema source target src tgt)
  unfolding new_rename_column_op
  IsSafe-rename src none = Keeps-skip
  IsSafe-rename src (some tgt) = IsSafe-add _ tt

  IsSafe-rename_columns :
      (sigs : Map String) (names : List String) (r : Renamed) (rest : Renamed → Statement)
      → ((r' : Renamed) → IsSafe (rest r'))
      → IsSafe (rename_columns schema source target sigs names r rest)
  unfolding rename_columns
  IsSafe-rename_columns sigs [] r rest h = h r
  IsSafe-rename_columns sigs (src ∷ names) r rest h =
      let tgt = rename_target sigs r.renamed_target (get src source.column_by_name) in
      Keeps-then (Keeps-then IsSafe-check (IsSafe-rename src tgt))
        (IsSafe-rename_columns sigs names (mark_renamed src tgt r) rest h)

  IsSafe-add_drop_compare :
      (target_only : List String) (r : Renamed)
      → IsSafe (add_drop_compare schema source target target_only r)
  unfolding add_drop_compare new_add_column_op new_drop_column_op
  IsSafe-add_drop_compare target_only r =
      Keeps-then (IsSafe-names _ target.column_by_name (λ name col. IsSafe-add _ tt)) (
        Keeps-then (Keeps-for_each _ (λ name. IsSafe-add _ tt)) (
          Keeps-for_each target.columns (λ col. Keeps-then IsSafe-check (
            Keeps-with_entry (get col.name source.column_by_name)
              (λ src _. IsSafe-column schema target.name src col)))))

  IsSafe-columns : IsSafe (diff_table_columns schema source target)
  unfolding diff_table_columns
  IsSafe-columns = IsSafe-rename_columns _ _ _ _ (IsSafe-add_drop_compare _)

  IsSafe-indexes : IsSafe (diff_table_indexes schema source target)
  unfolding diff_table_indexes new_create_index_op new_drop_index_op
  IsSafe-indexes = Keeps-then (IsSafe-names _ target.indexes (λ name i. IsSafe-add _ tt)) (
      Keeps-then (IsSafe-names _ source.indexes (λ name i. IsSafe-add _ tt)) (
        IsSafe-names _ target.indexes (λ name tgt.
          Keeps-with_entry (get name source.indexes)
            (λ src _. Keeps-when _ (λ _. Keeps-then (IsSafe-add _ tt) (IsSafe-add _ tt))))))

  IsSafe-constraints : IsSafe (diff_table_constraints schema source target)
  unfolding diff_table_constraints new_add_constraint_op new_drop_constraint_op
  IsSafe-constraints = Keeps-then (IsSafe-names _ target.constraints (λ name c. IsSafe-add _ tt)) (
      Keeps-then
        (IsSafe-names _ target.constraints
          (λ name c. Keeps-then (IsSafe-add _ tt) (IsSafe-add _ tt)))
        (IsSafe-names _ source.constraints (λ name c. IsSafe-add _ tt)))

pub IsSafe-tables :
    (source : Option Namespace) (target : Namespace) → IsSafe (diff_tables source target)
unfolding diff_tables diff_both_tables new_add_table_op new_drop_table_op
IsSafe-tables none target = IsSafe-polled _ target.tables (λ name t. IsSafe-add _ tt)
IsSafe-tables (some source) target =
    Keeps-then (IsSafe-polled _ target.tables (λ name t. IsSafe-add _ tt)) (
      Keeps-then (IsSafe-polled _ source.tables (λ name t. IsSafe-add _ tt)) (
        IsSafe-names _ target.tables (λ name tgt.
          Keeps-with_entry (get name source.tables) (λ src _.
            Keeps-then (Keeps-call (IsSafe-columns source.name src tgt)) (
              Keeps-then (Keeps-call (IsSafe-indexes source.name src tgt))
                (Keeps-call (IsSafe-constraints source.name src tgt)))))))
