-- ===== src/Diff/Columns.antt =====
-- internal/diff/diff_columns.go: the operations for a column that both tables have.
pub mod Reaches
use migra_go.Prelude.{
  String, Bool, true, false, not, ◌&&◌, ◌||◌, xor, Option, none, some, str_eq, if◌then◌else◌,
}
use migra_go.Model.Objects.{Column}
use migra_go.Diff.Context.{Statement, ◌>>◌, add_op, when}
use migra_go.Diff.Create.{
  new_alter_column_type_op, new_set_not_null_op, new_drop_not_null_op, new_drop_default_op,
  new_set_default_op, new_alter_column_collation_op, new_add_identity_op, new_set_identity_op,
  new_drop_identity_op,
}

unfoldable pub same_default : Option String → Option String → Bool
same_default none none = true
same_default none (some b) = false
same_default (some a) none = false
same_default (some a) (some b) = str_eq a b

module _ (schema table : String) (source target : Column) where
  unfoldable pub diff_type : Statement
  diff_type =
      when (not (str_eq source.data_type target.data_type)) (
        add_op
          (new_alter_column_type_op schema table source.name source.data_type target.data_type))

  unfoldable pub diff_nullable : Statement
  diff_nullable =
      if source.is_nullable && not target.is_nullable
      then add_op (new_set_not_null_op schema table source.name)
      else when (not source.is_nullable && target.is_nullable)
          (add_op (new_drop_not_null_op schema table source.name))

  abbrev pub set_or_drop_default : Option String → Statement
  set_or_drop_default none = add_op (new_drop_default_op schema table source.name)
  set_or_drop_default (some e) = add_op (new_set_default_op schema table source.name e)

  unfoldable pub diff_default : Statement
  diff_default =
      when (not (same_default source.default_expr target.default_expr))
        (set_or_drop_default target.default_expr)

  unfoldable pub diff_collation : Statement
  diff_collation = when (not (str_eq source.collation target.collation)) (
      let data_type = if str_eq target.data_type "" then source.data_type else target.data_type in
      add_op (
        new_alter_column_collation_op schema table source.name data_type source.collation
          target.collation))

  unfoldable pub diff_identity : Statement
  diff_identity =
      when
        (xor source.is_identity target.is_identity
          || not (str_eq source.identity_kind target.identity_kind))
        (if not source.is_identity && target.is_identity
          then add_op (new_add_identity_op schema table source.name target.identity_kind)
          else if source.is_identity && target.is_identity
          then add_op (new_set_identity_op schema table source.name target.identity_kind)
          else when (source.is_identity && not target.is_identity)
              (add_op (new_drop_identity_op schema table source.name)))

  unfoldable pub diff_column : Statement
  diff_column = do diff_type; diff_nullable; diff_default; diff_collation; diff_identity
