-- ===== src/Diff/Payload/Column.antt =====
-- internal/diff/operation_column.go and rename_column_op.go: the operation structs below their base, with `IsDestructive`
-- and `DependsOn`.
use migra_go.Prelude.{String, Bool, true, false, List, [], ◌∷◌}
use migra_go.Model.ObjectKey.{ObjectKey, new_object_key, kind_table}
use migra_go.Model.Objects.{Column}

pub data ColumnOp : Type 0 where
  add_column_op : (schema : String) → (table : String) → (column : Column) → ColumnOp
  alter_column_type_op :
      (schema : String)
      → (table : String) → (column : String) → (from_type : String) → (to_type : String)
      → (using_expr : String) → ColumnOp
  set_not_null_op : (schema : String) → (table : String) → (column : String) → ColumnOp
  drop_not_null_op : (schema : String) → (table : String) → (column : String) → ColumnOp
  drop_column_op : (schema : String) → (table : String) → (column : String) → ColumnOp
  set_default_op :
      (schema : String) → (table : String) → (column : String) → (default_expr : String) → ColumnOp
  drop_default_op : (schema : String) → (table : String) → (column : String) → ColumnOp
  set_identity_op :
      (schema : String) → (table : String) → (column : String) → (identity_kind : String) → ColumnOp
  drop_identity_op : (schema : String) → (table : String) → (column : String) → ColumnOp
  add_identity_op :
      (schema : String) → (table : String) → (column : String) → (identity_kind : String) → ColumnOp
  alter_column_collation_op :
      (schema : String)
      → (table : String) → (column : String) → (data_type : String) → (from_collation : String)
      → (to_collation : String) → ColumnOp
  rename_column_op :
      (schema : String) → (table : String) → (old_name : String) → (new_name : String) → ColumnOp

unfoldable pub column_is_destructive : ColumnOp → Bool
column_is_destructive (add_column_op _ _ _) = false
column_is_destructive (alter_column_type_op _ _ _ _ _ _) = true
column_is_destructive (set_not_null_op _ _ _) = false
column_is_destructive (drop_not_null_op _ _ _) = false
column_is_destructive (drop_column_op _ _ _) = true
column_is_destructive (set_default_op _ _ _ _) = false
column_is_destructive (drop_default_op _ _ _) = false
column_is_destructive (set_identity_op _ _ _ _) = false
column_is_destructive (drop_identity_op _ _ _) = true
column_is_destructive (add_identity_op _ _ _ _) = false
column_is_destructive (alter_column_collation_op _ _ _ _ _ _) = false
column_is_destructive (rename_column_op _ _ _ _) = false

unfoldable pub column_depends_on : ColumnOp → List ObjectKey
column_depends_on (add_column_op schema table _) = new_object_key schema table kind_table ∷ []
column_depends_on (alter_column_type_op schema table _ _ _ _) =
    new_object_key schema table kind_table ∷ []
column_depends_on (set_not_null_op schema table _) = new_object_key schema table kind_table ∷ []
column_depends_on (drop_not_null_op schema table _) = new_object_key schema table kind_table ∷ []
column_depends_on (drop_column_op schema table _) = new_object_key schema table kind_table ∷ []
column_depends_on (set_default_op schema table _ _) = new_object_key schema table kind_table ∷ []
column_depends_on (drop_default_op schema table _) = new_object_key schema table kind_table ∷ []
column_depends_on (set_identity_op schema table _ _) = new_object_key schema table kind_table ∷ []
column_depends_on (drop_identity_op schema table _) = new_object_key schema table kind_table ∷ []
column_depends_on (add_identity_op schema table _ _) = new_object_key schema table kind_table ∷ []
column_depends_on (alter_column_collation_op schema table _ _ _ _) =
    new_object_key schema table kind_table ∷ []
column_depends_on (rename_column_op schema table _ _) = new_object_key schema table kind_table ∷ []
