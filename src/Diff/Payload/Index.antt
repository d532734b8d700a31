-- ===== src/Diff/Payload/Index.antt =====
-- internal/diff/operation_index.go: the operation structs below their base, with `IsDestructive`
-- and `DependsOn`.
use migra_go.Prelude.{String, Bool, true, false, List, [], ◌∷◌}
use migra_go.Model.ObjectKey.{ObjectKey, new_object_key, kind_table}
use migra_go.Model.Objects.{Index}

pub data IndexOp : Type 0 where
  create_index_op : (schema : String) → (index : Index) → IndexOp
  drop_index_op : (schema : String) → (name : String) → IndexOp

unfoldable pub index_is_destructive : IndexOp → Bool
index_is_destructive (create_index_op _ _) = false
index_is_destructive (drop_index_op _ _) = true

unfoldable pub index_depends_on : IndexOp → List ObjectKey
index_depends_on (create_index_op schema index) = new_object_key schema index.table kind_table ∷ []
index_depends_on (drop_index_op _ _) = []
