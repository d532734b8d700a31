-- ===== src/Diff/Payload/Enum.antt =====
-- internal/diff/operation_enum.go: the operation structs below their base, with `IsDestructive`
-- and `DependsOn`.
use migra_go.Prelude.{String, Bool, true, false, List, [], ◌∷◌}
use migra_go.Model.ObjectKey.{ObjectKey, new_object_key, kind_type}
use migra_go.Model.Objects.{EnumType}

pub data EnumOp : Type 0 where
  add_enum_type_op : (schema : String) → (enum_type : EnumType) → EnumOp
  drop_enum_type_op : (schema : String) → (name : String) → EnumOp
  add_enum_label_op : (schema : String) → (type_name : String) → (label : String) → EnumOp

unfoldable pub enum_is_destructive : EnumOp → Bool
enum_is_destructive (add_enum_type_op _ _) = false
enum_is_destructive (drop_enum_type_op _ _) = true
enum_is_destructive (add_enum_label_op _ _ _) = false

unfoldable pub enum_depends_on : EnumOp → List ObjectKey
enum_depends_on (add_enum_type_op _ _) = []
enum_depends_on (drop_enum_type_op _ _) = []
enum_depends_on (add_enum_label_op schema type_name _) =
    new_object_key schema type_name kind_type ∷ []
