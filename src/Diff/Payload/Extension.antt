-- ===== src/Diff/Payload/Extension.antt =====
-- internal/diff/operation_extension.go: the operation structs below their base, with `IsDestructive`.
-- None of them overrides `DependsOn`.
use migra_go.Prelude.{String, Bool, true, false}
use migra_go.Model.Objects.{Extension}

pub data ExtensionOp : Type 0 where
  create_extension_op : (schema : String) → (extension : Extension) → ExtensionOp
  drop_extension_op : (schema : String) → (name : String) → ExtensionOp
  alter_extension_update_op : (schema : String) → (extension : Extension) → ExtensionOp

unfoldable pub extension_is_destructive : ExtensionOp → Bool
extension_is_destructive (create_extension_op _ _) = false
extension_is_destructive (drop_extension_op _ _) = true
extension_is_destructive (alter_extension_update_op _ _) = false
