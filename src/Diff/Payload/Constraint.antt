-- ===== src/Diff/Payload/Constraint.antt =====
-- internal/diff/operation_constraint.go: the operation structs below their base, with `IsDestructive`
-- and `DependsOn`.
use migra_go.Prelude.{String, Bool, true, false, List, [], ◌∷◌, dotted}
use migra_go.Model.ObjectKey.{ObjectKey, new_object_key, kind_table, kind_constraint}
use migra_go.Model.Objects.{Constraint}

pub data ConstraintOp : Type 0 where
  add_constraint_op :
      (schema : String) → (table : String) → (constraint : Constraint) → ConstraintOp
  drop_constraint_op : (schema : String) → (table : String) → (name : String) → ConstraintOp

unfoldable pub constraint_is_destructive : ConstraintOp → Bool
constraint_is_destructive (add_constraint_op _ _ _) = false
constraint_is_destructive (drop_constraint_op _ _ _) = true

unfoldable pub constraint_depends_on : ConstraintOp → List ObjectKey
constraint_depends_on (add_constraint_op schema table constraint) =
    new_object_key schema table kind_table
    ∷ new_object_key schema (dotted table constraint.name) kind_constraint
    ∷ []
constraint_depends_on (drop_constraint_op _ _ _) = []
