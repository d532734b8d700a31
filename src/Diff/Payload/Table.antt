-- ===== src/Diff/Payload/Table.antt =====
-- internal/diff/operation_table.go: the operation structs below their base, with `IsDestructive`
-- and `DependsOn`.
use migra_go.Prelude.{
  String, Bool, true, false, List, [], ◌∷◌, Map, ◌&&◌, not, if◌then◌else◌, str_eq,
}
use migra_go.Model.ObjectKey.{ObjectKey, new_object_key, kind_table}
use migra_go.Model.Objects.{Table, Constraint}

pub data TableOp : Type 0 where
  add_table_op : (table : Table) → TableOp
  drop_table_op : (schema : String) → (name : String) → TableOp

unfoldable pub table_is_destructive : TableOp → Bool
table_is_destructive (add_table_op _) = false
table_is_destructive (drop_table_op _ _) = true

-- A foreign key whose referenced table is named.
abbrev is_foreign : Constraint → Bool
is_foreign c = str_eq c.type "foreign_key" && not (str_eq c.ref_table "")

foreign_tables : Map Constraint → List ObjectKey
foreign_tables [] = []
foreign_tables ((_, c) ∷ cs) =
    let rest = foreign_tables cs in
    if is_foreign c then new_object_key c.ref_schema c.ref_table kind_table ∷ rest else rest

unfoldable pub table_depends_on : TableOp → List ObjectKey
unfolding foreign_tables
table_depends_on (add_table_op table) = foreign_tables table.constraints
table_depends_on (drop_table_op _ _) = []
