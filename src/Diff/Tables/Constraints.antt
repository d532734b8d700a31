-- ===== src/Diff/Tables/Constraints.antt =====
-- internal/diff/diff_tables.go: the constraints of a table that both namespaces have.
pub mod Same
use migra_go.Prelude.{
  String, Bool, true, false, not, ◌&&◌, List, [], Map, get, keep_if, keys, has, sort_strings,
  is_some, Option, none, some, str_eq, if◌then◌else◌,
}
use migra_go.Model.Objects.{Constraint, Table}
use migra_go.Diff.Context.{Statement, ◌>>◌, add_op}
use migra_go.Diff.Create.{new_add_constraint_op, new_drop_constraint_op}
use migra_go.Diff.Names.{only_in, for_names, same_string_slice}

-- The two comparisons, for constraints that are not nil.
unfoldable pub same_constraint_content : Constraint → Constraint → Bool
unfolding same_string_slice
same_constraint_content a b =
    str_eq a.type b.type
    && same_string_slice a.columns b.columns
    && str_eq a.ref_schema b.ref_schema
    && str_eq a.ref_table b.ref_table
    && same_string_slice a.ref_columns b.ref_columns
    && str_eq a.expression b.expression
    && str_eq a.on_delete b.on_delete
    && str_eq a.on_update b.on_update

abbrev pub same_reference : Constraint → Constraint → Bool
same_reference a b =
    str_eq a.ref_schema b.ref_schema
    && str_eq a.ref_table b.ref_table
    && same_string_slice a.ref_columns b.ref_columns
    && str_eq a.on_delete b.on_delete
    && str_eq a.on_update b.on_update

unfoldable pub same_constraint_semantics : Constraint → Constraint → Bool
same_constraint_semantics a b =
    str_eq a.type b.type
    && same_string_slice a.columns b.columns
    && (if str_eq a.type "foreign_key" then same_reference a b else true)
    && (if str_eq a.type "check" then str_eq a.expression b.expression else true)

-- Whether the loop over the target's constraints puts a name on the list of changes.
abbrev pub differs : Constraint → Option Constraint → Bool
differs t none = false
differs t (some s) = not (same_constraint_content s t) && not (same_constraint_semantics s t)

abbrev pub is_changed : Map Constraint → String → Option Constraint → Bool
is_changed source name none = false
is_changed source name (some t) = differs t (get name source)

unfoldable pub changed_constraints : Map Constraint → Map Constraint → List String
changed_constraints source target =
    sort_strings (keep_if (λ name. is_changed source name (get name target)) (keys target))

unfoldable pub diff_table_constraints : String → Table → Table → Statement
diff_table_constraints schema source target = do
  for_names (only_in target.constraints source.constraints) target.constraints
      (λ name c. add_op (new_add_constraint_op schema target.name c))
  for_names (changed_constraints source.constraints target.constraints) target.constraints
      (λ name c. do
        add_op (new_drop_constraint_op schema source.name name)
        add_op (new_add_constraint_op schema target.name c))
  for_names (only_in source.constraints target.constraints) source.constraints
      (λ name c. add_op (new_drop_constraint_op schema source.name name))
