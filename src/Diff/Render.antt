-- ===== src/Diff/Render.antt =====
-- internal/diff: `RenderString` of every operation, one child for each file.
mod Statement
mod Constraint
mod Table
mod Column
mod Index
mod Objects
pub mod Labels
unfoldable pub use Statement.{statement, if_exists_prefix}
unfoldable pub use Constraint.{
  render_constraint, render_constraint_definition, render_constraint_op,
}
unfoldable pub use Table.{render_table_op, column_definition}
unfoldable pub use Column.{render_column_op, column_suffix}
unfoldable pub use Index.{render_index_elem, render_index_op}
unfoldable pub use Objects.{
  render_enum_op, render_schema_op, render_view_op, render_sequence_op, render_extension_op,
}
use migra_go.Prelude.{String, Bool}
use migra_go.Diff.Operation.{
  Payload, table_op, column_op, constraint_op, index_op, enum_op, schema_op, view_op, sequence_op,
  extension_op, Operation,
}

-- The dispatch of the interface, and `ctx.UseIfExists()`.
unfoldable pub render_payload : Bool → Payload → String
unfolding render_table_op render_column_op render_constraint_op render_index_op render_enum_op
    render_schema_op render_view_op render_sequence_op render_extension_op
render_payload use_if_exists (table_op x) = render_table_op use_if_exists x
render_payload use_if_exists (column_op x) = render_column_op x
render_payload use_if_exists (constraint_op x) = render_constraint_op use_if_exists x
render_payload use_if_exists (index_op x) = render_index_op use_if_exists x
render_payload use_if_exists (enum_op x) = render_enum_op use_if_exists x
render_payload use_if_exists (schema_op x) = render_schema_op x
render_payload use_if_exists (view_op x) = render_view_op use_if_exists x
render_payload use_if_exists (sequence_op x) = render_sequence_op use_if_exists x
render_payload use_if_exists (extension_op x) = render_extension_op use_if_exists x

unfoldable pub render_string : Bool → Operation → String
unfolding render_payload
render_string use_if_exists op = render_payload use_if_exists op.payload
