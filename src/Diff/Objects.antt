-- ===== src/Diff/Objects.antt =====
-- internal/diff/differ.go: enum types, views, sequences and extensions of two namespaces.
pub mod Types
pub mod Views
mod Sequences
mod Extensions
pub use Types.{agree, drop}
unfoldable pub use Types.{add_type_op, is_enum_append, diff_enum_type, diff_types}
unfoldable pub use Views.{
  create_view, recreate_drop, diff_view, diff_target_view, drop_missing_view, diff_views,
}
unfoldable pub use Sequences.{same_sequence_content, diff_sequence, diff_sequences}
unfoldable pub use Extensions.{diff_extension, diff_extensions}
