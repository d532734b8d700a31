-- ===== src/Diff.antt =====
-- internal/diff: the difference of two schemas as a list of operations.
pub mod Payload
pub mod Operation
pub mod Create
pub mod Context
pub mod Columns
pub mod Names
pub mod Tables
pub mod Objects
pub mod Schemas
pub mod Render
pub mod Unchanged
pub mod Public
