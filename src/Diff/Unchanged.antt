-- ===== src/Diff/Unchanged.antt =====
-- internal/diff: what comparing a schema with itself leaves.
pub mod Names
pub mod Tables
pub mod Objects
pub mod Schemas
