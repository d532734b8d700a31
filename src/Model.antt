-- ===== src/Model.antt =====
-- internal/model: the schema model.
pub mod ObjectKey
pub mod Objects
pub mod Columns
pub mod Store
pub mod Clone
