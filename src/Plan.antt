-- ===== src/Plan.antt =====
-- internal/plan: the order in which operations are executed.
pub mod Result
pub mod Dag
pub mod Graph
pub mod Order
pub mod Stages
pub mod Topological
pub mod Permutation
