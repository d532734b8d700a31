-- ===== src/Parser.antt =====
-- internal/parser: the schema that statements build up, with its shared column objects, and the
-- mutations that change it.
pub mod Outcome
pub mod Mutation
pub mod Apply
pub mod Applier
pub mod Parse
pub mod Effects
pub mod Sound
