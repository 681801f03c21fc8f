-- ===== src/Metadata/Snapshot/Laws.antt =====
-- The snapshot against its abstract view: a function from names to tables, without cache, entries
-- and target.
pub mod Spec
pub mod Refinement
pub mod Accepted
pub mod Copied
pub mod Accepting
pub mod Applying
pub mod Effects
