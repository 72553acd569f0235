-- ===== src/Filters.antt =====
-- internal/filters: which messages a run keeps.
pub mod Library
mod Tests
pub mod Context
pub mod Options
pub mod Parse
pub mod Validate
pub mod Predicates
pub mod Families
pub mod Compile
