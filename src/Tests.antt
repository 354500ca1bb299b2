-- ===== src/Tests.antt =====
-- Runs of the model on concrete values, and the theorems at such values.
pub mod World
pub mod Media
pub mod Tiers
pub mod Aliases
pub mod Shelves
pub mod Windows
pub mod Names
pub mod Streams
pub mod Catalogs
pub mod Idle
pub mod Servers
pub mod Episodes
