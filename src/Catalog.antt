-- ===== src/Catalog.antt =====
-- internal/catalog/catalog.go: the registered skills, by internal key, by definition and by handle.
pub mod State
pub mod Names
pub mod Ops
pub mod Body
pub mod Entries
pub mod Handles
pub mod Changes
pub mod Lifecycle
pub mod Loading
pub mod Cache
pub mod Interface
pub mod Filters
pub mod Listing
