-- ===== src/Tests.antt =====
-- Runs of the program at small inputs, and the theorems at inputs where their conditions hold.
pub mod Data
pub mod Sessions
pub mod Stores
pub mod Catalogs
pub mod Rendering
pub mod Prompts
pub mod Runtimes
pub mod Documents
pub mod Files
pub mod Histories
