-- ===== src/Runtime.antt =====
-- runtime.go and skillprompt.go: the catalog and the store behind one interface.
pub mod State
pub mod Filters
pub mod Calls
pub mod Removal
pub mod ToolCalls
pub mod ToolsSound
pub mod Prompt
pub mod Sound
pub mod Kept
pub mod Histories
pub mod Sections
pub mod New
pub mod Providers
