-- ===== src/FsProvider.antt =====
-- fsskillprovider/provider.go: skills in directories of the file system.
pub mod System
pub mod Config
pub mod Roots
pub mod Resources
pub mod Calls
pub mod Indexed
pub mod Bounds
pub mod Scripts
