-- ===== src/Artifact.antt =====
-- internal/catalog/artifact.go: rendering a skill body.
pub mod Inserts
pub mod Results
pub mod Rendering
pub mod Body
pub mod Insert
pub mod Names
pub mod Placeholders
