-- ===== src/Prompt.antt =====
-- internal/catalog/promptxml.go: the texts that list skills for a language model.
pub mod Texts
pub mod Lines
pub mod Bodies
