-- ===== src/Document.antt =====
-- document.go: SKILL.md documents.
pub mod Limits
pub mod Lines
pub mod Values
pub mod Items
pub mod Checks
pub mod Parse
pub mod Write
pub mod Truncate
pub mod Bodies
pub mod Ends
pub mod Split
pub mod Kept
pub mod Tagged
pub mod Shown
pub mod Accepted
pub mod Written
pub mod Reread
pub mod RereadTags
pub mod Encoded
pub mod RoundTrip
