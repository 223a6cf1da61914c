-- ===== src/Store.antt =====
-- internal/session/store.go: the sessions of a runtime, least recently used last.
pub mod State
pub mod Ops
pub mod Recent
pub mod Evict
pub mod Valid
pub mod Uses
pub mod Pruning
pub mod Create
