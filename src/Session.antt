-- ===== src/Session.antt =====
-- internal/session/session.go and tools_impl.go: the state of a session and its operations.
-- The session's lock is not state: an operation under the lock is one function, and the stretches
-- where `ActivateKeys` holds no lock are arguments that say what the other goroutines did meanwhile.
pub mod State
pub mod Activate
pub mod Tools
pub mod Consistent
pub mod Commit
pub mod Follows
pub mod Linear
pub mod Success
pub mod Effects
pub mod Access
pub mod Kept
