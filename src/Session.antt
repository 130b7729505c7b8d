-- ===== src/Session.antt =====
-- src/session.rs: the state of a session, the events it records and the record it ends in.
-- Identifiers and times are numbers: a uuid, a UTC time and an instant in nanoseconds.
pub mod State
pub mod Capture
pub mod Privacy
mod Tests
pub mod Bounds
