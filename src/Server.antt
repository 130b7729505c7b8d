-- ===== src/Server.antt =====
-- src/server.rs: admission of connections, the supervision of a session, and their counters.
pub mod Loop
pub mod Workers
pub mod Run
pub mod Binding
pub mod Admission
pub mod Endpoints
pub mod Management
pub mod Session
