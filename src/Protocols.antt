-- ===== src/Protocols.antt =====
-- src/protocols: the decoys. `Io` is the bounded I/O of mod.rs, on a stream that is a parameter; each
-- decoy is a module of its own, and `Dispatch` the `handle` that chooses among them.
pub mod Io
pub mod Raw
pub mod Ssh
pub mod Telnet
pub mod Http
pub mod Dispatch
pub mod Tests
