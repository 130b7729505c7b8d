-- ===== src/Protocols/Http.antt =====
-- src/protocols/http.rs: one request, captured up to the end of its headers, and a fixed response.
pub mod Request
pub mod Response
pub mod Exchange
