-- ===== src/Protocols/Telnet.antt =====
-- src/protocols/telnet.rs: the decoder of negotiations, the reader of lines, the login dialogue.
pub mod Decoder
pub mod Line
pub mod Login
