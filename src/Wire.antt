-- ===== src/Wire.antt =====
-- crates/ssh-transport/src/wire.rs: the SSH data types of RFC 4251, read and written.
pub mod BigEndian
pub mod Reader
pub mod Writer
pub mod Bounds
pub mod Parsing
pub mod RoundTrip
pub mod Names
pub mod Mpint
pub mod Fields
