-- ===== src/Auth.antt =====
-- crates/ssh-transport/src/auth.rs: the messages of user authentication and user keys.
pub mod Keys
pub mod Messages
pub mod Request
pub mod RoundTrip
pub mod Signing
