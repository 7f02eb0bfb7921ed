-- ===== src/Limits.antt =====
-- crates/ssh-io/src/limits.rs: the cap on concurrent connections.
pub mod Admission
pub mod Counting
pub mod Consistent
pub mod Caps
