-- ===== src/Algo.antt =====
-- crates/ssh-transport/src/algo.rs: `SSH_MSG_KEXINIT` and the negotiation of algorithms.
pub mod Names
pub mod KexInit
pub mod Negotiate
pub mod RoundTrip
pub mod Choice
