-- ===== src/Connection.antt =====
-- crates/ssh-transport/src/connection.rs: the messages of the connection protocol and the
-- bookkeeping of a channel.
pub mod Messages
pub mod Channel
pub mod Output
pub mod Window
