-- ===== src/Server.antt =====
-- crates/ssh-transport/src/server.rs: user authentication and the connection protocol on the
-- server, over a transport and an authentication policy.
pub mod Ports
pub mod State
pub mod Preauth
pub mod Output
pub mod Requests
pub mod Fields
pub mod Channels
pub mod Pump
pub mod Frame
pub mod ConnectionFrame
pub mod PreauthFrame
pub mod Isolation
pub mod Grants
pub mod Authentication
pub mod Delivery
pub mod Attempts
