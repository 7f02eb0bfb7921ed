-- ===== src/Transport.antt =====
-- crates/ssh-transport/src/transport.rs: the transport engine. The children hold the events, the
-- parameters, the state, sending, the key exchange and receiving, and what is proved of them.
pub mod Event
pub mod Policy
pub mod State
pub mod Messages
pub mod Staging
pub mod Send
pub mod KeyExchange
pub mod Receive
pub mod Epochs
pub mod Refinement
pub mod StagedKeys
pub mod KexRefinement
pub mod HandlerRefinement
pub mod ReceiveRefinement
pub mod Calls
pub mod EpochLaws
pub mod InboundLaws
pub mod Guarantees
pub mod Progress
pub mod MessageTrips
pub mod MirroredKeys
pub mod Handshake
pub mod Completion
pub mod Agreement
