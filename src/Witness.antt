-- ===== src/Witness.antt =====
-- The theorems at concrete inputs.
mod Primitives
mod Codec
mod Engine
mod Policy
mod Crypto
mod Exchange
mod Handshake
