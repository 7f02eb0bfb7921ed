-- ===== src/Lib.antt =====
-- A model of the SSH engine of this repository and proofs about it. The engine is the crate
-- crates/ssh-transport, which does no I/O: it is given received bytes and asked for bytes to send.
--
-- The parts, from the bytes up, and the files that model them:
--   * Common and its children: bytes, lists, comparisons and texts (a `str` is its UTF-8 bytes).
--   * Error: crates/ssh-transport/src/error.rs. `?` is the bind of `Result`.
--   * Msg: crates/ssh-transport/src/msg.rs.
--   * Wire: crates/ssh-transport/src/wire.rs. A `Reader` method is a function from the reader to
--     a value and the moved reader, or an error; a `Writer` method takes the writer to the next.
--     Reader and Writer hold the definitions; Parsing relates a method to the bytes it reads.
--   * Packet: crates/ssh-transport/src/packet.rs, packets before encryption.
--   * Version: crates/ssh-transport/src/version.rs, the identification lines.
--   * Algo: crates/ssh-transport/src/algo.rs. KexInit builds and parses `SSH_MSG_KEXINIT`,
--     Negotiate picks the algorithms.
--   * Connection: crates/ssh-transport/src/connection.rs. Messages builds the messages, Channel
--     is the state of a channel: its windows and its queue of output.
--   * Auth: crates/ssh-transport/src/auth.rs. Messages and Request build and parse the messages
--     of user authentication, Keys has user keys and signatures.
--   * Hostkey: crates/ssh-transport/src/hostkey.rs, blobs and signatures of host keys.
--   * Rng: the random generator that the engine is given.
--   * Kdf: crates/ssh-transport/src/kdf.rs, the exchange hash and the derivation of keys.
--   * Kex: crates/ssh-transport/src/kex.rs, and below it MlKem and Sntrup for mlkem.rs and sntrup.rs
--     beside it. Method is what the three methods have in common.
--   * Cipher: crates/ssh-transport/src/cipher.rs, sealing and opening of packets.
--   * Compress: crates/ssh-transport/src/compress.rs, the delayed compression.
--   * Transport: crates/ssh-transport/src/transport.rs. State is `Transport`; Send has
--     `write_packet`, `send_packet`, `initiate_rekey` and the like, Messages and Staging the parts
--     of a key exchange that do not change the state, KeyExchange its handlers
--     (`on_peer_kexinit`, `on_ecdh_init`, `on_ecdh_reply`, `on_newkeys`, ...), Receive
--     `handle_packet`, `drive` and `on_input`. Epochs is an abstract machine of sequence numbers,
--     keys and phases; the files named for refinement show that the methods move by its steps,
--     EpochLaws, InboundLaws and Guarantees what follows. Progress is about the end of the loop,
--     Handshake, Completion and Agreement about two transports that talk to each other.
--   * Limits: crates/ssh-io/src/limits.rs, the caps on concurrent connections.
--   * Server: crates/ssh-transport/src/server.rs. State is `ServerConnection`; Preauth has the
--     handlers before authentication (`handle_preauth`, `handle_userauth`, ...), Requests and
--     Channels those after it (`handle_connection`, ...), Output the driver's calls
--     (`channel_stdout`, `flush_channel`, ...), Pump the loop over the transport's events. A
--     handler is an Action: a function of the state that returns its `Result` and the new state,
--     which an error does not undo (file Action). Ports has the records that stand for what the
--     handlers call: the methods of `Transport`, and the policy `ServerAuthHandler` of the
--     application. The other files below Server hold proofs.
--   * Witness: the theorems at concrete inputs.
-- Server uses Auth for the messages and keys and Connection for the channel, these use Wire, and
-- Algo, Packet, Version, Kdf, Kex, Cipher and Compress stand below Transport.
--
-- Numbers are natural numbers; where the source computes in u32 or casts, the remainder or the
-- saturation is written out. A buffer is taken to be shorter than 2 ^ 64 bytes where a sum of
-- positions could wrap.
--
-- Loops: `padding_len` grows the padding at most twice, and two rounds are given; the loop of
-- `parse_peer_id` moves behind a line end in each round and has one round for each byte and one
-- more; `drain_output` takes a byte or an item off the queue in each round and has as many as
-- there are, and one more. `derive_key_with` has a round for each byte asked for, as a digest is not
-- empty; `drive` has a round for each byte it holds and two more. The rounds of `decompress` are
-- bounded by the input and the limit on the output, those of `compress` by the input with a margin,
-- for a stream whose output is not much longer than its input. The loop of `pump` runs for a number
-- of events that is an argument.
--
-- Parameters: SHAKE-128 (the crate `sha3`) and the random seed in Algo, `ed25519-dalek` in Auth,
-- Hostkey and Server with what its documentation says in `IsEd25519`; the generator (Rng), SHA-2
-- (Kdf), X25519, ML-KEM-768 and sntrup761 (Kex), ChaCha20, Poly1305, AES-256-GCM (Cipher) and the
-- streams of `flate2` (Compress), each a record with its documented behaviour in a record beside
-- it. Transport takes them together as the record `Crates`.
--
-- Not modelled: the OpenSSH file format of host keys; the client of
-- crates/ssh-transport/src/client.rs; the drivers, runners and policies of crates/ssh-io, among them
-- `RateLimiter`, which computes in floating point; crates/ssh-tui and the two programs. Server knows
-- the transport by the record in Ports. The scrubbing of secrets in memory, the time that a
-- comparison takes and the printing under SSH_DEBUG have no counterpart here.
pub mod Common
pub mod Error
pub mod Action
pub mod Msg
pub mod Wire
pub mod Packet
pub mod Version
pub mod Connection
pub mod Algo
pub mod Auth
pub mod Hostkey
pub mod Rng
pub mod Kdf
pub mod Kex
pub mod Cipher
pub mod Compress
pub mod Transport
pub mod Limits
pub mod Server
pub mod Witness
