-- ===== src/Server/Ports.antt =====
-- What server.rs calls: the methods of `Transport` it uses, and the policy `ServerAuthHandler` that
-- the embedding application provides.
use ssh_bench.Common.{ℕ, Bool, List, Bytes, Option}
use ssh_bench.Error.{Result}
use ssh_bench.Auth.Keys.{Ed25519, UserPublicKey}
pub use ssh_bench.Transport.Event.{Event, established, server_host_key, packet, disconnected}

pub record TransportPort (d : Ed25519) : Type 1 where
  pub Transport : Type 0
  pub receive : Bytes → Transport → Result (Unit {0}) × Transport
  pub poll_event : Transport → Option (Event d) × Transport
  pub send_packet : Bytes → Transport → Result (Unit {0}) × Transport
  pub send_chaff_burst : Transport → Result (Unit {0}) × Transport
  pub disconnect : ℕ → Bytes → Transport → Transport
  pub session_id : Transport → Option Bytes
  pub max_chunk : Transport → Option ℕ

pub record AuthPort (d : Ed25519) : Type 1 where
  pub Handler : Type 0
  pub banner : Handler → Option Bytes × Handler
  pub allow_none : Bytes → Handler → Bool × Handler
  pub verify_password : Bytes → Bytes → Handler → Bool × Handler
  pub is_authorized_key : Bytes → UserPublicKey d → Handler → Bool × Handler
  pub methods : Handler → List Bytes
  pub max_auth_attempts : Handler → ℕ
  pub max_auth_requests : Handler → ℕ

pub record Ports : Type 1 where
  pub ed25519 : Ed25519
  pub transport : TransportPort ed25519
  pub auth : AuthPort ed25519
