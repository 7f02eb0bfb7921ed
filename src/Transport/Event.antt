-- ===== src/Transport/Event.antt =====
-- `transport::Event`: what the transport tells its driver.
use ssh_bench.Common.{ℕ, Bytes}
use ssh_bench.Auth.Keys.{Ed25519}
use ssh_bench.Hostkey.{HostPublicKey}

pub data Event (d : Ed25519) : Type 0 where
  established : Event d
  server_host_key : HostPublicKey d → Event d
  packet : Bytes → Event d
  disconnected : ℕ → Bytes → Event d
