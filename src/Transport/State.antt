-- ===== src/Transport/State.antt =====
-- The state of `Transport`, the parameters that it is built over, and the small methods.
-- The field `debug` only prints and is left out.
use ssh_bench.Common.{ℕ, Bool, List, [], ◌∷◌, ◌++◌, Bytes, Option, none, some}
use ssh_bench.Error.{ok}
use ssh_bench.Action.{Action}
use ssh_bench.Rng.{Rng}
use ssh_bench.Kdf.{Sha2}
use ssh_bench.Kex.{X25519, EcdhKeypair}
use ssh_bench.Kex.MlKem.{Mlkem768}
use ssh_bench.Kex.MlKem
use ssh_bench.Kex.Sntrup.{Sntrup761}
use ssh_bench.Kex.Sntrup
use ssh_bench.Cipher.{Primitives, Cipher}
use ssh_bench.Compress.{Flate2, Compressor, Decompressor}
use ssh_bench.Algo.KexInit.{KexInit}
use ssh_bench.Algo.Negotiate.{Negotiated}
use ssh_bench.Auth.Keys.{Ed25519}
use ssh_bench.Hostkey.{HostKey}
use ssh_bench.Transport.Event.{Event}
use ssh_bench.Transport.Policy.{Role, Phase, Obfuscation, is_established}

-- The crates below the engine, and the build feature `sntrup761`.
pub record Crates : Type 1 where
  pub rng : Rng
  pub sha2 : Sha2
  pub x25519 : X25519 rng
  pub mlkem768 : Mlkem768
  pub sntrup761 : Sntrup761
  pub with_sntrup761 : Bool
  pub primitives : Primitives
  pub flate2 : Flate2
  pub ed25519 : Ed25519

module _ (C : Crates) where
  pub record PendingKeys : Type 0 where
    pub out : Cipher
    pub inn : Cipher

  pub data KexEphemeral : Type 0 where
    classical : EcdhKeypair C.x25519 → KexEphemeral
    mlkem : MlKem.HybridClient C.sha2 C.x25519 C.mlkem768 → KexEphemeral
    sntrup : Sntrup.HybridClient C.sha2 C.x25519 C.sntrup761 → KexEphemeral

  pub record Transport : Type 0 where
    pub role : Role
    pub rng : C.rng.State
    pub phase : Phase
    pub rx : Bytes
    pub rx_pos : ℕ
    pub tx : Bytes
    pub tx_seq : ℕ
    pub rx_seq : ℕ
    pub cipher_out : Cipher
    pub cipher_in : Cipher
    pub comp_out : Compressor C.flate2
    pub comp_in : Decompressor C.flate2
    pub comp_out_name : Bytes
    pub comp_in_name : Bytes
    pub comp_active : Bool
    pub local_id : Bytes
    pub peer_id : Option Bytes
    pub local_kexinit : Bytes
    pub peer_kexinit : Option KexInit
    pub negotiated : Option Negotiated
    pub kex_eph : Option KexEphemeral
    pub pending : Option PendingKeys
    pub sent_newkeys : Bool
    pub recv_newkeys : Bool
    pub skip_guess : Bool
    pub strict_kex : Bool
    pub initial_kex_done : Bool
    pub rekeying : Bool
    pub kexinit_sent : Bool
    pub tx_app_queue : List Bytes
    pub bytes_since_rekey : ℕ
    pub tx_packets_since_rekey : ℕ
    pub rx_bytes_since_rekey : ℕ
    pub rx_packets_since_rekey : ℕ
    pub rekey_bytes_limit : ℕ
    pub rekey_packets_limit : ℕ
    pub consecutive_peer_rekeys : ℕ
    pub max_consecutive_peer_rekeys : ℕ
    pub session_id : Option Bytes
    pub host_key : Option (HostKey C.ed25519)
    pub events : List (Event C.ed25519)
    pub offered_ciphers : Option (List Bytes)
    pub offered_compression : Option (List Bytes)
    pub closing : Bool
    pub obfuscation : Obfuscation

  -- `is_established`
  unfoldable pub up : Transport → Bool
  up t = is_established t.phase

  unfoldable pub take_output : Transport → Bytes × Transport
  take_output t = (t.tx, record t { tx = [] })

  unfoldable pub clear_output : Transport → Transport
  clear_output t = record t { tx = [] }

  unfoldable pub pop_front :
      List (Event C.ed25519) → Transport → Option (Event C.ed25519) × Transport
  pop_front [] t = (none, t)
  pop_front (e ∷ es) t = (some e, record t { events = es })

  unfoldable pub poll_event : Transport → Option (Event C.ed25519) × Transport
  unfolding pop_front
  poll_event t = pop_front t.events t

  unfoldable pub emit : Event C.ed25519 → Action Transport (Unit {0})
  emit e t = (ok tt, record t { events = t.events ++ (e ∷ []) })

  unfoldable pub set_obfuscation : Obfuscation → Transport → Transport
  set_obfuscation o t = record t { obfuscation = o }

  unfoldable pub set_rekey_limits : ℕ → ℕ → Transport → Transport
  set_rekey_limits bytes packets t = record t {
    rekey_bytes_limit = bytes;
    rekey_packets_limit = packets;
  }

  unfoldable pub set_max_consecutive_peer_rekeys : ℕ → Transport → Transport
  set_max_consecutive_peer_rekeys n t = record t { max_consecutive_peer_rekeys = n }
