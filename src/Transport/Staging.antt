-- ===== src/Transport/Staging.antt =====
-- The parts of a key exchange that only read the state: the method's half, the exchange hash, and
-- the keys that are staged for NEWKEYS.
use ssh_bench.Common.{Bytes, Option, none, some}
use ssh_bench.Error.{SshError, Result, ok, err, protocol, ◌>>=◌}
use ssh_bench.Kdf.{KexHash, SharedSecret, ExchangeHashInput, Keys, exchange_hash, derive}
use ssh_bench.Kex
use ssh_bench.Kex.MlKem
use ssh_bench.Kex.Sntrup
use ssh_bench.Kex.Method.{respond_classical}
use ssh_bench.Cipher.{key_len, iv_len}
use ssh_bench.Cipher
use ssh_bench.Algo.KexInit.{KexInit}
use ssh_bench.Algo.Negotiate.{Negotiated}
use ssh_bench.Transport.Policy.{Role, KexKind, kind_of}
use ssh_bench.Transport.State.{Crates, Transport, PendingKeys, KexEphemeral}
use ssh_bench.Transport.State

unfoldable pub required {ℓ} : {A : Type ℓ} → SshError → Option A → Result A
required e none = err e
required e (some a) = ok a

module _ (C : Crates) where
  abbrev T : Type 0
  T = Transport C

  unfoldable pub kind_or_classical : Option Negotiated → KexKind
  kind_or_classical none = KexKind.classical
  kind_or_classical (some n) = kind_of C.with_sntrup761 n.kex

  unfoldable pub kex_kind : T → KexKind
  kex_kind t = kind_or_classical t.negotiated

  -- The client's ephemeral and the blob that it sends.
  unfoldable pub ephemeral : KexKind → C.rng.State → (Bytes × KexEphemeral C) × C.rng.State
  ephemeral KexKind.mlkem rng =
      let x = MlKem.generate C.sha2 C.x25519 C.mlkem768 rng in ((x.0.init, State.mlkem x.0), x.1)
  ephemeral KexKind.sntrup rng =
      let x = Sntrup.generate C.sha2 C.x25519 C.sntrup761 rng in ((x.0.init, State.sntrup x.0), x.1)
  ephemeral KexKind.classical rng =
      let x = Kex.generate C.x25519 rng in ((x.0.public, State.classical x.0), x.1)

  -- The server's `Q_S` and the shared bytes.
  unfoldable pub respond : KexKind → Bytes → C.rng.State → Result (Bytes × Bytes) × C.rng.State
  respond KexKind.mlkem q_c rng = MlKem.server_respond C.sha2 C.x25519 C.mlkem768 q_c rng
  respond KexKind.sntrup q_c rng = Sntrup.server_respond C.sha2 C.x25519 C.sntrup761 q_c rng
  respond KexKind.classical q_c rng = respond_classical C.x25519 q_c rng

  -- `Q_C`, the shared bytes and the family of the ephemeral that was kept.
  unfoldable pub complete : KexEphemeral C → Bytes → Result (Bytes × Bytes × KexKind)
  complete (State.mlkem hc) q_s = do
    shared ← MlKem.agree C.sha2 C.x25519 C.mlkem768 hc q_s
    ok (hc.init, shared, KexKind.mlkem)
  complete (State.sntrup hc) q_s = do
    shared ← Sntrup.agree C.sha2 C.x25519 C.sntrup761 hc q_s
    ok (hc.init, shared, KexKind.sntrup)
  complete (State.classical kp) q_s = do
    shared ← Kex.agree C.x25519 kp q_s
    ok (kp.public, shared, KexKind.classical)

  unfoldable pub hash_input_of :
      T → Bytes → KexInit → Bytes → Bytes → Bytes → SharedSecret → ExchangeHashInput
  hash_input_of t peer_id peer_kexinit q_c q_s host_blob shared = elim t.role [
    | Role.client ↦ record {
      client_id = t.local_id;
      server_id = peer_id;
      client_kexinit = t.local_kexinit;
      server_kexinit = peer_kexinit.payload;
      host_key_blob = host_blob;
      client_ephemeral = q_c;
      server_ephemeral = q_s;
      shared_secret = shared;
    }
    | Role.server ↦ record {
      client_id = peer_id;
      server_id = t.local_id;
      client_kexinit = peer_kexinit.payload;
      server_kexinit = t.local_kexinit;
      host_key_blob = host_blob;
      client_ephemeral = q_c;
      server_ephemeral = q_s;
      shared_secret = shared;
    }
  ]

  unfoldable pub compute_exchange_hash :
      T → Bytes → Bytes → Bytes → SharedSecret → KexHash → Result Bytes
  compute_exchange_hash t q_c q_s host_blob shared hash = do
    peer_id ← required (protocol "missing peer id") t.peer_id
    peer_kexinit ← required (protocol "missing peer kexinit") t.peer_kexinit
    ok (exchange_hash C.sha2 (hash_input_of t peer_id peer_kexinit q_c q_s host_blob shared) hash)

  unfoldable pub pending_keys : Role → Bytes → Keys → Result (PendingKeys C)
  pending_keys Role.client cipher keys = do
    out ← Cipher.new cipher keys.enc_c2s keys.iv_c2s
    inn ← Cipher.new cipher keys.enc_s2c keys.iv_s2c
    ok (record { out = out; inn = inn })
  pending_keys Role.server cipher keys = do
    out ← Cipher.new cipher keys.enc_s2c keys.iv_s2c
    inn ← Cipher.new cipher keys.enc_c2s keys.iv_c2s
    ok (record { out = out; inn = inn })

  -- The ciphers of `finish_kex`.
  unfoldable pub staged :
      Role → Bytes → Bytes → SharedSecret → Bytes → KexHash → Result (PendingKeys C)
  staged role cipher h shared session_id hash = do
    k ← key_len cipher
    i ← iv_len cipher
    pending_keys role cipher (derive C.sha2 shared h session_id k i hash)
