-- ===== src/Kdf.antt =====
-- crates/ssh-transport/src/kdf.rs: the exchange hash and the key derivation. The digests of the
-- crate `sha2` are a parameter; scrubbing memory is no part of the model.
pub mod Blocks
pub mod Transcript
use ssh_bench.Common.{
  ℕ, zero, suc, ◌<◌, ◌≡◌, List, [], ◌∷◌, ◌++◌, Bytes, ltb, if◌then◌else◌, length, take,
}
use ssh_bench.Wire.Writer.{Writer, ◌▸◌}
use ssh_bench.Wire.Writer

-- `Sha256` and `Sha512` on everything that `update` was given.
pub record Sha2 : Type 0 where
  pub sha256 : Bytes → Bytes
  pub sha512 : Bytes → Bytes

pub record IsSha2 (d : Sha2) : Type 0 where
  pub length-sha256 : (m : Bytes) → length (d.sha256 m) ≡ 32
  pub length-sha512 : (m : Bytes) → length (d.sha512 m) ≡ 64

pub data KexHash : Type 0 where
  sha256 sha512 : KexHash

pub data SharedSecret : Type 0 where
  mpint string : Bytes → SharedSecret

-- `SharedSecret::encode`
unfoldable pub encode : SharedSecret → Bytes
encode (SharedSecret.mpint magnitude) = Writer.into_bytes (Writer.new ▸ Writer.mpint magnitude)
encode (SharedSecret.string bytes) = Writer.into_bytes (Writer.new ▸ Writer.string bytes)

pub record ExchangeHashInput : Type 0 where
  pub client_id : Bytes
  pub server_id : Bytes
  pub client_kexinit : Bytes
  pub server_kexinit : Bytes
  pub host_key_blob : Bytes
  pub client_ephemeral : Bytes
  pub server_ephemeral : Bytes
  pub shared_secret : SharedSecret

-- What `exchange_hash` gives to the digest.
unfoldable pub hash_input : ExchangeHashInput → Bytes
hash_input input = Writer.as_slice (
    Writer.new
    ▸ Writer.string input.client_id
    ▸ Writer.string input.server_id
    ▸ Writer.string input.client_kexinit
    ▸ Writer.string input.server_kexinit
    ▸ Writer.string input.host_key_blob
    ▸ Writer.string input.client_ephemeral
    ▸ Writer.string input.server_ephemeral
    ▸ Writer.raw (encode input.shared_secret))

pub record Keys : Type 0 where
  pub iv_c2s : Bytes
  pub iv_s2c : Bytes
  pub enc_c2s : Bytes
  pub enc_s2c : Bytes

-- The `while` loop of `derive_key_with`, for a digest and the bytes that every round starts with.
unfoldable pub extend : (Bytes → Bytes) → ℕ → Bytes → ℕ → Bytes → Bytes
extend digest zero start out_len out = out
extend digest (suc fuel) start out_len out =
    let more = extend digest fuel start out_len (out ++ digest (start ++ out)) in
    if ltb (length out) out_len then more else out

-- A round appends a byte at least, so that `out_len` rounds are enough.
unfoldable pub derive_key_with : (Bytes → Bytes) → Bytes → Bytes → ℕ → Bytes → ℕ → Bytes
derive_key_with digest k_enc h letter session_id out_len = take out_len (
    extend digest out_len (k_enc ++ h) out_len (digest (k_enc ++ h ++ (letter ∷ []) ++ session_id)))

module _ (d : Sha2) where
  unfoldable pub digest : KexHash → Bytes → Bytes
  digest KexHash.sha256 = d.sha256
  digest KexHash.sha512 = d.sha512

  unfoldable pub exchange_hash : ExchangeHashInput → KexHash → Bytes
  exchange_hash input hash = digest hash (hash_input input)

  unfoldable pub derive_key : Bytes → Bytes → ℕ → Bytes → ℕ → KexHash → Bytes
  derive_key k_enc h letter session_id out_len hash =
      derive_key_with (digest hash) k_enc h letter session_id out_len

  -- `Keys::derive`
  unfoldable pub derive : SharedSecret → Bytes → Bytes → ℕ → ℕ → KexHash → Keys
  derive shared_secret h session_id key_len iv_len hash =
      let k_enc = encode shared_secret in
      record {
        iv_c2s = derive_key k_enc h b'A' session_id iv_len hash;
        iv_s2c = derive_key k_enc h b'B' session_id iv_len hash;
        enc_c2s = derive_key k_enc h b'C' session_id key_len hash;
        enc_s2c = derive_key k_enc h b'D' session_id key_len hash;
      }
