-- ===== src/Hostkey.antt =====
-- crates/ssh-transport/src/hostkey.rs: host keys, their blobs and signatures, over the parameter for
-- `ed25519-dalek`. The OpenSSH file format is the `ssh-key` crate's.
pub mod Signing
use ssh_bench.Common.{
  Bool, true, not, Bytes, Option, none, some, ◌==◌, ◌≡◌, bytes_eq, if◌then◌else◌, length,
}
use ssh_bench.Error.{Result, ok, err, kex}
use ssh_bench.Wire.Reader.{Read, pure, fail, ◌>>=◌, string, utf8}
use ssh_bench.Wire.Reader
use ssh_bench.Wire.Writer.{◌▸◌}
use ssh_bench.Wire.Writer
use ssh_bench.Algo.Names.{hostkey_ed25519}
use ssh_bench.Auth.Keys.{Ed25519}

module _ (d : Ed25519) where
  open d use {VerifyingKey, SigningKey, from_bytes, as_bytes, verify_strict, verifying_key, sign}

  pub record HostPublicKey : Type 0 where
    pub verifying : VerifyingKey

  pub record HostKey : Type 0 where
    pub signing : SigningKey

  unfoldable pub key_of : Option VerifyingKey → Read HostPublicKey
  key_of none = fail (kex "invalid ed25519 key")
  key_of (some k) = pure (record { verifying = k })

  unfoldable pub read_key : Read HostPublicKey
  unfolding key_of
  read_key = do
    key ← string
    if not (length key == 32)
        then fail (kex "ed25519 key is not 32 bytes")
        else key_of (from_bytes key)

  unfoldable pub read_blob : Read HostPublicKey
  unfolding read_key
  read_blob = do
    algo ← utf8
    if not (bytes_eq algo hostkey_ed25519)
        then fail (kex "unsupported host key algorithm")
        else read_key

  unfoldable pub parse_blob : Bytes → Result HostPublicKey
  parse_blob blob = elim (read_blob (Reader.new blob)) [ ok (k, r) ↦ ok k | err e ↦ err e ]

  unfoldable pub public_blob : VerifyingKey → Bytes
  public_blob verifying =
      Writer.into_bytes
        (Writer.new ▸ Writer.string hostkey_ed25519 ▸ Writer.string (as_bytes verifying))

  -- `HostPublicKey::blob`
  unfoldable pub blob : HostPublicKey → Bytes
  unfolding public_blob
  blob k = public_blob k.verifying

  unfoldable pub read_verified : HostPublicKey → Bytes → Read (Unit {0})
  read_verified k signed_data = do
    sig ← string
    if not (length sig == 64)
        then fail (kex "ed25519 signature is not 64 bytes")
        else if verify_strict k.verifying signed_data sig
        then pure tt
        else fail (kex "host key signature verification failed")

  unfoldable pub read_signature : HostPublicKey → Bytes → Read (Unit {0})
  unfolding read_verified
  read_signature k signed_data = do
    algo ← utf8
    if not (bytes_eq algo hostkey_ed25519)
        then fail (kex "unsupported signature algorithm")
        else read_verified k signed_data

  unfoldable pub verify : HostPublicKey → Bytes → Bytes → Result (Unit {0})
  verify k signed_data sig_blob = elim (read_signature k signed_data (Reader.new sig_blob)) [
    | ok (u, r) ↦ ok u
    | err e ↦ err e
  ]

  unfoldable pub public : HostKey → HostPublicKey
  public p = record { verifying = verifying_key p.signing }

  unfoldable pub sign_exchange_hash : HostKey → Bytes → Bytes
  sign_exchange_hash p signed_data =
      Writer.into_bytes
        (Writer.new ▸ Writer.string hostkey_ed25519 ▸ Writer.string (sign p.signing signed_data))

  -- `HostKey::public_blob`
  unfoldable pub key_blob : HostKey → Bytes
  unfolding public_blob
  key_blob p = public_blob (verifying_key p.signing)
