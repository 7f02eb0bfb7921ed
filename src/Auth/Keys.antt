-- ===== src/Auth/Keys.antt =====
-- `UserPublicKey` and `UserKeypair` of auth.rs over the `ed25519-dalek` crate, which is a parameter.
use ssh_bench.Common.{
  Bool, true, not, Bytes, Option, none, some, ◌==◌, ◌≡◌, bytes_eq, if◌then◌else◌, length,
}
use ssh_bench.Error.{Result, ok, err, protocol, auth_failed}
use ssh_bench.Wire.Reader.{Read, pure, fail, ◌>>=◌, string, utf8}
use ssh_bench.Wire.Reader
use ssh_bench.Wire.Writer.{◌▸◌}
use ssh_bench.Wire.Writer
use ssh_bench.Algo.Names.{hostkey_ed25519}

-- The calls of `ed25519-dalek`: keys from and to their 32 bytes, signatures of 64 bytes.
pub record Ed25519 : Type 1 where
  pub VerifyingKey : Type 0
  pub SigningKey : Type 0
  pub from_bytes : Bytes → Option VerifyingKey
  pub as_bytes : VerifyingKey → Bytes
  pub verify_strict : VerifyingKey → Bytes → Bytes → Bool
  pub verifying_key : SigningKey → VerifyingKey
  pub sign : SigningKey → Bytes → Bytes

-- What its documentation says of them.
pub record IsEd25519 (d : Ed25519) : Type 0 where
  pub from_as_bytes : (k : d.VerifyingKey) → d.from_bytes (d.as_bytes k) ≡ some k
  pub length-as_bytes : (k : d.VerifyingKey) → length (d.as_bytes k) ≡ 32
  pub length-sign : (k : d.SigningKey) (m : Bytes) → length (d.sign k m) ≡ 64
  pub verify-sign :
      (k : d.SigningKey) (m : Bytes) → d.verify_strict (d.verifying_key k) m (d.sign k m) ≡ true

module _ (d : Ed25519) where
  open d use {VerifyingKey, SigningKey, from_bytes, as_bytes, verify_strict, verifying_key, sign}

  pub record UserPublicKey : Type 0 where
    pub verifying : VerifyingKey

  pub record UserKeypair : Type 0 where
    pub signing : SigningKey

  unfoldable pub key_of : Option VerifyingKey → Read UserPublicKey
  key_of none = fail (protocol "invalid ed25519 key")
  key_of (some k) = pure (record { verifying = k })

  unfoldable pub read_key : Read UserPublicKey
  unfolding key_of
  read_key = do
    key ← string
    if not (length key == 32)
        then fail (protocol "ed25519 key is not 32 bytes")
        else key_of (from_bytes key)

  unfoldable pub read_blob : Read UserPublicKey
  unfolding read_key
  read_blob = do
    algo ← utf8
    if not (bytes_eq algo hostkey_ed25519)
        then fail (protocol "unsupported public key algorithm")
        else read_key

  unfoldable pub parse_blob : Bytes → Result UserPublicKey
  parse_blob blob = elim (read_blob (Reader.new blob)) [ ok (k, r) ↦ ok k | err e ↦ err e ]

  unfoldable pub blob : UserPublicKey → Bytes
  blob k =
      Writer.into_bytes
        (Writer.new ▸ Writer.string hostkey_ed25519 ▸ Writer.string (as_bytes k.verifying))

  unfoldable pub read_verified : UserPublicKey → Bytes → Read (Unit {0})
  read_verified k signed_data = do
    sig ← string
    if not (length sig == 64)
        then fail (protocol "signature is not 64 bytes")
        else if verify_strict k.verifying signed_data sig
        then pure tt
        else fail auth_failed

  unfoldable pub read_signature : UserPublicKey → Bytes → Read (Unit {0})
  unfolding read_verified
  read_signature k signed_data = do
    algo ← utf8
    if not (bytes_eq algo hostkey_ed25519)
        then fail (protocol "unsupported signature algorithm")
        else read_verified k signed_data

  unfoldable pub verify : UserPublicKey → Bytes → Bytes → Result (Unit {0})
  verify k signed_data sig_blob = elim (read_signature k signed_data (Reader.new sig_blob)) [
    | ok (u, r) ↦ ok u
    | err e ↦ err e
  ]

  unfoldable pub public : UserKeypair → UserPublicKey
  public p = record { verifying = verifying_key p.signing }

  -- `UserKeypair::sign`
  unfoldable pub sign_blob : UserKeypair → Bytes → Bytes
  sign_blob p signed_data =
      Writer.into_bytes
        (Writer.new ▸ Writer.string hostkey_ed25519 ▸ Writer.string (sign p.signing signed_data))
