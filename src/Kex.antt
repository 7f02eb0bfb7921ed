-- ===== src/Kex.antt =====
-- crates/ssh-transport/src/kex.rs: `curve25519-sha256`, over the crate `x25519-dalek`, which is a
-- parameter.
pub mod MlKem
pub mod Sntrup
pub mod Method
use ssh_bench.Common.{ℕ, ◌≡◌, Bool, not, Bytes, ◌==◌, if◌then◌else◌, length}
use ssh_bench.Error.{Result, ok, err, kex}
use ssh_bench.Rng.{Rng}

-- `EphemeralSecret`, `PublicKey` as its 32 bytes, and `SharedSecret`.
pub record X25519 (r : Rng) : Type 1 where
  pub EphemeralSecret : Type 0
  pub SharedSecret : Type 0
  pub random_from_rng : r.State → EphemeralSecret × r.State
  pub public_key : EphemeralSecret → Bytes
  pub diffie_hellman : EphemeralSecret → Bytes → SharedSecret
  pub was_contributory : SharedSecret → Bool
  pub to_bytes : SharedSecret → Bytes

pub record IsX25519 {r : Rng} (x : X25519 r) : Type 0 where
  pub length-public_key : (a : x.EphemeralSecret) → length (x.public_key a) ≡ 32
  pub diffie_hellman_comm :
      (a b : x.EphemeralSecret)
      → x.diffie_hellman a (x.public_key b) ≡ x.diffie_hellman b (x.public_key a)

module _ {r : Rng} (x : X25519 r) where
  open x use {
    EphemeralSecret, SharedSecret, random_from_rng, public_key, diffie_hellman, was_contributory,
    to_bytes,
  }

  pub record EcdhKeypair : Type 0 where
    pub secret : EphemeralSecret
    pub public : Bytes

  -- `EcdhKeypair::generate`
  unfoldable pub generate : r.State → EcdhKeypair × r.State
  generate rng =
      let (secret, rng') = random_from_rng rng in
      (record { secret = secret; public = public_key secret }, rng')

  unfoldable pub contributory : SharedSecret → Result Bytes
  contributory shared =
      if not (was_contributory shared)
      then err (kex "non-contributory key exchange")
      else ok (to_bytes shared)

  -- `EcdhKeypair::agree`
  unfoldable pub agree : EcdhKeypair → Bytes → Result Bytes
  agree pair peer_public =
      if not (length peer_public == 32)
      then err (kex "peer public key is not 32 bytes")
      else contributory (diffie_hellman pair.secret peer_public)
