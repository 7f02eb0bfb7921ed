-- ===== src/Kex/Sntrup.antt =====
-- crates/ssh-transport/src/sntrup.rs: `sntrup761x25519-sha512@openssh.com`, over the crate
-- `sntrup761`, which is a parameter.
use ssh_bench.Common.{
  ℕ, ◌+◌, ◌≡◌, not, ◌++◌, Bytes, ◌==◌, if◌then◌else◌, length, take, drop, Option, none, some,
}
use ssh_bench.Error.{Result, ok, err, kex, ◌>>=◌}
use ssh_bench.Rng.{Rng}
use ssh_bench.Kdf.{Sha2}
use ssh_bench.Kex.{X25519, EcdhKeypair}
use ssh_bench.Kex

abbrev pub sntrup_pk_len : ℕ
sntrup_pk_len = 1158

abbrev pub sntrup_ct_len : ℕ
sntrup_ct_len = 1039

abbrev pub x25519_len : ℕ
x25519_len = 32

abbrev pub client_init_len : ℕ
client_init_len = sntrup_pk_len + x25519_len

abbrev pub server_reply_len : ℕ
server_reply_len = sntrup_ct_len + x25519_len

-- `Ciphertext` is its bytes, and `Ciphertext::try_from` refuses another length.
pub record Sntrup761 : Type 1 where
  pub DecapsulationKey : Type 0
  pub EncapsulationKey : Type 0
  pub generate_key_from_seed : Bytes → EncapsulationKey × DecapsulationKey
  pub as_ref : EncapsulationKey → Bytes
  pub try_from : Bytes → Option EncapsulationKey
  pub encapsulate_deterministic : EncapsulationKey → Bytes → Bytes × Bytes
  pub ciphertext_try_from : Bytes → Option Bytes
  pub decapsulate : DecapsulationKey → Bytes → Bytes

pub record IsSntrup761 (n : Sntrup761) : Type 0 where
  pub length-as_ref : (k : n.EncapsulationKey) → length (n.as_ref k) ≡ sntrup_pk_len
  pub try_from-as_ref : (k : n.EncapsulationKey) → n.try_from (n.as_ref k) ≡ some k
  pub length-ciphertext :
      (k : n.EncapsulationKey) (b : Bytes)
      → length (n.encapsulate_deterministic k b).0 ≡ sntrup_ct_len
  pub ciphertext_try_from_len :
      (c : Bytes) → length c ≡ sntrup_ct_len → n.ciphertext_try_from c ≡ some c
  pub decapsulate-encapsulate :
      (seed b : Bytes)
      → n.decapsulate
          (n.generate_key_from_seed seed).1
          (n.encapsulate_deterministic (n.generate_key_from_seed seed).0 b).0
        ≡ (n.encapsulate_deterministic (n.generate_key_from_seed seed).0 b).1

module _ {r : Rng} (d : Sha2) (x : X25519 r) (n : Sntrup761) where
  open n use {
    DecapsulationKey, EncapsulationKey, generate_key_from_seed, as_ref, try_from,
    encapsulate_deterministic, ciphertext_try_from, decapsulate,
  }

  unfoldable pub combine : Bytes → Bytes → Bytes
  combine k_pq k_x25519 = d.sha512 (k_pq ++ k_x25519)

  pub record HybridClient : Type 0 where
    pub decap : DecapsulationKey
    pub x25519 : EcdhKeypair x
    pub init : Bytes

  -- `HybridClient::generate`
  unfoldable pub generate : r.State → HybridClient × r.State
  generate rng =
      let (seed, rng') = r.fill_bytes 32 rng in
      let (ek, decap) = generate_key_from_seed seed in
      let (pair, rng'') = Kex.generate x rng' in
      (record { decap = decap; x25519 = pair; init = as_ref ek ++ pair.public }, rng'')

  unfoldable pub ciphertext_of : Option Bytes → Result Bytes
  ciphertext_of none = err (kex "sntrup761 ciphertext has wrong length")
  ciphertext_of (some c) = ok c

  -- `HybridClient::agree`
  unfoldable pub agree : HybridClient → Bytes → Result Bytes
  agree client server_reply =
      if not (length server_reply == server_reply_len)
      then err (kex "sntrup761x25519 server reply has wrong length")
      else (do
        ciphertext ← ciphertext_of (ciphertext_try_from (take sntrup_ct_len server_reply))
        k_x25519 ← Kex.agree x client.x25519 (drop sntrup_ct_len server_reply)
        ok (combine (decapsulate client.decap ciphertext) k_x25519))

  -- From the draw of the seed on.
  unfoldable pub respond_to : EncapsulationKey → Bytes → r.State → Result (Bytes × Bytes) × r.State
  respond_to ek client_x rng =
      let (seed, rng') = r.fill_bytes 32 rng in
      let (ciphertext, k_pq) = encapsulate_deterministic ek seed in
      let (server_x, rng'') = Kex.generate x rng' in
      (
        (do
          k_x25519 ← Kex.agree x server_x client_x
          ok (ciphertext ++ server_x.public, combine k_pq k_x25519)),
        rng'',
      )

  unfoldable pub respond_key :
      Option EncapsulationKey → Bytes → r.State → Result (Bytes × Bytes) × r.State
  respond_key none client_x rng = (err (kex "sntrup761 public key has wrong length"), rng)
  respond_key (some ek) client_x rng = respond_to ek client_x rng

  unfoldable pub server_respond : Bytes → r.State → Result (Bytes × Bytes) × r.State
  server_respond client_init rng =
      if not (length client_init == client_init_len)
      then (err (kex "sntrup761x25519 client init has wrong length"), rng)
      else respond_key (try_from (take sntrup_pk_len client_init)) (drop sntrup_pk_len client_init)
          rng
