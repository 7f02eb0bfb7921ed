-- ===== src/Kex/MlKem.antt =====
-- crates/ssh-transport/src/mlkem.rs: `mlkem768x25519-sha256`, over the crate `ml-kem`, which is a
-- parameter.
use ssh_bench.Common.{
  ℕ, ◌+◌, ◌≡◌, not, ◌++◌, Bytes, Option, none, some, ◌==◌, if◌then◌else◌, length, take, drop,
}
use ssh_bench.Error.{Result, ok, err, kex, ◌>>=◌}
use ssh_bench.Rng.{Rng}
use ssh_bench.Kdf.{Sha2}
use ssh_bench.Kex.{X25519, EcdhKeypair}
use ssh_bench.Kex

abbrev pub mlkem_ek_len : ℕ
mlkem_ek_len = 1184

abbrev pub mlkem_ct_len : ℕ
mlkem_ct_len = 1088

abbrev pub x25519_len : ℕ
x25519_len = 32

abbrev pub client_init_len : ℕ
client_init_len = mlkem_ek_len + x25519_len

abbrev pub server_reply_len : ℕ
server_reply_len = mlkem_ct_len + x25519_len

-- Keys and ciphertexts of ML-KEM-768 from and to their bytes; `EncapsulationKey::new` may refuse.
pub record Mlkem768 : Type 1 where
  pub DecapsulationKey : Type 0
  pub EncapsulationKey : Type 0
  pub from_seed : Bytes → DecapsulationKey
  pub encapsulation_key : DecapsulationKey → EncapsulationKey
  pub to_bytes : EncapsulationKey → Bytes
  pub new : Bytes → Option EncapsulationKey
  pub encapsulate_deterministic : EncapsulationKey → Bytes → Bytes × Bytes
  pub decapsulate_slice : DecapsulationKey → Bytes → Option Bytes

-- FIPS 203: the lengths, and decapsulation of what was encapsulated to the key.
pub record IsMlkem768 (m : Mlkem768) : Type 0 where
  pub length-to_bytes : (k : m.EncapsulationKey) → length (m.to_bytes k) ≡ mlkem_ek_len
  pub new-to_bytes : (k : m.EncapsulationKey) → m.new (m.to_bytes k) ≡ some k
  pub length-ciphertext :
      (k : m.EncapsulationKey) (b : Bytes)
      → length (m.encapsulate_deterministic k b).0 ≡ mlkem_ct_len
  pub decapsulate-encapsulate :
      (k : m.DecapsulationKey) (b : Bytes)
      → m.decapsulate_slice k (m.encapsulate_deterministic (m.encapsulation_key k) b).0
        ≡ some (m.encapsulate_deterministic (m.encapsulation_key k) b).1

module _ {r : Rng} (d : Sha2) (x : X25519 r) (m : Mlkem768) where
  open m use {
    DecapsulationKey, EncapsulationKey, from_seed, encapsulation_key, to_bytes, new,
    encapsulate_deterministic, decapsulate_slice,
  }

  unfoldable pub combine : Bytes → Bytes → Bytes
  combine k_pq k_x25519 = d.sha256 (k_pq ++ k_x25519)

  pub record HybridClient : Type 0 where
    pub decap : DecapsulationKey
    pub x25519 : EcdhKeypair x
    pub init : Bytes

  -- `HybridClient::generate`
  unfoldable pub generate : r.State → HybridClient × r.State
  generate rng =
      let (seed, rng') = r.fill_bytes 64 rng in
      let decap = from_seed seed in
      let ek = to_bytes (encapsulation_key decap) in
      let (pair, rng'') = Kex.generate x rng' in
      (record { decap = decap; x25519 = pair; init = ek ++ pair.public }, rng'')

  unfoldable pub decapsulated : Option Bytes → Result Bytes
  decapsulated none = err (kex "mlkem768 ciphertext has wrong length")
  decapsulated (some k_pq) = ok k_pq

  -- `HybridClient::agree`
  unfoldable pub agree : HybridClient → Bytes → Result Bytes
  agree client server_reply =
      if not (length server_reply == server_reply_len)
      then err (kex "mlkem768x25519 server reply has wrong length")
      else (do
        k_pq ← decapsulated (decapsulate_slice client.decap (take mlkem_ct_len server_reply))
        k_x25519 ← Kex.agree x client.x25519 (drop mlkem_ct_len server_reply)
        ok (combine k_pq k_x25519))

  -- From the draw of the 32 bytes on.
  unfoldable pub respond_to : EncapsulationKey → Bytes → r.State → Result (Bytes × Bytes) × r.State
  respond_to ek client_x rng =
      let (b, rng') = r.fill_bytes 32 rng in
      let (ciphertext, k_pq) = encapsulate_deterministic ek b in
      let (server_x, rng'') = Kex.generate x rng' in
      (
        (do
          k_x25519 ← Kex.agree x server_x client_x
          ok (ciphertext ++ server_x.public, combine k_pq k_x25519)),
        rng'',
      )

  unfoldable pub respond_key :
      Option EncapsulationKey → Bytes → r.State → Result (Bytes × Bytes) × r.State
  respond_key none client_x rng = (err (kex "invalid mlkem768 encapsulation key"), rng)
  respond_key (some ek) client_x rng = respond_to ek client_x rng

  -- The split leaves a slice of the length that `Key::try_from` wants.
  unfoldable pub server_respond : Bytes → r.State → Result (Bytes × Bytes) × r.State
  server_respond client_init rng =
      if not (length client_init == client_init_len)
      then (err (kex "mlkem768x25519 client init has wrong length"), rng)
      else respond_key (new (take mlkem_ek_len client_init)) (drop mlkem_ek_len client_init) rng
