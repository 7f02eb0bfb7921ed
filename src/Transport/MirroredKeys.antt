-- ===== src/Transport/MirroredKeys.antt =====
-- Both sides of a key exchange come to the same secret, and stage keys that mirror each other.
use ssh_bench.Common.{
  ℕ, ◌≤◌, ◌<◌, ◌≡◌, refl, subst, Bool, true, false, Bytes, bytes_eq, length, take, drop, arith,
}
use ssh_bench.Error.{Result, ok, ◌>>=◌}
use ssh_bench.Kdf.{IsSha2, KexHash, SharedSecret, derive, derive_key, digest, encode}
use ssh_bench.Kdf.Blocks.{derive_key_with-blocks, blocks, length-blocks-lt}
use ssh_bench.Kex.{IsX25519}
use ssh_bench.Kex
use ssh_bench.Kex.MlKem.{IsMlkem768}
use ssh_bench.Kex.MlKem
use ssh_bench.Kex.Sntrup.{IsSntrup761}
use ssh_bench.Kex.Sntrup
use ssh_bench.Kex.Method.{Agreed, classical_agrees, mlkem_agrees, sntrup_agrees}
use ssh_bench.Auth.Keys.{IsEd25519}
use ssh_bench.Cipher.{Cipher, key_len, iv_len}
use ssh_bench.Cipher
use ssh_bench.Algo.Names.{cipher_aes256_gcm, cipher_chacha20_poly1305}
use ssh_bench.Transport.Policy.{Role, KexKind}
use ssh_bench.Transport.State.{Crates}
use ssh_bench.Transport.Staging.{ephemeral, respond, complete, pending_keys, staged}

-- What the crates below the engine are documented to do.
pub record IsCrates (C : Crates) : Type 0 where
  pub sha2 : IsSha2 C.sha2
  pub x25519 : IsX25519 C.x25519
  pub mlkem768 : IsMlkem768 C.mlkem768
  pub sntrup761 : IsSntrup761 C.sntrup761
  pub ed25519 : IsEd25519 C.ed25519

agreed :
    {A : Type 0} {q k : Bytes} {a : A} (f : Bytes → Result Bytes) (x : Result (Bytes × Bytes) × A)
    → x ≡ (ok (q, k), a)
    → Agreed f x
    → f q ≡ ok k
agreed f x e h = subst (Agreed f) e h

module _ (C : Crates) (hc : IsCrates C) where
  -- The client completes with the blob that it sent and the server's secret.
  pub complete-respond :
      (kind : KexKind) (s t t' : C.rng.State) (q_s shared : Bytes)
      → respond C kind (ephemeral C kind s).0.0 t ≡ (ok (q_s, shared), t')
      → complete C (ephemeral C kind s).0.1 q_s ≡ ok ((ephemeral C kind s).0.0, shared, kind)
  unfolding respond ephemeral complete ◌>>=◌
  complete-respond KexKind.classical s t t' q_s shared e =
      rw
        (agreed (Kex.agree C.x25519 (Kex.generate C.x25519 s).0) _ e
          ((classical_agrees C.x25519 hc.x25519).agrees s t))
        refl
  complete-respond KexKind.mlkem s t t' q_s shared e =
      rw
        (agreed
          (MlKem.agree C.sha2 C.x25519 C.mlkem768 (MlKem.generate C.sha2 C.x25519 C.mlkem768 s).0) _
          e ((mlkem_agrees C.x25519 hc.x25519 C.sha2 C.mlkem768 hc.mlkem768).agrees s t))
        refl
  complete-respond KexKind.sntrup s t t' q_s shared e =
      rw
        (agreed
          (Sntrup.agree C.sha2 C.x25519 C.sntrup761
            (Sntrup.generate C.sha2 C.x25519 C.sntrup761 s).0)
          _ e ((sntrup_agrees C.x25519 hc.x25519 C.sha2 C.sntrup761 hc.sntrup761).agrees s t))
        refl

  filled : (hash : KexHash) (m : Bytes) → 0 < length (digest C.sha2 hash m)
  unfolding digest
  filled KexHash.sha256 m = omega (arith, hc.sha2.length-sha256 m)
  filled KexHash.sha512 m = omega (arith, hc.sha2.length-sha512 m)

  reach :
      (k h : Bytes) (letter : ℕ) (sid : Bytes) (n : ℕ) (hash : KexHash)
      → n ≤ length (blocks (digest C.sha2 hash) k h letter sid n)
  reach k h letter sid n hash =
      omega (arith, length-blocks-lt (digest C.sha2 hash) k h letter sid (filled hash) n)

  length-derive_key :
      (k h : Bytes) (letter : ℕ) (sid : Bytes) (n : ℕ) (hash : KexHash)
      → length (derive_key C.sha2 k h letter sid n hash) ≡ n
  unfolding derive_key
  length-derive_key k h letter sid n hash =
      let b = derive_key_with-blocks (digest C.sha2 hash) k h letter sid (filled hash) n n in
      (b (reach k h letter sid n hash)).1

  -- Keys and nonces of the lengths that a cipher asks for make that cipher.
  new-total :
      (name key iv : Bytes) (k i : ℕ)
      → key_len name ≡ ok k
      → iv_len name ≡ ok i
      → length key ≡ k
      → length iv ≡ i
      → (c : Cipher) × (Cipher.new name key iv ≡ ok c)
  unfolding key_len iv_len Cipher.new
  new-total name key iv k i ek ei lk li =
      go (bytes_eq name cipher_chacha20_poly1305) (bytes_eq name cipher_aes256_gcm) refl refl
    where
      go :
          (a b : Bool)
          → bytes_eq name cipher_chacha20_poly1305 ≡ a
          → bytes_eq name cipher_aes256_gcm ≡ b
          → (c : Cipher) × (Cipher.new name key iv ≡ ok c)
      go true b ea eb =
          (Cipher.chacha20_poly1305 (take 32 key) (take 32 (drop 32 key)), ground arith)
      go false true ea eb = (Cipher.aes256_gcm key iv, ground arith)
      go false false ea eb = absurd (ground arith)

  -- What one side seals with is what the other opens with.
  pub staged-mirrored :
      (name h : Bytes) (k : SharedSecret) (sid : Bytes) (hash : KexHash) (kl il : ℕ)
      → key_len name ≡ ok kl
      → iv_len name ≡ ok il
      → (a : Cipher) × (b : Cipher) × (staged C Role.client name h k sid hash
          ≡ ok (record { out = a; inn = b }))
        × (staged C Role.server name h k sid hash ≡ ok (record { out = b; inn = a }))
  unfolding staged pending_keys derive ◌>>=◌
  staged-mirrored name h k sid hash kl il ek ei =
      let K = encode k in
      let (a, ea) =
        new-total name (derive_key C.sha2 K h b'C' sid kl hash)
          (derive_key C.sha2 K h b'A' sid il hash) kl il ek ei
          (length-derive_key K h b'C' sid kl hash) (length-derive_key K h b'A' sid il hash) in
      let (b, eb) =
        new-total name (derive_key C.sha2 K h b'D' sid kl hash)
          (derive_key C.sha2 K h b'B' sid il hash) kl il ek ei
          (length-derive_key K h b'D' sid kl hash) (length-derive_key K h b'B' sid il hash) in
      (a, b, rw (ek, ei, ea, eb) refl, rw (ek, ei, ea, eb) refl)
