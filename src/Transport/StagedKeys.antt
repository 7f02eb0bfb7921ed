-- ===== src/Transport/StagedKeys.antt =====
-- Whatever `finish_kex` of transport.rs stages is a real cipher.
use ssh_bench.Common.{ℕ, ◌≡◌, true, Bytes, arith}
use ssh_bench.Error.{Result, ok, err, ◌>>=◌}
use ssh_bench.Kdf.{KexHash, SharedSecret, Keys, derive}
use ssh_bench.Cipher.{Cipher, key_len, iv_len}
use ssh_bench.Cipher
use ssh_bench.Transport.Policy.{Role}
use ssh_bench.Transport.State.{Crates, PendingKeys}
use ssh_bench.Transport.Staging.{pending_keys, staged}
use ssh_bench.Transport.Epochs.{is_sealed}

new-sealed : (name key iv : Bytes) (c : Cipher) → Cipher.new name key iv ≡ ok c → is_sealed c ≡ true
unfolding Cipher.new is_sealed
new-sealed name key iv c e = ground arith

both-out :
    (C : Crates) (a b : Result Cipher) (p : PendingKeys C)
    → (do out ← a; inn ← b; ok (record { out = out; inn = inn })) ≡ ok p
    → a ≡ ok p.out
unfolding ◌>>=◌
both-out C (ok x) (ok y) p e = cc
both-out C (ok x) (err y) p e = cc
both-out C (err x) b p e = cc

pending_keys-sealed :
    (C : Crates) (role : Role) (cipher : Bytes) (keys : Keys) (p : PendingKeys C)
    → pending_keys C role cipher keys ≡ ok p
    → is_sealed p.out ≡ true
unfolding pending_keys
pending_keys-sealed C Role.client cipher keys p e =
    new-sealed cipher keys.enc_c2s keys.iv_c2s p.out (both-out C _ _ p e)
pending_keys-sealed C Role.server cipher keys p e =
    new-sealed cipher keys.enc_s2c keys.iv_s2c p.out (both-out C _ _ p e)

-- Whatever is staged is a real cipher.
pub staged-sealed :
    (C : Crates) (role : Role) (cipher h : Bytes) (k : SharedSecret) (sid : Bytes) (hash : KexHash)
    (p : PendingKeys C)
    → staged C role cipher h k sid hash ≡ ok p
    → is_sealed p.out ≡ true
unfolding staged ◌>>=◌
staged-sealed C role cipher h k sid hash p e = go (key_len cipher) (iv_len cipher) e
  where
    go :
        (a b : Result ℕ)
        → (do x ← a; y ← b; pending_keys C role cipher (derive C.sha2 k h sid x y hash)) ≡ ok p
        → is_sealed p.out ≡ true
    go (ok x) (ok y) e = pending_keys-sealed C role cipher _ p e
    go (ok x) (err y) e = cc
    go (err x) b e = cc
