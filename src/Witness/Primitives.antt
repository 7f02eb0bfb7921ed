-- ===== src/Witness/Primitives.antt =====
-- Small primitives that keep the contracts, for runs of the transport and of what is below it.
use ssh_bench.Common.{
  ℕ, zero, suc, ◌+◌, ◌*◌, ◌%◌, ◌≤◌, ◌<◌, ◌≡◌, refl, sym, ap, true, false, not, [], ◌∷◌, ◌++◌, Bytes,
  none, some, ◌==◌, bytes_eq, bytes_eq_refl, if◌then◌else◌, length, take, replicate, length-append,
  length-replicate, length-take, arith,
}
use ssh_bench.Wire.Reader.{byte_at}
use ssh_bench.Rng.{Rng}
use ssh_bench.Kdf.{Sha2, IsSha2}
use ssh_bench.Kex.{X25519, IsX25519}
use ssh_bench.Kex.MlKem.{Mlkem768, IsMlkem768}
use ssh_bench.Kex.Sntrup.{Sntrup761, IsSntrup761}
use ssh_bench.Cipher.{Primitives, IsPrimitives}
use ssh_bench.Compress.{Flate2, IsFlate2, Inflated}
use ssh_bench.Auth.Keys.{Ed25519, IsEd25519}
use ssh_bench.Transport.State.{Crates}

-- The first `n` bytes, filled up with zeros.
abbrev pub fit : ℕ → Bytes → Bytes
fit n m = take n (m ++ replicate n 0)

pub length-fit : (n : ℕ) (m : Bytes) → length (fit n m) ≡ n
length-fit n m =
    length-take n (m ++ replicate n 0)
      (omega (arith, length-append m (replicate n zero), length-replicate n (zero)))

abbrev pub counter : Rng
counter = record {
  State = ℕ;
  fill_bytes = λ n s. (replicate n (s % 256), s + 1);
  next_u32 = λ s. (s, s + 1);
}

abbrev pub padded : Sha2
padded = record { sha256 = fit 32; sha512 = fit 64 }

pub padded-IsSha2 : IsSha2 padded
padded-IsSha2 = record { length-sha256 = length-fit 32; length-sha512 = length-fit 64 }

abbrev pub products : X25519 counter
products = record {
  EphemeralSecret = ℕ;
  SharedSecret = ℕ;
  random_from_rng = λ s. (s, s + 1);
  public_key = λ a. a ∷ replicate 31 0;
  diffie_hellman = λ a q. a * byte_at q 0;
  was_contributory = λ z. not (z == 0);
  to_bytes = λ z. z ∷ replicate 31 0;
}

pub products-IsX25519 : IsX25519 products
unfolding replicate
products-IsX25519 = record {
  length-public_key = λ a. refl;
  diffie_hellman_comm = λ a b. grind arith;
}

abbrev pub open_kem : Mlkem768
open_kem = record {
  DecapsulationKey = ℕ;
  EncapsulationKey = ℕ;
  from_seed = λ s. byte_at s 0;
  encapsulation_key = λ k. k;
  to_bytes = λ k. k ∷ replicate 1183 0;
  new = λ s. some (byte_at s 0);
  encapsulate_deterministic = λ k b. (fit 1088 b, fit 32 (fit 1088 b));
  decapsulate_slice = λ k c. some (fit 32 c);
}

pub open_kem-IsMlkem768 : IsMlkem768 open_kem
open_kem-IsMlkem768 = record {
  length-to_bytes = λ k. omega (arith, length-replicate 1183 (zero));
  new-to_bytes = λ k. refl;
  length-ciphertext = λ k b. length-fit 1088 b;
  decapsulate-encapsulate = λ k b. refl;
}

abbrev pub open_ntru : Sntrup761
open_ntru = record {
  DecapsulationKey = ℕ;
  EncapsulationKey = ℕ;
  generate_key_from_seed = λ s. (byte_at s 0, byte_at s 0);
  as_ref = λ k. k ∷ replicate 1157 0;
  try_from = λ s. some (byte_at s 0);
  encapsulate_deterministic = λ k b. (fit 1039 b, fit 32 (fit 1039 b));
  ciphertext_try_from = λ c. if length c == 1039 then some c else none;
  decapsulate = λ k c. fit 32 c;
}

pub open_ntru-IsSntrup761 : IsSntrup761 open_ntru
open_ntru-IsSntrup761 = record {
  length-as_ref = λ k. omega (arith, length-replicate 1157 (zero));
  try_from-as_ref = λ k. refl;
  length-ciphertext = λ k b. length-fit 1039 b;
  ciphertext_try_from_len = λ c h. ground arith;
  decapsulate-encapsulate = λ s b. refl;
}

-- A key stream of zeros, and tags that are the start of what they sign.
abbrev pub clear : Primitives
clear = record {
  apply_keystream = λ k n o m. m;
  compute_unpadded = λ k m. fit 16 m;
  encrypt_in_place_detached = λ k n a m. (m, fit 16 (a ++ m));
  decrypt_in_place_detached = λ k n a m t. if bytes_eq (fit 16 (a ++ m)) t then some m else none;
  shake128 = λ m n. fit n m;
}

pub clear-IsPrimitives : IsPrimitives clear
clear-IsPrimitives = record {
  apply_keystream_twice = λ k n o m. refl;
  length-apply_keystream = λ k n o m. refl;
  length-compute_unpadded = λ k m. length-fit 16 m;
  length-encrypt = λ k n a m. refl;
  length-tag = λ k n a m. length-fit 16 (a ++ m);
  decrypt-encrypt = λ k n a m. rw (bytes_eq_refl (fit 16 (a ++ m))) refl;
  length-shake128 = λ m n. length-fit n m;
}

-- Stored blocks: everything is taken and handed on.
abbrev pub stored : Flate2
stored = record {
  Compress = Unit {0};
  Decompress = Unit {0};
  new_compress = tt;
  new_decompress = tt;
  compress_vec =
      λ c m room. record { consumed = length (take room m); produced = take room m; stream = c };
  decompress_vec = λ d m room. some (record {
    stream_end = false;
    consumed = length (take room m);
    produced = take room m;
    stream = d;
  });
}

stored_takes :
    (m : Bytes) (room : ℕ) (x : Inflated (Unit {0}))
    → stored.decompress_vec tt m room ≡ some x
    → (x.consumed ≡ length (take room m)) × (length x.produced ≡ length (take room m))
stored_takes m room x e = (
  ap (elim [ none ↦ 0 | some y ↦ y.consumed ]) (sym e),
  ap (elim [ none ↦ 0 | some y ↦ length y.produced ]) (sym e),
)

length-take_bounds :
    (n : ℕ) (m : Bytes)
    → (length (take n m) ≤ n)
      × (length (take n m) ≤ length m)
      × (0 < n → 0 < length m → 0 < length (take n m))
unfolding take
length-take_bounds zero m = (omega arith, omega arith, λ a b. omega arith)
length-take_bounds (suc n) [] = (omega arith, omega arith, λ a b. omega arith)
length-take_bounds (suc n) (b ∷ m) =
    let k = length-take_bounds n m in (omega arith, omega arith, λ a c. omega arith)

pub stored-IsFlate2 : IsFlate2 stored
stored-IsFlate2 = record {
  consumed_le = λ d m room x e.
      let a = stored_takes m room x e in let k = length-take_bounds room m in omega arith;
  produced_le = λ d m room x e.
      let a = stored_takes m room x e in let k = length-take_bounds room m in omega arith;
  progress = λ d m room x e end some_in some_room.
      let a = stored_takes m room x e in
      let k = length-take_bounds room m in let l = k.2 some_room some_in in omega arith;
}

abbrev pub one_key : Ed25519
one_key = record {
  VerifyingKey = Unit;
  SigningKey = Unit;
  from_bytes = λ b. some tt;
  as_bytes = λ k. replicate 32 0;
  verify_strict = λ k m s. bytes_eq s (replicate 64 1);
  verifying_key = λ k. tt;
  sign = λ k m. replicate 64 1;
}

pub one_key-IsEd25519 : IsEd25519 one_key
one_key-IsEd25519 = record {
  from_as_bytes = λ k. refl;
  length-as_bytes = λ k. length-replicate 32 0;
  length-sign = λ k m. length-replicate 64 1;
  verify-sign = λ k m. bytes_eq_refl (replicate 64 1);
}

abbrev pub crates : Crates
crates = record {
  rng = counter;
  sha2 = padded;
  x25519 = products;
  mlkem768 = open_kem;
  sntrup761 = open_ntru;
  with_sntrup761 = true;
  primitives = clear;
  flate2 = stored;
  ed25519 = one_key;
}
