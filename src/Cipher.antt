-- ===== src/Cipher.antt =====
-- crates/ssh-transport/src/cipher.rs: the packet cipher of one direction, and the framing under it.
-- The primitives of the crates `chacha20`, `poly1305`, `aes-gcm` and `sha3` are a parameter.
-- Lengths are `usize` numbers far below 2^64 and do not wrap; `as u32` and `as u8` do. The result
-- of a method on `&mut self` stands beside the cipher that it leaves.
pub mod Framing
pub mod RoundTrip
pub mod Authentic
use ssh_bench.Common.{
  ℕ, zero, suc, ◌+◌, ◌-◌, ◌%◌, ◌^◌, ◌≡◌, Bool, ◌||◌, not, [], ◌∷◌, ◌++◌, Option, none, some, Bytes,
  ltb, ◌==◌, bytes_eq, if◌then◌else◌, length, take, drop, replicate,
}
use ssh_bench.Error.{Result, ok, err, bad_packet, no_common_algorithm, kex, integrity}
use ssh_bench.Rng.{Rng}
use ssh_bench.Wire.BigEndian.{from_be, to_be}
use ssh_bench.Wire.Reader.{byte_at}
use ssh_bench.Packet.{min_padding, max_packet_length, encode_plain_into, decode_plain}
use ssh_bench.Algo.Names.{cipher_aes256_gcm, cipher_chacha20_poly1305}

abbrev pub tag_len : ℕ
tag_len = 16

abbrev pub chacha_block : ℕ
chacha_block = 8

abbrev pub gcm_block : ℕ
gcm_block = 16

-- `ChaCha20Legacy` under a key and a nonce, from a byte offset of its key stream; `Poly1305` under
-- a key; AES-256-GCM under a key and a nonce, with the associated data first; SHAKE128 read to a
-- length.
pub record Primitives : Type 0 where
  pub apply_keystream : Bytes → Bytes → ℕ → Bytes → Bytes
  pub compute_unpadded : Bytes → Bytes → Bytes
  pub encrypt_in_place_detached : Bytes → Bytes → Bytes → Bytes → Bytes × Bytes
  pub decrypt_in_place_detached : Bytes → Bytes → Bytes → Bytes → Bytes → Option Bytes
  pub shake128 : Bytes → ℕ → Bytes

-- What is documented of them.
pub record IsPrimitives (p : Primitives) : Type 0 where
  pub apply_keystream_twice :
      (k n : Bytes) (o : ℕ) (m : Bytes) → p.apply_keystream k n o (p.apply_keystream k n o m) ≡ m
  pub length-apply_keystream :
      (k n : Bytes) (o : ℕ) (m : Bytes) → length (p.apply_keystream k n o m) ≡ length m
  pub length-compute_unpadded : (k m : Bytes) → length (p.compute_unpadded k m) ≡ tag_len
  pub length-encrypt : (k n a m : Bytes) → length (p.encrypt_in_place_detached k n a m).0 ≡ length m
  pub length-tag : (k n a m : Bytes) → length (p.encrypt_in_place_detached k n a m).1 ≡ tag_len
  pub decrypt-encrypt :
      (k n a m : Bytes)
      → p.decrypt_in_place_detached k n a
          (p.encrypt_in_place_detached k n a m).0
          (p.encrypt_in_place_detached k n a m).1
        ≡ some m
  pub length-shake128 : (m : Bytes) (n : ℕ) → length (p.shake128 m n) ≡ n

unfoldable pub aead_padding_len : ℕ → ℕ → ℕ
aead_padding_len payload_len block =
    let unpadded = 1 + payload_len in
    let pad = block - unpadded % block in if ltb pad min_padding then pad + block else pad

pub data Cipher : Type 0 where
  plain : Cipher
  chacha20_poly1305 : (k2 k1 : Bytes) → Cipher
  aes256_gcm : (key iv : Bytes) → Cipher

unfoldable pub key_len : Bytes → Result ℕ
key_len name =
    if bytes_eq name cipher_chacha20_poly1305
    then ok 64
    else if bytes_eq name cipher_aes256_gcm
    then ok 32
    else err (no_common_algorithm "cipher")

unfoldable pub iv_len : Bytes → Result ℕ
iv_len name =
    if bytes_eq name cipher_chacha20_poly1305
    then ok 0
    else if bytes_eq name cipher_aes256_gcm
    then ok 12
    else err (no_common_algorithm "cipher")

-- `Cipher::new`
unfoldable pub new : Bytes → Bytes → Bytes → Result Cipher
new name key iv =
    if bytes_eq name cipher_chacha20_poly1305
    then (if not (length key == 64)
        then err (kex "chacha20-poly1305 needs 64 key bytes")
        else ok (Cipher.chacha20_poly1305 (take 32 key) (take 32 (drop 32 key))))
    else (if bytes_eq name cipher_aes256_gcm
        then (if not (length key == 32) || not (length iv == 12)
            then err (kex "aes256-gcm needs 32 key + 12 IV bytes")
            else ok (Cipher.aes256_gcm key iv))
        else err (no_common_algorithm "cipher"))

-- The sequence number as a big-endian `u64`.
unfoldable pub nonce : ℕ → Bytes
nonce seqnr = to_be 8 seqnr

-- `wrapping_add` on the trailing 8 bytes.
unfoldable pub gcm_increment : Bytes → Bytes
gcm_increment iv = take 4 iv ++ to_be 8 ((from_be (take 8 (drop 4 iv)) + 1) % 2 ^ 64)

-- From the length bytes on, both ciphers refuse a padding length out of range, drop the padding,
-- then the leading byte.
unfoldable pub strip_padding : Bytes → ℕ → ℕ → Result (Option (Bytes × ℕ))
strip_padding region packet_length total =
    let padding_length = byte_at region 0 in
    if ltb padding_length min_padding || ltb packet_length (padding_length + 1)
    then err (bad_packet "invalid padding_length")
    else ok (some (drop 1 (take (packet_length - padding_length) region), total))

unfoldable pub out_of_range : ℕ → ℕ → Bool
out_of_range packet_length block =
    ltb packet_length block
    || not (packet_length % block == 0)
    || ltb max_packet_length packet_length

module _ (p : Primitives) where
  open p use {
    apply_keystream, compute_unpadded, encrypt_in_place_detached, decrypt_in_place_detached,
    shake128,
  }

  -- The bytes that the padding ends up with: two draws, hashed.
  unfoldable pub random_padding : (r : Rng) → ℕ → r.State → Bytes × r.State
  random_padding r pad rng =
      let (first, rng') = r.fill_bytes pad rng in
      let (second, rng'') = r.fill_bytes pad rng' in (shake128 (first ++ second) pad, rng'')

  unfoldable pub length_cipher : Bytes → ℕ → Bytes → Bytes
  length_cipher k1 seqnr = apply_keystream k1 (nonce seqnr) 0

  unfoldable pub poly_key : Bytes → ℕ → Bytes
  poly_key k2 seqnr = apply_keystream k2 (nonce seqnr) 0 (replicate 32 0)

  unfoldable pub payload_cipher : Bytes → ℕ → Bytes → Bytes
  payload_cipher k2 seqnr = apply_keystream k2 (nonce seqnr) 64

  unfoldable pub poly1305_tag : Bytes → Bytes → Bytes
  poly1305_tag key bytes = compute_unpadded key bytes

  -- The frame of `chacha20-poly1305`, for the padding that was drawn.
  unfoldable pub chacha_frame : Bytes → Bytes → ℕ → Bytes → Bytes → Bytes
  chacha_frame k2 k1 seqnr payload padding =
      let pad = aead_padding_len (length payload) chacha_block in
      let packet_length = (1 + length payload + pad) % 2 ^ 32 in
      let len_bytes = length_cipher k1 seqnr (to_be 4 packet_length) in
      let region = payload_cipher k2 seqnr ((pad % 2 ^ 8) ∷ (payload ++ padding)) in
      let tag = poly1305_tag (poly_key k2 seqnr) (len_bytes ++ region) in len_bytes ++ region ++ tag

  -- The frame of `gcm_seal_into`, for the padding that was drawn.
  unfoldable pub gcm_frame : Bytes → Bytes → Bytes → Bytes → Bytes
  gcm_frame key iv payload padding =
      let pad = aead_padding_len (length payload) gcm_block in
      let aad = to_be 4 ((1 + length payload + pad) % 2 ^ 32) in
      let (region, tag) =
        encrypt_in_place_detached key iv aad ((pad % 2 ^ 8) ∷ (payload ++ padding)) in
      aad ++ region ++ tag

  unfoldable pub seal_into :
      (r : Rng) → Cipher → ℕ → Bytes → r.State → Bytes → Cipher × Bytes × r.State
  seal_into r Cipher.plain seqnr payload rng out =
      (Cipher.plain, encode_plain_into payload out, rng)
  seal_into r (Cipher.aes256_gcm key iv) seqnr payload rng out =
      let (padding, rng') = random_padding r (aead_padding_len (length payload) gcm_block) rng in
      (Cipher.aes256_gcm key (gcm_increment iv), out ++ gcm_frame key iv payload padding, rng')
  seal_into r (Cipher.chacha20_poly1305 k2 k1) seqnr payload rng out =
      let (padding, rng') = random_padding r (aead_padding_len (length payload) chacha_block) rng in
      (Cipher.chacha20_poly1305 k2 k1, out ++ chacha_frame k2 k1 seqnr payload padding, rng')

  -- From the comparison of the tags on.
  unfoldable pub chacha_checked : Bytes → ℕ → Bytes → ℕ → Result (Option (Bytes × ℕ))
  chacha_checked k2 seqnr buf packet_length =
      let total = 4 + packet_length + tag_len in
      let tag = poly1305_tag (poly_key k2 seqnr) (take (4 + packet_length) buf) in
      let received = take tag_len (drop (4 + packet_length) buf) in
      if not (bytes_eq tag received)
      then err integrity
      else strip_padding (payload_cipher k2 seqnr (take packet_length (drop 4 buf))) packet_length
          total

  unfoldable pub chacha_open : Bytes → Bytes → ℕ → Bytes → Result (Option (Bytes × ℕ))
  chacha_open k2 k1 seqnr buf =
      if ltb (length buf) 4
      then ok none
      else (let packet_length = from_be (length_cipher k1 seqnr (take 4 buf)) in
          if out_of_range packet_length chacha_block
          then err (bad_packet "packet_length out of range")
          else if ltb (length buf) (4 + packet_length + tag_len)
          then ok none
          else chacha_checked k2 seqnr buf packet_length)

  -- The counter moves on before the padding is looked at.
  unfoldable pub gcm_decrypted :
      Bytes → Bytes → ℕ → Option Bytes → Result (Option (Bytes × ℕ)) × Cipher
  gcm_decrypted key iv packet_length none = (err integrity, Cipher.aes256_gcm key iv)
  gcm_decrypted key iv packet_length (some region) = (
    strip_padding region packet_length (4 + packet_length + tag_len),
    Cipher.aes256_gcm key (gcm_increment iv),
  )

  unfoldable pub gcm_open : Bytes → Bytes → Bytes → Result (Option (Bytes × ℕ)) × Cipher
  gcm_open key iv buf =
      if ltb (length buf) 4
      then (ok none, Cipher.aes256_gcm key iv)
      else (let packet_length = from_be (take 4 buf) in
          if out_of_range packet_length gcm_block
          then (err (bad_packet "packet_length out of range"), Cipher.aes256_gcm key iv)
          else if ltb (length buf) (4 + packet_length + tag_len)
          then (ok none, Cipher.aes256_gcm key iv)
          else gcm_decrypted key iv packet_length (
              decrypt_in_place_detached key iv (take 4 buf) (take packet_length (drop 4 buf))
                (take tag_len (drop (4 + packet_length) buf))))

  -- `Cipher::open`
  unfoldable pub open_packet : Cipher → ℕ → Bytes → Result (Option (Bytes × ℕ)) × Cipher
  open_packet Cipher.plain seqnr buf = (decode_plain buf, Cipher.plain)
  open_packet (Cipher.aes256_gcm key iv) seqnr buf = gcm_open key iv buf
  open_packet (Cipher.chacha20_poly1305 k2 k1) seqnr buf =
      (chacha_open k2 k1 seqnr buf, Cipher.chacha20_poly1305 k2 k1)
