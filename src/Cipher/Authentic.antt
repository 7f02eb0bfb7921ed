-- ===== src/Cipher/Authentic.antt =====
-- What `open` accepts carries a tag that the cipher's key makes.
use ssh_bench.Common.{
  ℕ, ◌+◌, ◌-◌, ◌≤◌, ◌≡◌, refl, false, bytes_eq→eq, Bytes, Option, none, some, length, take, drop,
  arith,
}
use ssh_bench.Wire.BigEndian.{from_be}
use ssh_bench.Error.{ok}
use ssh_bench.Packet.{max_packet_length}
use ssh_bench.Packet.RoundTrip.{decode_plain_bounds}
use ssh_bench.Cipher.{
  length_cipher, payload_cipher, gcm_block, chacha_block, tag_len, Primitives, Cipher, poly_key,
  poly1305_tag, strip_padding, out_of_range, chacha_checked, chacha_open, gcm_decrypted, gcm_open,
  open_packet,
}

module _ (p : Primitives) where
  -- The last 16 bytes of the `n` that were taken are the tag of what stands before them.
  abbrev pub Authentic : Cipher → ℕ → Bytes → ℕ → Type 0
  Authentic Cipher.plain seqnr buf n = Unit {0}
  Authentic (Cipher.chacha20_poly1305 k2 k1) seqnr buf n =
      poly1305_tag p (poly_key p k2 seqnr) (take (n - tag_len) buf)
      ≡ take tag_len (drop (n - tag_len) buf)
  Authentic (Cipher.aes256_gcm key iv) seqnr buf n =
      (region : Bytes) × (p.decrypt_in_place_detached key iv (take 4 buf)
          (take (n - tag_len - 4) (drop 4 buf)) (take tag_len (drop (n - tag_len) buf))
        ≡ some region)

  strip_padding-total :
      (region payload : Bytes) (packet_length total n : ℕ)
      → strip_padding region packet_length total ≡ ok (some (payload, n))
      → n ≡ total
  unfolding strip_padding
  strip_padding-total region payload packet_length total n e = ground arith

  out_of_range-bound : (n block : ℕ) → out_of_range n block ≡ false → n ≤ max_packet_length
  unfolding out_of_range
  out_of_range-bound n block h = ground arith

  -- The total that was taken, less the tag, is the length field and what it counts.
  signed_part :
      (n packet_length : ℕ) → n ≡ 4 + packet_length + tag_len → n - tag_len ≡ 4 + packet_length
  signed_part n packet_length e = omega arith

  chacha_checked_sound :
      (k2 buf payload : Bytes) (seqnr packet_length n : ℕ)
      → chacha_checked p k2 seqnr buf packet_length ≡ ok (some (payload, n))
      → (n ≡ 4 + packet_length + tag_len)
        × (poly1305_tag p (poly_key p k2 seqnr) (take (4 + packet_length) buf)
            ≡ take tag_len (drop (4 + packet_length) buf))
  unfolding chacha_checked
  chacha_checked_sound k2 buf payload seqnr packet_length n e =
      let tag = poly1305_tag p (poly_key p k2 seqnr) (take (4 + packet_length) buf) in
      let received = take tag_len (drop (4 + packet_length) buf) in
      let region = payload_cipher p k2 seqnr (take packet_length (drop 4 buf)) in
      (
        ground (
          arith,
          strip_padding-total region payload packet_length (4 + packet_length + tag_len) n,
        ),
        ground (arith, bytes_eq→eq tag received),
      )

  -- What stands behind the checks of the length.
  chacha_open-checked :
      (k2 k1 buf payload : Bytes) (seqnr n : ℕ)
      → chacha_open p k2 k1 seqnr buf ≡ ok (some (payload, n))
      → (packet_length : ℕ) × (4 + packet_length + tag_len ≤ length buf)
        × (packet_length ≤ max_packet_length)
        × (chacha_checked p k2 seqnr buf packet_length ≡ ok (some (payload, n)))
  unfolding chacha_open
  chacha_open-checked k2 k1 buf payload seqnr n e =
      let packet_length = from_be (length_cipher p k1 seqnr (take 4 buf)) in
      (
        packet_length,
        ground arith,
        ground (arith, out_of_range-bound packet_length chacha_block),
        ground arith,
      )

  gcm_decrypted_sound :
      (key iv payload : Bytes) (packet_length n : ℕ) (o : Option Bytes)
      → (gcm_decrypted p key iv packet_length o).0 ≡ ok (some (payload, n))
      → (n ≡ 4 + packet_length + tag_len) × (region : Bytes) × (o ≡ some region)
  unfolding gcm_decrypted
  gcm_decrypted_sound key iv payload packet_length n none e = cc
  gcm_decrypted_sound key iv payload packet_length n (some region) e = (
    strip_padding-total region payload packet_length (4 + packet_length + tag_len) n e,
    region,
    refl,
  )

  -- The call of the decryption that stands behind the checks of the length.
  abbrev decrypted : Bytes → Bytes → Bytes → ℕ → Option Bytes
  decrypted key iv buf packet_length =
      p.decrypt_in_place_detached key iv (take 4 buf) (take packet_length (drop 4 buf))
        (take tag_len (drop (4 + packet_length) buf))

  gcm_open-decrypted :
      (key iv buf payload : Bytes) (n : ℕ)
      → (gcm_open p key iv buf).0 ≡ ok (some (payload, n))
      → (packet_length : ℕ) × (4 + packet_length + tag_len ≤ length buf)
        × (packet_length ≤ max_packet_length)
        × ((gcm_decrypted p key iv packet_length (decrypted key iv buf packet_length)).0
            ≡ ok (some (payload, n)))
  unfolding gcm_open
  gcm_open-decrypted key iv buf payload n e =
      let packet_length = from_be (take 4 buf) in
      (
        packet_length,
        ground arith,
        ground (arith, out_of_range-bound packet_length gcm_block),
        ground arith,
      )

  -- For any bytes at all: a packet that `open` accepts lies inside the buffer, is no longer than
  -- the packet limit with its length and tag, is 9 bytes at least, and, once a cipher is in place, its tag is the one
  -- that the key makes for it at this sequence number or counter.
  pub open_packet-Authentic :
      (c : Cipher) (seqnr : ℕ) (buf payload : Bytes) (n : ℕ)
      → (open_packet p c seqnr buf).0 ≡ ok (some (payload, n))
      → (n ≤ length buf) × (n ≤ 4 + max_packet_length + tag_len) × (9 ≤ n) × Authentic c seqnr buf n
  unfolding open_packet
  open_packet-Authentic Cipher.plain seqnr buf payload n e =
      let (a, b, l) = decode_plain_bounds buf payload n e in (a, omega arith, omega arith, tt)
  open_packet-Authentic (Cipher.chacha20_poly1305 k2 k1) seqnr buf payload n e =
      let (packet_length, inside, bound, checked) =
        chacha_open-checked k2 k1 buf payload seqnr n e in
      let (total, tag) = chacha_checked_sound k2 buf payload seqnr packet_length n checked in
      (omega arith, omega arith, omega arith, rw (signed_part n packet_length total) tag)
  open_packet-Authentic (Cipher.aes256_gcm key iv) seqnr buf payload n e =
      let (packet_length, inside, bound, opened) = gcm_open-decrypted key iv buf payload n e in
      let (total, region, found) =
        gcm_decrypted_sound key iv payload packet_length n (decrypted key iv buf packet_length)
          opened in
      let rest : n - tag_len - 4 ≡ packet_length = omega arith in
      (
        omega arith,
        omega arith,
        omega arith,
        (region, rw (rest, signed_part n packet_length total) found),
      )
