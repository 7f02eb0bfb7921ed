-- ===== src/Cipher/RoundTrip.antt =====
-- What `seal_into` appends, `open` reads back, and both ciphers then stand at the same counter.
use ssh_bench.Common.{
  ℕ, ◌+◌, ◌%◌, ◌^◌, ◌≤◌, ◌≡◌, refl, sym, ap, ◌∙◌, false, ◌∷◌, ◌++◌, Bytes, some, ltb, length, take,
  drop, length-append, take_exact, drop_exact, append_assoc, bytes_eq_refl, arith,
}
use ssh_bench.Error.{ok}
use ssh_bench.Rng.{Rng}
use ssh_bench.Wire.BigEndian.{from_be, to_be, length-to_be, from_be-to_be_4}
use ssh_bench.Packet.{max_packet_length, block_size, padding_len}
use ssh_bench.Packet.Padding.{padding_len_8}
use ssh_bench.Packet.RoundTrip.{decode_plain-encode_plain_into}
use ssh_bench.Cipher.{
  tag_len, chacha_block, gcm_block, Primitives, IsPrimitives, aead_padding_len, Cipher, nonce,
  gcm_increment, strip_padding, out_of_range, random_padding, length_cipher, poly_key,
  payload_cipher, poly1305_tag, chacha_frame, gcm_frame, seal_into, chacha_checked, chacha_open,
  gcm_decrypted, gcm_open, open_packet,
}
use ssh_bench.Cipher.Framing.{aead_padding_len_fits, in_range, strip_padding-region}

-- A frame of a head of 4 bytes, a region of `n`, and a tag of 16, and what follows it.
module _ (head region tag rest : Bytes) (n : ℕ) (h4 : length head ≡ 4) (hn : length region ≡ n)
    (h16 : length tag ≡ tag_len) where
  abbrev buf : Bytes
  buf = head ++ region ++ tag ++ rest

  length-frame : length (head ++ region ++ tag) ≡ 4 + n + tag_len
  length-frame =
      omega (arith, length-append (head ++ region) tag, length-append head region, h4, hn, h16)

  short_buf : ltb (length buf) (4 + n + tag_len) ≡ false
  short_buf = ground (arith, length-frame, length-append (head ++ region ++ tag) rest)

  short_head : ltb (length buf) 4 ≡ false
  short_head = ground (arith, length-frame, length-append (head ++ region ++ tag) rest)

  buf_head : buf ≡ head ++ (region ++ (tag ++ rest))
  buf_head = simp append_assoc

  take-head : take 4 buf ≡ head
  take-head = ap (take 4) buf_head ∙ take_exact 4 head (region ++ (tag ++ rest)) h4

  drop-head : drop 4 buf ≡ region ++ (tag ++ rest)
  drop-head = ap (drop 4) buf_head ∙ drop_exact 4 head (region ++ (tag ++ rest)) h4

  take-region : take n (drop 4 buf) ≡ region
  take-region = ap (take n) drop-head ∙ take_exact n region (tag ++ rest) hn

  signed : length (head ++ region) ≡ 4 + n
  signed = omega (arith, length-append head region, h4, hn)

  buf_signed : buf ≡ (head ++ region) ++ (tag ++ rest)
  buf_signed = append_assoc (head ++ region) tag rest

  take-signed : take (4 + n) buf ≡ head ++ region
  take-signed =
      ap (take (4 + n)) buf_signed ∙ take_exact (4 + n) (head ++ region) (tag ++ rest) signed

  take-tag : take tag_len (drop (4 + n) buf) ≡ tag
  take-tag =
      ap (λ t. take tag_len (drop (4 + n) t)) buf_signed
      ∙ ap (take tag_len) (drop_exact (4 + n) (head ++ region) (tag ++ rest) signed)
      ∙ take_exact tag_len tag rest h16

module _ (p : Primitives) where
  -- A frame whose length, tag and padding are right.
  chacha_open-frame :
      (k2 k1 : Bytes) (seqnr : ℕ) (head region tag rest : Bytes) (n : ℕ) (h4 : length head ≡ 4)
      (hn : length region ≡ n) (h16 : length tag ≡ tag_len)
      → from_be (length_cipher p k1 seqnr head) ≡ n
      → out_of_range n chacha_block ≡ false
      → poly1305_tag p (poly_key p k2 seqnr) (head ++ region) ≡ tag
      → chacha_open p k2 k1 seqnr (head ++ region ++ tag ++ rest)
        ≡ strip_padding (payload_cipher p k2 seqnr region) n (4 + n + tag_len)
  unfolding chacha_open chacha_checked
  chacha_open-frame k2 k1 seqnr head region tag rest n h4 hn h16 en good et =
      rw
        (
          short_head head region tag rest n h4 hn h16,
          take-head head region tag rest n h4 hn h16,
          en,
          good,
          short_buf head region tag rest n h4 hn h16,
          take-signed head region tag rest n h4 hn h16,
          et,
          take-tag head region tag rest n h4 hn h16,
          bytes_eq_refl tag,
          take-region head region tag rest n h4 hn h16,
        )
        refl

  gcm_open-frame :
      (key iv head region tag rest plain : Bytes) (n : ℕ) (h4 : length head ≡ 4)
      (hn : length region ≡ n) (h16 : length tag ≡ tag_len)
      → from_be head ≡ n
      → out_of_range n gcm_block ≡ false
      → p.decrypt_in_place_detached key iv head region tag ≡ some plain
      → gcm_open p key iv (head ++ region ++ tag ++ rest)
        ≡ (strip_padding plain n (4 + n + tag_len), Cipher.aes256_gcm key (gcm_increment iv))
  unfolding gcm_open gcm_decrypted
  gcm_open-frame key iv head region tag rest plain n h4 hn h16 en good ed =
      rw
        (
          short_head head region tag rest n h4 hn h16,
          take-head head region tag rest n h4 hn h16,
          en,
          good,
          short_buf head region tag rest n h4 hn h16,
          take-tag head region tag rest n h4 hn h16,
          take-region head region tag rest n h4 hn h16,
          ed,
        )
        refl

module _ {p : Primitives} (hp : IsPrimitives p) where
  chacha_open-chacha_frame :
      (k2 k1 : Bytes) (seqnr : ℕ) (payload padding rest : Bytes)
      → 25 + length payload ≤ max_packet_length
      → length padding ≡ aead_padding_len (length payload) chacha_block
      → chacha_open p k2 k1 seqnr (chacha_frame p k2 k1 seqnr payload padding ++ rest)
        ≡ ok (some (payload, length (chacha_frame p k2 k1 seqnr payload padding)))
  unfolding chacha_frame chacha_open chacha_checked length_cipher payload_cipher
  chacha_open-chacha_frame k2 k1 seqnr payload padding rest size hl =
      let pad = aead_padding_len (length payload) chacha_block in
      let fits = aead_padding_len_fits (length payload) in
      let n = 1 + length payload + pad in
      let e32 : n % 2 ^ 32 ≡ n = omega (arith, fits) in
      let e8 : pad % 2 ^ 8 ≡ pad = omega (arith, fits) in
      let plain = pad ∷ (payload ++ padding) in
      let head = p.apply_keystream k1 (nonce seqnr) 0 (to_be 4 n) in
      let region = p.apply_keystream k2 (nonce seqnr) 64 plain in
      let tag = poly1305_tag p (poly_key p k2 seqnr) (head ++ region) in
      let lp : length plain ≡ n = omega (arith, hl, length-append payload padding) in
      let h4 : length head ≡ 4 = hp.length-apply_keystream _ _ _ _ ∙ length-to_be 4 n in
      let hn : length region ≡ n = hp.length-apply_keystream _ _ _ _ ∙ lp in
      let h16 : length tag ≡ tag_len = unfold poly1305_tag in hp.length-compute_unpadded _ _ in
      let en : from_be (p.apply_keystream k1 (nonce seqnr) 0 head) ≡ n =
        ap from_be (hp.apply_keystream_twice k1 (nonce seqnr) 0 (to_be 4 n))
        ∙ from_be-to_be_4 n (omega (arith, fits)) in
      let good : out_of_range n chacha_block ≡ false =
        in_range n chacha_block (fits.2) (omega (arith, fits)) (omega (arith, fits)) in
      rw (e32, e8)
        (chacha_open-frame p k2 k1 seqnr head region tag rest n h4 hn h16 en good refl
          ∙ ap (λ t. strip_padding t n (4 + n + tag_len))
              (hp.apply_keystream_twice k2 (nonce seqnr) 64 plain)
          ∙ strip_padding-region pad (4 + n + tag_len) payload padding (fits.0) hl
          ∙ ap (λ t. ok (some (payload, t))) (sym (length-frame head region tag rest n h4 hn h16)))

  gcm_open-gcm_frame :
      (key iv payload padding rest : Bytes)
      → 25 + length payload ≤ max_packet_length
      → length padding ≡ aead_padding_len (length payload) gcm_block
      → gcm_open p key iv (gcm_frame p key iv payload padding ++ rest) ≡ (
        ok (some (payload, length (gcm_frame p key iv payload padding))),
        Cipher.aes256_gcm key (gcm_increment iv),
      )
  unfolding gcm_frame
  gcm_open-gcm_frame key iv payload padding rest size hl =
      let pad = aead_padding_len (length payload) gcm_block in
      let fits = aead_padding_len_fits (length payload) in
      let n = 1 + length payload + pad in
      let e32 : n % 2 ^ 32 ≡ n = omega (arith, fits) in
      let e8 : pad % 2 ^ 8 ≡ pad = omega (arith, fits) in
      let plain = pad ∷ (payload ++ padding) in
      let head = to_be 4 n in
      let sealed = p.encrypt_in_place_detached key iv head plain in
      let lp : length plain ≡ n = omega (arith, hl, length-append payload padding) in
      let h4 : length head ≡ 4 = length-to_be 4 n in
      let hn : length sealed.0 ≡ n = hp.length-encrypt _ _ _ _ ∙ lp in
      let h16 : length sealed.1 ≡ tag_len = hp.length-tag _ _ _ _ in
      let en : from_be head ≡ n = from_be-to_be_4 n (omega (arith, fits)) in
      let good : out_of_range n gcm_block ≡ false =
        in_range n gcm_block (fits.5) (omega (arith, fits)) (omega (arith, fits)) in
      rw (e32, e8)
        (gcm_open-frame p key iv head sealed.0 sealed.1 rest plain n h4 hn h16 en good
            (hp.decrypt-encrypt key iv head plain)
          ∙ ap (λ t. (t, Cipher.aes256_gcm key (gcm_increment iv)))
              (strip_padding-region pad (4 + n + tag_len) payload padding (fits.3) hl
                ∙ ap (λ t. ok (some (payload, t)))
                    (sym (length-frame head sealed.0 sealed.1 rest n h4 hn h16))))

  -- With primitives that keep their contracts, for every cipher, generator, sequence number and
  -- payload that leaves room for the padding in the packet limit: `seal_into` appends one frame,
  -- and `open` finds in that frame, whatever follows it, the payload and the frame's length, and
  -- leaves the reader's cipher in the state in which sealing left the writer's.
  pub open_packet-seal_into :
      (r : Rng) (c : Cipher) (seqnr : ℕ) (payload : Bytes) (rng : r.State) (out rest : Bytes)
      → 25 + length payload ≤ max_packet_length
      → (s : Bytes) × ((seal_into p r c seqnr payload rng out).1 ≡ out ++ s)
        × (open_packet p c seqnr (s ++ rest)
            ≡ (ok (some (payload, length s)), (seal_into p r c seqnr payload rng out).0))
  unfolding seal_into open_packet random_padding
  open_packet-seal_into r Cipher.plain seqnr payload rng out rest size =
      let pad : ℕ = padding_len (length payload) block_size in
      let (s, e, _, d) =
        decode_plain-encode_plain_into payload out rest
          (omega (arith, padding_len_8 (length payload))) in
      (s, e, ap (λ t. (t, Cipher.plain)) d)
  open_packet-seal_into r (Cipher.aes256_gcm key iv) seqnr payload rng out rest size =
      (_, refl, gcm_open-gcm_frame key iv payload _ rest size (hp.length-shake128 _ _))
  open_packet-seal_into r (Cipher.chacha20_poly1305 k2 k1) seqnr payload rng out rest size = (
    _,
    refl,
    ap (λ t. (t, Cipher.chacha20_poly1305 k2 k1))
        (chacha_open-chacha_frame k2 k1 seqnr payload _ rest size (hp.length-shake128 _ _)),
  )
