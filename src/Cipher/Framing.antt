-- ===== src/Cipher/Framing.antt =====
-- The padding of an AEAD packet, and the region that it fills.
use ssh_bench.Common.{
  ℕ, suc, ◌+◌, ◌-◌, ◌%◌, ◌≤◌, ◌<◌, ◌≡◌, false, ◌∷◌, ◌++◌, Bytes, some, length, take, drop,
  take-append, arith,
}
use ssh_bench.Error.{ok}
use ssh_bench.Packet.{min_padding, max_packet_length}
use ssh_bench.Cipher.{chacha_block, gcm_block, aead_padding_len, strip_padding, out_of_range}

-- For every payload length and both block sizes: the padding is 4 at least and below 24, and the
-- region of padding length, payload and padding is a positive multiple of the block.
pub aead_padding_len_fits :
    (n : ℕ)
    → (min_padding ≤ aead_padding_len n chacha_block)
      × (aead_padding_len n chacha_block < 24)
      × ((1 + n + aead_padding_len n chacha_block) % chacha_block ≡ 0)
      × (min_padding ≤ aead_padding_len n gcm_block)
      × (aead_padding_len n gcm_block < 24)
      × ((1 + n + aead_padding_len n gcm_block) % gcm_block ≡ 0)
unfolding aead_padding_len
aead_padding_len_fits n =
    (ground arith, ground arith, ground arith, ground arith, ground arith, ground arith)

pub in_range :
    (n block : ℕ) → n % block ≡ 0 → block ≤ n → n ≤ max_packet_length → out_of_range n block ≡ false
unfolding out_of_range
in_range n block h lo hi = ground arith

pub strip_padding-region :
    (pad total : ℕ) (payload padding : Bytes)
    → min_padding ≤ pad
    → length padding ≡ pad
    → strip_padding (pad ∷ (payload ++ padding)) (1 + length payload + pad) total
      ≡ ok (some (payload, total))
unfolding strip_padding
strip_padding-region pad total payload padding hp hl =
    let e : 1 + length payload + pad - pad ≡ 1 + length payload = omega arith in
    let body : drop 1 (take (1 + length payload) (pad ∷ (payload ++ padding))) ≡ payload =
      let s : 1 + length payload ≡ suc (length payload) = omega arith in
      unfold take drop in rw s (take-append payload padding) in
    ground (arith, e, body)
