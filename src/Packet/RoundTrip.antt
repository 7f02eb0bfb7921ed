-- ===== src/Packet/RoundTrip.antt =====
-- `decode_plain` on what `encode_plain_into` wrote, and on any other bytes.
use ssh_bench.Common.{
  ℕ, zero, ◌+◌, ◌-◌, ◌%◌, ◌^◌, ◌≤◌, ◌≡◌, ◌≢◌, refl, ◌∷◌, ◌++◌, none, some, Bytes, length, take,
  drop, replicate, length-append, length-take, length-drop, take-append_le, drop-append_le,
  length-replicate, take-append, append_assoc, arith,
}
use ssh_bench.Error.{ok}
use ssh_bench.Wire.BigEndian.{from_be, to_be, length-to_be, from_be-to_be_4}
use ssh_bench.Wire.Reader.{byte_at, byte_at-append}
use ssh_bench.Packet.{
  min_padding, min_packet, block_size, max_packet_length, padding_len, encode_plain_into,
  decode_body, decode_plain,
}
use ssh_bench.Packet.Padding.{padding_len_fits, padding_len_8}

-- A frame with a body of the length that its prefix says.
decode_plain-frame :
    (n pad : ℕ) (payload tail : Bytes)
    → n ≡ 1 + length payload + pad
    → min_padding ≤ pad
    → min_packet ≤ 4 + n
    → n ≤ max_packet_length
    → pad ≤ length tail
    → decode_plain (to_be 4 n ++ pad ∷ (payload ++ tail)) ≡ ok (some (payload, 4 + n))
unfolding decode_plain decode_body
decode_plain-frame n pad payload tail en hp lo hi ht =
    ground (arith, size, prefix, fifth, body, length-append payload tail)
  where
    body_bytes : Bytes
    body_bytes = pad ∷ (payload ++ tail)

    size : length (to_be 4 n ++ pad ∷ (payload ++ tail)) ≡ 5 + length (payload ++ tail)
    size = omega (arith, length-append (to_be 4 n) (pad ∷ (payload ++ tail)), length-to_be 4 n)

    prefix : from_be (take 4 (to_be 4 n ++ pad ∷ (payload ++ tail))) ≡ n
    prefix = unfold take to_be in from_be-to_be_4 n (omega arith)

    fifth : byte_at (to_be 4 n ++ pad ∷ (payload ++ tail)) 4 ≡ pad
    fifth = unfold to_be in refl

    body : take (n - pad - 1) (drop 5 (to_be 4 n ++ pad ∷ (payload ++ tail))) ≡ payload
    body =
        let e : n - pad - 1 ≡ length payload = omega arith in
        unfold drop to_be in rw e (take-append payload tail)

frame : Bytes → ℕ → Bytes
frame payload pad = to_be 4 (1 + length payload + pad) ++ pad ∷ (payload ++ replicate pad 0)

encode_plain_into-frame :
    (payload out : Bytes)
    → 1 + length payload + padding_len (length payload) block_size ≤ max_packet_length
    → encode_plain_into payload out ≡ out ++ frame payload (padding_len (length payload) block_size)
unfolding encode_plain_into frame
encode_plain_into-frame payload out h =
    let pad : ℕ = padding_len (length payload) block_size in
    let e : (1 + length payload + pad) % 2 ^ 32 ≡ 1 + length payload + pad = omega arith in
    let e' : pad % 2 ^ 8 ≡ pad = omega (arith, padding_len_8 (length payload)) in
    rw (e, e') (simp append_assoc)

length-frame : (payload : Bytes) (pad : ℕ) → length (frame payload pad) ≡ 5 + length payload + pad
unfolding frame
length-frame payload pad = omega (
  arith,
  length-append (to_be 4 (1 + length payload + pad)) (pad ∷ (payload ++ replicate pad 0)),
  length-append payload (replicate pad 0),
  length-to_be 4 (1 + length payload + pad),
  length-replicate pad (zero),
)

decode_plain-frame_rest :
    (payload rest : Bytes) (pad : ℕ)
    → min_padding ≤ pad
    → min_packet ≤ 4 + 1 + length payload + pad
    → 1 + length payload + pad ≤ max_packet_length
    → decode_plain (frame payload pad ++ rest) ≡ ok (some (payload, length (frame payload pad)))
decode_plain-frame_rest payload rest pad hp lo hi =
    let n : ℕ = 1 + length payload + pad in
    let e : frame payload pad ++ rest ≡ to_be 4 n ++ pad ∷ (payload ++ (replicate pad 0 ++ rest)) =
      unfold frame in simp append_assoc in
    let total : length (frame payload pad) ≡ 4 + n = omega (arith, length-frame payload pad) in
    rw (e, total)
      (decode_plain-frame n pad payload (replicate pad 0 ++ rest) refl hp (omega arith) hi
        (omega (arith, length-append (replicate pad (zero)) rest, length-replicate pad (zero))))

-- For every payload that fits the packet limit, `encode_plain_into` appends one frame, whose
-- length is a multiple of 8, and `decode_plain` finds in that frame, whatever follows it, the
-- payload and the frame's length.
pub decode_plain-encode_plain_into :
    (payload out rest : Bytes)
    → 1 + length payload + padding_len (length payload) block_size ≤ max_packet_length
    → (s : Bytes) × (encode_plain_into payload out ≡ out ++ s)
      × (length s % block_size ≡ 0)
      × (decode_plain (s ++ rest) ≡ ok (some (payload, length s)))
decode_plain-encode_plain_into payload out rest h =
    let pad : ℕ = padding_len (length payload) block_size in
    let fits = padding_len_fits (length payload) block_size (omega arith) in
    (
      frame payload pad,
      encode_plain_into-frame payload out h,
      omega (arith, fits.3, length-frame payload pad),
      decode_plain-frame_rest payload rest pad fits.0 fits.2 h,
    )

-- What `decode_plain` accepts lies inside the buffer and within the packet limit, and leaves room
-- for the length, the padding length and the least padding.
pub decode_plain_bounds :
    (buf payload : Bytes) (n : ℕ)
    → decode_plain buf ≡ ok (some (payload, n))
    → (n ≤ length buf) × (n ≤ 4 + max_packet_length) × (length payload + 9 ≤ n)
unfolding decode_plain decode_body
decode_plain_bounds buf payload n e =
    ground (
      arith,
      length-take (from_be (take 4 buf) - byte_at buf 4 - 1) (drop 5 buf),
      length-drop 5 buf,
    )

-- Once `decode_plain` has answered with a packet or an error, more bytes change nothing.
pub decode_plain-append :
    (buf more : Bytes) → decode_plain buf ≢ ok none → decode_plain (buf ++ more) ≡ decode_plain buf
unfolding decode_plain decode_body
decode_plain-append buf more h = ground (
  arith,
  take-append_le 4 buf more,
  length-append buf more,
  byte_at-append 4 buf more,
  drop-append_le 5 buf more,
  take-append_le (from_be (take 4 buf) - byte_at buf 4 - 1) (drop 5 buf) more,
  length-drop 5 buf,
)
