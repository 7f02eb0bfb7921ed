-- ===== src/Packet.antt =====
-- crates/ssh-transport/src/packet.rs: the framing of packets before the first NEWKEYS.
-- Lengths are `usize` numbers far below 2^64 and do not wrap; `as u32` and `as u8` do.
pub mod Padding
pub mod RoundTrip
use ssh_bench.Common.{
  ℕ, zero, suc, ◌+◌, ◌-◌, ◌*◌, ◌%◌, ◌^◌, max, Bool, ◌||◌, not, ◌&&◌, List, [], ◌∷◌, ◌++◌, Option,
  none, some, Bytes, ltb, leb, if◌then◌else◌, length, take, drop, replicate,
}
use ssh_bench.Error.{Result, ok, err, bad_packet}
use ssh_bench.Wire.BigEndian.{from_be, to_be}
use ssh_bench.Wire.Reader.{byte_at}

abbrev pub min_padding : ℕ
min_padding = 4

abbrev pub min_packet : ℕ
min_packet = 16

abbrev pub block_size : ℕ
block_size = 8

abbrev pub max_packet_length : ℕ
max_packet_length = 1024 * 1024

-- The `while` loop of `padding_len`. Each round adds a block of at least 8, so that two rounds
-- are enough from a padding of 4 on.
unfoldable pub grow_padding : ℕ → ℕ → ℕ → ℕ → ℕ
grow_padding zero payload_len block pad = pad
grow_padding (suc fuel) payload_len block pad =
    let more = grow_padding fuel payload_len block (pad + block) in
    if ltb (4 + 1 + payload_len + pad) min_packet then more else pad

unfoldable pub padding_len : ℕ → ℕ → ℕ
unfolding grow_padding
padding_len payload_len block0 =
    let block = max block0 block_size in
    let unpadded = 4 + 1 + payload_len in
    let pad = block - unpadded % block in
    let pad' = if ltb pad min_padding then pad + block else pad in
    grow_padding 2 payload_len block pad'

unfoldable pub encode_plain_into : Bytes → Bytes → Bytes
encode_plain_into payload out =
    let pad = padding_len (length payload) block_size in
    let packet_length = 1 + length payload + pad in
    out ++ to_be 4 (packet_length % 2 ^ 32) ++ (pad % 2 ^ 8) ∷ [] ++ payload ++ replicate pad 0

-- From `let total = 4 + packet_length` on.
unfoldable pub decode_body : Bytes → ℕ → Result (Option (Bytes × ℕ))
decode_body buf packet_length =
    let total = 4 + packet_length in
    if ltb (length buf) total
    then ok none
    else (let padding_length = byte_at buf 4 in
        if ltb padding_length min_padding || ltb packet_length (padding_length + 1)
        then err (bad_packet "invalid padding_length")
        else ok (some (take (packet_length - padding_length - 1) (drop 5 buf), total)))

unfoldable pub decode_plain : Bytes → Result (Option (Bytes × ℕ))
unfolding decode_body
decode_plain buf =
    if ltb (length buf) 4
    then ok none
    else (let packet_length = from_be (take 4 buf) in
        if not (leb (min_packet - 4) packet_length && leb packet_length max_packet_length)
        then err (bad_packet "packet_length out of range")
        else decode_body buf packet_length)
