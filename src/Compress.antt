-- ===== src/Compress.antt =====
-- crates/ssh-transport/src/compress.rs: the delayed compression of payloads. The zlib streams of the
-- crate `flate2` are a parameter; what its counters say is passed on as what one call took.
-- A `Vec` has the capacity that was asked for.
pub mod Ends
use ssh_bench.Common.{
  ℕ, zero, suc, ◌+◌, ◌-◌, ◌*◌, ◌≤◌, ◌<◌, ◌≡◌, Bool, false, ◌&&◌, ◌||◌, [], ◌++◌, Option, none, some,
  Bytes, ltb, ◌==◌, bytes_eq, if◌then◌else◌, length, max, drop,
}
use ssh_bench.Error.{Result, ok, err, compression}
use ssh_bench.Packet.{max_packet_length}
use ssh_bench.Algo.Names.{compression_zlib_openssh}

-- One call of `decompress_vec`: whether the stream ended, the bytes taken and the bytes made.
pub record Inflated (D : Type 0) : Type 0 where
  pub stream_end : Bool
  pub consumed : ℕ
  pub produced : Bytes
  pub stream : D

pub record Deflated (C : Type 0) : Type 0 where
  pub consumed : ℕ
  pub produced : Bytes
  pub stream : C

-- Both calls are given the input and the room in the output; `decompress_vec` may fail.
pub record Flate2 : Type 1 where
  pub Compress : Type 0
  pub Decompress : Type 0
  pub new_compress : Compress
  pub new_decompress : Decompress
  pub compress_vec : Compress → Bytes → ℕ → Deflated Compress
  pub decompress_vec : Decompress → Bytes → ℕ → Option (Inflated Decompress)

-- What is documented of `decompress_vec`: it takes from its input and fills the room, and with both
-- it makes progress until the stream ends.
pub record IsFlate2 (z : Flate2) : Type 0 where
  pub consumed_le :
      (d : z.Decompress) (m : Bytes) (room : ℕ) (x : Inflated z.Decompress)
      → z.decompress_vec d m room ≡ some x
      → x.consumed ≤ length m
  pub produced_le :
      (d : z.Decompress) (m : Bytes) (room : ℕ) (x : Inflated z.Decompress)
      → z.decompress_vec d m room ≡ some x
      → length x.produced ≤ room
  pub progress :
      (d : z.Decompress) (m : Bytes) (room : ℕ) (x : Inflated z.Decompress)
      → z.decompress_vec d m room ≡ some x
      → x.stream_end ≡ false
      → 0 < length m
      → 0 < room
      → 0 < x.consumed + length x.produced

module _ (z : Flate2) where
  open z use {Compress, Decompress, new_compress, new_decompress, compress_vec, decompress_vec}

  pub data Compressor : Type 0 where
    off : Compressor
    zlib : Compress → Compressor

  pub data Decompressor : Type 0 where
    off : Decompressor
    zlib : Decompress → Decompressor

  unfoldable pub new_compressor : Bytes → Compressor
  new_compressor name =
      if bytes_eq name compression_zlib_openssh
      then Compressor.zlib new_compress
      else Compressor.off

  unfoldable pub new_decompressor : Bytes → Decompressor
  new_decompressor name =
      if bytes_eq name compression_zlib_openssh
      then Decompressor.zlib new_decompress
      else Decompressor.off

  -- The capacity after the growth step at the head of a round.
  unfoldable pub grown : ℕ → ℕ → ℕ → ℕ
  grown len capacity least = if len == capacity then len + max capacity least else capacity

  -- A round of the `loop` of `compress`, for the bytes taken and made so far.
  unfoldable pub deflate : ℕ → Bytes → ℕ → Bytes → ℕ → Compress → Bytes × Compress
  deflate zero payload consumed out capacity c = (out, c)
  deflate (suc fuel) payload consumed out capacity c =
      let cap = grown (length out) capacity 128 in
      let x = compress_vec c (drop consumed payload) (cap - length out) in
      let out' = out ++ x.produced in
      let consumed' = consumed + x.consumed in
      let consumed_all = consumed' == length payload in
      let no_progress = x.consumed == 0 && length x.produced == 0 in
      let rest = deflate fuel payload consumed' out' cap x.stream in
      if (consumed_all && ltb (length out') cap) || no_progress then (out', x.stream) else rest

  -- A round that goes on has filled the output or has room left and made progress; the output
  -- doubles, and `flate2` makes little more than it is given.
  abbrev pub compress_rounds : Bytes → ℕ
  compress_rounds payload = 2 * length payload + 128

  unfoldable pub compress : ℕ → Compressor → Bytes → Bytes × Compressor
  compress fuel Compressor.off payload = (payload, Compressor.off)
  compress fuel (Compressor.zlib c) payload =
      let (out, c') = deflate fuel payload 0 [] (64 + length payload) c in (out, Compressor.zlib c')

  -- What a round of the `loop` of `decompress` makes of a call, for the rest of the loop.
  -- A call that fails is taken to leave the stream as it was, which `flate2` does not say; the
  -- transport passes the error on.
  unfoldable pub inflated :
      Bytes
      → ℕ
      → Bytes
      → Decompress
      → Option (Inflated Decompress)
      → (ℕ → Bytes → Decompress → Result Bytes × Decompress)
      → Result Bytes × Decompress
  inflated payload consumed out d none rest = (err (compression "malformed compressed payload"), d)
  inflated payload consumed out d (some x) rest =
      let out' = out ++ x.produced in
      let consumed' = consumed + x.consumed in
      let consumed_all = consumed' == length payload in
      let more = rest consumed' out' x.stream in
      if ltb max_packet_length (length out')
      then (err (compression "decompressed payload too large"), x.stream)
      else if x.stream_end || (consumed_all && length x.produced == 0)
      then (ok out', x.stream)
      else more

  unfoldable pub inflate : ℕ → Bytes → ℕ → Bytes → ℕ → Decompress → Result Bytes × Decompress
  inflate zero payload consumed out capacity d = (err (compression "out of fuel"), d)
  inflate (suc fuel) payload consumed out capacity d =
      let cap = grown (length out) capacity 64 in
      inflated payload consumed out d (decompress_vec d (drop consumed payload) (cap - length out))
        (λ consumed' out' d'. inflate fuel payload consumed' out' cap d')

  -- A round that goes on takes or makes a byte, so that so many rounds are enough.
  abbrev pub inflate_rounds : Bytes → ℕ
  inflate_rounds payload = length payload + max_packet_length + 2

  unfoldable pub decompress : Decompressor → Bytes → Result Bytes × Decompressor
  decompress Decompressor.off payload = (ok payload, Decompressor.off)
  decompress (Decompressor.zlib d) payload =
      let (r, d') = inflate (inflate_rounds payload) payload 0 [] (64 + length payload * 2) d in
      (r, Decompressor.zlib d')
