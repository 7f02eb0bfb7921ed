-- ===== src/Witness/Codec.antt =====
-- The codecs of wire.rs, packet.rs, version.rs and auth.rs at concrete inputs.
use ssh_bench.Common.{
  ◌⊎◌, ℕ, zero, suc, ◌+◌, ◌%◌, ◌^◌, ◌≤◌, ◌<◌, ◌≡◌, ◌≢◌, refl, Bool, true, false, max, List, [], ◌∷◌,
  ◌++◌, Bytes, Option, none, some, if◌then◌else◌, length, inl, inr, arith, IsBytes,
}
use ssh_bench.Common
use ssh_bench.Common.Text.{codes, is_utf8}
use ssh_bench.Error.{ok}
use ssh_bench.Wire.BigEndian.{from_be, from_be_acc, to_be}
use ssh_bench.Wire.Reader.{count, usize_mod}
use ssh_bench.Wire.Reader
use ssh_bench.Wire.Writer.{Writer, ◌▸◌}
use ssh_bench.Wire.Writer
use ssh_bench.Wire.Mpint.{IsMinimal, mpint_canonical}
use ssh_bench.Wire.Fields.{Field, read_all, write_all, kinds_of, read_all-write_all}
use ssh_bench.Packet.{
  min_padding, min_packet, block_size, max_packet_length, padding_len, encode_plain_into,
  decode_plain,
}
use ssh_bench.Packet.Padding.{padding_len_fits}
use ssh_bench.Packet.RoundTrip.{
  decode_plain-encode_plain_into, decode_plain_bounds, decode_plain-append,
}
use ssh_bench.Version.{max_line, is_id, starts_with, parse_peer_id}
use ssh_bench.Version.Lines.{strip_cr}
use ssh_bench.Version.Identify.{
  IsBanner, IsIdLine, lines_bytes, parse_peer_id_finds, parse_peer_id_server, parse_peer_id_sound,
}
use ssh_bench.Version.Flood.{parse_peer_id_waits}

abbrev values : List Field
values =
    Field.byte 20
    ∷ Field.flag true
    ∷ Field.uint32 4096
    ∷ Field.text (codes "exec")
    ∷ Field.str (255 ∷ 0 ∷ [])
    ∷ []

read_all-write_all_example :
    (r : Reader.Reader) × (read_all
        (kinds_of values)
        (Reader.new (Writer.into_bytes (write_all values Writer.new)))
      ≡ ok (values, r))
    × (Reader.is_empty r ≡ true)
unfolding is_utf8 Writer.into_bytes Writer.u8 Writer.boolean Writer.u32 Writer.string Writer.new
    to_be
read_all-write_all_example =
    read_all-write_all values
      (omega arith, (tt, (omega arith, ((omega arith, refl), (omega arith, tt))))) (omega arith)

mpint_canonical_example :
    (s : Bytes) × (r : Reader.Reader) × (Reader.mpint
        (Reader.new (Writer.into_bytes (Writer.new ▸ Writer.mpint (0 ∷ 128 ∷ 1 ∷ []))))
      ≡ ok (s, r))
    × (Reader.is_empty r ≡ true)
    × (from_be s ≡ from_be (0 ∷ 128 ∷ 1 ∷ []))
    × IsMinimal s
mpint_canonical_example =
    mpint_canonical (0 ∷ 128 ∷ 1 ∷ []) (omega arith, (omega arith, (omega arith, tt))) (omega arith)

decode_plain-encode_plain_into_example :
    (s : Bytes) × (encode_plain_into (21 ∷ []) (7 ∷ []) ≡ (7 ∷ []) ++ s)
    × (length s % block_size ≡ 0)
    × (decode_plain (s ++ 9 ∷ []) ≡ ok (some (21 ∷ [], length s)))
unfolding padding_len
decode_plain-encode_plain_into_example =
    decode_plain-encode_plain_into (21 ∷ []) (7 ∷ []) (9 ∷ []) (omega arith)

abbrev newkeys_frame : Bytes
newkeys_frame = 0 ∷ 0 ∷ 0 ∷ 12 ∷ 10 ∷ 21 ∷ 0 ∷ 0 ∷ 0 ∷ 0 ∷ 0 ∷ 0 ∷ 0 ∷ 0 ∷ 0 ∷ 0 ∷ []

decode_plain_bounds_example :
    (16 ≤ length newkeys_frame) × (16 ≤ 4 + max_packet_length) × (length {A = ℕ} (21 ∷ []) + 9 ≤ 16)
unfolding decode_plain from_be_acc Common.take Common.drop
decode_plain_bounds_example = decode_plain_bounds newkeys_frame (21 ∷ []) 16 refl

decode_plain-append_example :
    decode_plain (newkeys_frame ++ 1 ∷ 2 ∷ []) ≡ decode_plain newkeys_frame
unfolding decode_plain from_be_acc Common.take Common.drop
decode_plain-append_example = decode_plain-append newkeys_frame (1 ∷ 2 ∷ []) λ e. cc

padding_len_fits_example :
    (min_padding ≤ padding_len 1 16)
    × (padding_len 1 16 ≤ 255)
    × (min_packet ≤ 4 + 1 + 1 + padding_len 1 16)
    × ((4 + 1 + 1 + padding_len 1 16) % max 16 block_size ≡ 0)
    × ((padding_len 1 16 < min_padding + max 16 block_size)
        ⊎ (4 + 1 + 1 + padding_len 1 16 < min_packet + max 16 block_size))
padding_len_fits_example = padding_len_fits 1 16 (omega arith)

abbrev banner : Bytes
banner = codes "welcome"

abbrev id_line : Bytes
id_line = codes "SSH-2.0-x" ++ 0x0d ∷ []

banner-IsBanner : IsBanner banner
unfolding Reader.count is_id strip_cr starts_with
banner-IsBanner = record { one_line = refl; short = omega arith; no_id = refl }

id_line-IsIdLine : IsIdLine id_line
unfolding Reader.count is_id strip_cr starts_with
id_line-IsIdLine = record { one_line = refl; short = omega arith; has_id = refl }

parse_peer_id_finds_example :
    parse_peer_id (lines_bytes (banner ∷ []) ++ (id_line ++ 0x0a ∷ 20 ∷ [])) true
    ≡ ok (
        some (
          record { raw = strip_cr id_line },
          length (lines_bytes (banner ∷ [])) + length id_line + 1,
        ))
parse_peer_id_finds_example =
    parse_peer_id_finds (banner ∷ []) id_line (20 ∷ []) (banner-IsBanner, tt) id_line-IsIdLine

parse_peer_id_sound_example :
    (is_id (strip_cr id_line) ≡ true)
    × (length (strip_cr id_line) < max_line)
    × (11 ≤ length (id_line ++ 0x0a ∷ []))
unfolding strip_cr is_id starts_with
parse_peer_id_sound_example =
    parse_peer_id_sound (id_line ++ 0x0a ∷ []) false (record { raw = strip_cr id_line }) 11
      (parse_peer_id_server id_line [] id_line-IsIdLine.one_line id_line-IsIdLine.short)

parse_peer_id_waits_example :
    parse_peer_id (lines_bytes (banner ∷ banner ∷ []) ++ codes "SSH-2") true ≡ ok none
unfolding Reader.count
parse_peer_id_waits_example =
    parse_peer_id_waits (banner ∷ banner ∷ []) (codes "SSH-2")
      (banner-IsBanner, (banner-IsBanner, tt)) refl (omega arith)
