-- ===== src/Version/Flood.antt =====
-- How many bytes the client buffers while no identification has come.
use ssh_bench.Common.{
  ◌-◌, ◌*◌, ◌≤◌, ◌≡◌, ◌∙◌, true, false, ltb, List, ◌++◌, none, Bytes, length, length-append, drop,
  drop-append, le→ltb, arith,
}
use ssh_bench.Error.{ok}
use ssh_bench.Wire.Reader.{count}
use ssh_bench.Version.{max_line, position, parse_loop, parse_peer_id}
use ssh_bench.Version.Lines.{position-none}
use ssh_bench.Version.Identify.{lines_bytes, AllBanners, parse_peer_id-banners}

-- Behind any number of complete banner lines and an incomplete one, the client asks for more
-- bytes and consumes none, so that all of them stay buffered: the length that the guard against a
-- flood measures is that of the incomplete line alone.
pub parse_peer_id_waits :
    (banners : List Bytes) (t : Bytes)
    → AllBanners banners
    → count 0x0a t ≡ 0
    → length t ≤ max_line * 64
    → parse_peer_id (lines_bytes banners ++ t) true ≡ ok none
unfolding parse_loop
parse_peer_id_waits banners t hb h short =
    let (fuel, e) = parse_peer_id-banners banners t hb in
    let b : Bytes = lines_bytes banners in
    let left : ltb (max_line * 64) (length (b ++ t) - length b) ≡ false =
      le→ltb _ _ (omega (arith, length-append b t)) in
    let missing : position 0x0a (drop (length b) (b ++ t)) ≡ none =
      rw (drop-append b t) (position-none 0x0a t h) in
    e ∙ rw (missing, parse_loop, left)
