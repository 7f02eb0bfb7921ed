-- ===== src/Version.antt =====
-- crates/ssh-transport/src/version.rs: the identification line.
pub mod Lines
pub mod Identify
pub mod Flood
use ssh_bench.Common.{
  ℕ, zero, suc, ◌+◌, ◌-◌, ◌*◌, Bool, true, false, not, ◌&&◌, ◌||◌, List, [], ◌∷◌, ◌++◌, Option,
  none, some, Bytes, ltb, leb, ◌==◌, if◌then◌else◌, length, take, drop,
}
use ssh_bench.Common.Text.{codes}
use ssh_bench.Error.{Result, ok, err, bad_version}
use ssh_bench.Wire.Reader.{byte_at}

unfoldable pub local_id : Bytes
local_id = codes "SSH-2.0-rust_ssh_0.1.0"

abbrev pub max_line : ℕ
max_line = 255

pub record PeerId : Type 0 where
  pub raw : Bytes

unfoldable pub local_id_line : Bytes
unfolding local_id
local_id_line = local_id ++ 0x0d ∷ 0x0a ∷ []

-- `s.iter().position(|&b| b == c)`
unfoldable pub position : ℕ → Bytes → Option ℕ
position c [] = none
position c (b ∷ bs) =
    let rest : Option ℕ = elim (position c bs) [ none ↦ none | some i ↦ some (suc i) ] in
    if b == c then some 0 else rest

unfoldable pub starts_with : Bytes → Bytes → Bool
starts_with s [] = true
starts_with [] (p ∷ ps) = false
starts_with (b ∷ bs) (p ∷ ps) = b == p && starts_with bs ps

unfoldable pub is_id : Bytes → Bool
is_id line = starts_with line (codes "SSH-2.0-") || starts_with line (codes "SSH-1.99-")

-- The line from `start` to the LF at `nl`, without a CR before the LF.
unfoldable pub line_at : Bytes → ℕ → ℕ → Bytes
line_at buf start nl =
    let line_end = if ltb start nl && byte_at buf (nl - 1) == 0x0d then nl - 1 else nl in
    take (line_end - start) (drop start buf)

-- The `loop`. Each round that goes on has consumed a byte at least, so `length buf + 1` rounds
-- are enough.
unfoldable pub parse_loop : ℕ → Bytes → Bool → ℕ → Result (Option (PeerId × ℕ))
parse_loop zero buf allow_banner start = ok none
parse_loop (suc fuel) buf allow_banner start = elim (position 0x0a (drop start buf)) [
  | none ↦
      if ltb (max_line * 64) (length buf - start)
      then err (bad_version "banner too long")
      else ok none
  | some rel_nl ↦
      let nl = start + rel_nl in
      let line = line_at buf start nl in
      let next = parse_loop fuel buf allow_banner (nl + 1) in
      if ltb max_line (nl - start + 1)
      then err (bad_version "identification line too long")
      else if is_id line
      then ok (some (record { raw = line }, nl + 1))
      else if not allow_banner
      then err (bad_version "expected SSH identification string")
      else next
]

unfoldable pub parse_peer_id : Bytes → Bool → Result (Option (PeerId × ℕ))
unfolding parse_loop
parse_peer_id buf allow_banner = parse_loop (length buf + 1) buf allow_banner 0
