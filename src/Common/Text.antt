-- ===== src/Common/Text.antt =====
-- Rust's `str` as its bytes: literals of ASCII text, and `core::str::from_utf8`'s test.
use Prim.Native.Char.{code}
use Prim.Native.String.{String}
use Prim.Native.Nat.{ℕ, zero, suc}
use mathlib.Core.Path.{◌≡◌, refl}
use mathlib.Core.Bool.{Bool, true, false, ◌&&◌}
use mathlib.Core.Option.{Option, none, some}
use mathlib.Core.List.{[], ◌∷◌}
use native.Mathlib.Omega.{arith}
use ssh_bench.Common.Tests.{Bytes, ltb, leb, ◌==◌, if◌then◌else◌}

-- The bytes of an ASCII literal.
abbrev pub codes : String → Bytes
codes String.[] = []
codes (String.◌∷◌ c s) = code c ∷ codes s

-- How many continuation bytes are due, and the range of the next one.
pub record Utf8State : Type 0 where
  pub due : ℕ
  pub low : ℕ
  pub high : ℕ

abbrev expect : ℕ → ℕ → ℕ → Option Utf8State
expect n lo hi = some (record { due = n; low = lo; high = hi })

lead_byte : ℕ → Option Utf8State
lead_byte b =
    if ltb b 0x80
    then expect 0 0x80 0xbf
    else if ltb b 0xc2
    then none
    else if ltb b 0xe0
    then expect 1 0x80 0xbf
    else if b == 0xe0
    then expect 2 0xa0 0xbf
    else if b == 0xed
    then expect 2 0x80 0x9f
    else if ltb b 0xf0
    then expect 2 0x80 0xbf
    else if b == 0xf0
    then expect 3 0x90 0xbf
    else if ltb b 0xf4
    then expect 3 0x80 0xbf
    else if b == 0xf4
    then expect 3 0x80 0x8f
    else none

next_byte : ℕ → Utf8State → ℕ → Option Utf8State
next_byte zero s b = lead_byte b
next_byte (suc n) s b = if leb s.low b && leb b s.high then expect n 0x80 0xbf else none

utf8_from : Utf8State → Bytes → Bool
utf8_from s [] = s.due == 0
utf8_from s (b ∷ bs) = elim (next_byte s.due s b) [ none ↦ false | some t ↦ utf8_from t bs ]

-- Well-formed UTF-8 in the sense of the Unicode standard's table of byte sequences.
unfoldable pub is_utf8 : Bytes → Bool
unfolding utf8_from next_byte lead_byte
is_utf8 = utf8_from (record { due = 0; low = 0x80; high = 0xbf })

unfoldable pub is_ascii : Bytes → Bool
is_ascii [] = true
is_ascii (b ∷ bs) = ltb b 0x80 && is_ascii bs

ascii-utf8_from :
    (lo hi : ℕ) (bs : Bytes)
    → is_ascii bs ≡ true
    → utf8_from (record { due = 0; low = lo; high = hi }) bs ≡ true
unfolding utf8_from next_byte lead_byte is_ascii
ascii-utf8_from lo hi [] h = refl
ascii-utf8_from lo hi (b ∷ bs) h = ground (arith, ascii-utf8_from 0x80 0xbf bs)

pub ascii-is_utf8 : (bs : Bytes) → is_ascii bs ≡ true → is_utf8 bs ≡ true
unfolding is_utf8
ascii-is_utf8 bs h = ascii-utf8_from 0x80 0xbf bs h

euro_sign : is_utf8 (0xe2 ∷ 0x82 ∷ 0xac ∷ []) ≡ true
unfolding is_utf8
euro_sign = refl

surrogate : is_utf8 (0xed ∷ 0xa0 ∷ 0x80 ∷ []) ≡ false
unfolding is_utf8
surrogate = refl
