-- ===== src/Wire/Mpint.antt =====
-- `Writer::mpint` writes the shortest two's complement form of a number that is not negative.
use ssh_bench.Common.{
  ℕ, zero, suc, ◌+◌, ◌%◌, ◌^◌, ◌≤◌, ◌<◌, ◌≡◌, refl, ◌∙◌, Bool, true, not, ◌&&◌, [], ◌∷◌, ◌++◌,
  Bytes, IsBytes, ltb, ◌==◌, if◌then◌else◌, length, length-append, append_assoc, bit_and,
  Bool-cases, inl, inr, arith,
}
use ssh_bench.Error.{ok}
use ssh_bench.Wire.BigEndian.{from_be, from_be_acc, to_be, length-to_be}
use ssh_bench.Wire.Reader.{Reader}
use ssh_bench.Wire.Reader
use ssh_bench.Wire.Writer.{Writer, ◌▸◌, strip_zeros, mpint_stripped}
use ssh_bench.Wire.Writer
use ssh_bench.Wire.Parsing.{Parses-new}
use ssh_bench.Wire.RoundTrip.{string_bytes, string-Parses, string-buf, new-buf}

-- The top bit of a byte, by all 256 cases.
top_bit_agrees : ℕ → Bool
top_bit_agrees zero = true
top_bit_agrees (suc n) =
    (if ltb n 128 then bit_and n 0x80 == 0 else not (bit_and n 0x80 == 0)) && top_bit_agrees n

top_bit_table : top_bit_agrees 256 ≡ true
unfolding top_bit_agrees
top_bit_table = refl

top_bit_below : (n b : ℕ) → top_bit_agrees n ≡ true → b < n → (bit_and b 0x80 == 0) ≡ ltb b 128
unfolding top_bit_agrees
top_bit_below zero b h lt = absurd (omega arith)
top_bit_below (suc n) b h lt = ground (arith, top_bit_below n b)

pub top_bit : (b : ℕ) → b < 256 → (bit_and b 0x80 == 0) ≡ ltb b 128
top_bit b h = top_bit_below 256 b top_bit_table h

-- The content of an `mpint`, described on the bytes without leading zeros.
abbrev pub positive : Bytes → Bytes
positive [] = []
positive (b ∷ bs) = if ltb b 128 then b ∷ bs else 0 ∷ b ∷ bs

-- No byte could be left out, and the sign bit is clear.
abbrev pub IsMinimal : Bytes → Type 0
IsMinimal [] = Unit {0}
IsMinimal (b ∷ []) = (0 < b) × (b < 128)
IsMinimal (b ∷ c ∷ cs) = (b < 128) × (b ≡ 0 → 128 ≤ c)

strip_zeros-IsBytes : (m : Bytes) → IsBytes m → IsBytes (strip_zeros m)
unfolding strip_zeros
strip_zeros-IsBytes [] h = tt
strip_zeros-IsBytes (b ∷ bs) h = ground (arith, strip_zeros-IsBytes bs)

pub length-strip_zeros : (m : Bytes) → length (strip_zeros m) ≤ length m
unfolding strip_zeros
length-strip_zeros [] = omega arith
length-strip_zeros (b ∷ bs) = ground (arith, length-strip_zeros bs)

abbrev NonZeroHead : Bytes → Type 0
NonZeroHead [] = Unit {0}
NonZeroHead (b ∷ bs) = 0 < b

strip_zeros-NonZeroHead : (m : Bytes) → NonZeroHead (strip_zeros m)
unfolding strip_zeros
strip_zeros-NonZeroHead [] = tt
strip_zeros-NonZeroHead (b ∷ bs) = ground (arith, strip_zeros-NonZeroHead bs)

from_be-strip_zeros : (m : Bytes) → from_be (strip_zeros m) ≡ from_be m
unfolding strip_zeros from_be_acc
from_be-strip_zeros [] = refl
from_be-strip_zeros (b ∷ bs) = ground (arith, from_be-strip_zeros bs)

from_be-positive : (s : Bytes) → from_be (positive s) ≡ from_be s
unfolding from_be_acc
from_be-positive [] = refl
from_be-positive (b ∷ bs) = ground arith

positive-IsMinimal : (s : Bytes) → IsBytes s → NonZeroHead s → IsMinimal (positive s)
positive-IsMinimal [] h z = tt
positive-IsMinimal (b ∷ []) h z = ground arith
positive-IsMinimal (b ∷ c ∷ cs) h z = ground arith

pub length-positive : (s : Bytes) → length (positive s) ≤ length s + 1
length-positive [] = omega arith
length-positive (b ∷ bs) = ground arith

mpint_stripped-buf :
    (s : Bytes) (w : Writer)
    → IsBytes s
    → length s + 1 < 2 ^ 32
    → (mpint_stripped s w).buf ≡ w.buf ++ string_bytes (positive s)
unfolding mpint_stripped Writer.u32 Writer.u8 Writer.raw to_be
mpint_stripped-buf [] w h size = refl
mpint_stripped-buf (b ∷ bs) w (hb, hs) size = elim (Bool-cases (ltb b 128)) [
  | inl low ↦ rw (top_bit b hb, low) (string-buf (b ∷ bs) w (omega arith))
  | inr high ↦
      let e : (length (b ∷ bs) + 1) % 2 ^ 32 ≡ length (0 ∷ b ∷ bs) = omega arith in
      rw (top_bit b hb, high, e) (simp append_assoc)
]

pub mpint-buf :
    (m : Bytes) (w : Writer)
    → IsBytes m
    → length m + 1 < 2 ^ 32
    → (Writer.mpint m w).buf ≡ w.buf ++ string_bytes (positive (strip_zeros m))
unfolding Writer.mpint
mpint-buf m w h size =
    mpint_stripped-buf (strip_zeros m) w (strip_zeros-IsBytes m h)
      (omega (arith, length-strip_zeros m))

-- The content that `mpint` writes for a magnitude is read back by `Reader::mpint`, has the
-- magnitude's value, and is minimal: no byte could be left out and the top bit is clear.
pub mpint_canonical :
    (m : Bytes)
    → IsBytes m
    → length m + 1 < 2 ^ 32
    → (s : Bytes) × (r : Reader) × (Reader.mpint
          (Reader.new (Writer.into_bytes (Writer.new ▸ Writer.mpint m)))
        ≡ ok (s, r))
      × (Reader.is_empty r ≡ true)
      × (from_be s ≡ from_be m)
      × IsMinimal s
unfolding Reader.mpint Writer.into_bytes
mpint_canonical m h size =
    let t : Bytes = strip_zeros m in
    let short : length (positive t) ≤ length m + 1 =
      omega (arith, length-positive t, length-strip_zeros m) in
    let (r, e, done, _) =
      Parses-new Reader.string (string_bytes (positive t)) (positive t)
        (string-Parses (positive t) (omega arith))
        (omega (
          arith,
          length-append (to_be 4 (length (positive t))) (positive t),
          length-to_be 4 (length (positive t)),
        )) in
    (
      positive t,
      r,
      rw (mpint-buf m Writer.new h size, new-buf) e,
      done,
      from_be-positive t ∙ from_be-strip_zeros m,
      positive-IsMinimal t (strip_zeros-IsBytes m h) (strip_zeros-NonZeroHead m),
    )
