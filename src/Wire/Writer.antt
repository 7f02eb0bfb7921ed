-- ===== src/Wire/Writer.antt =====
-- `Writer` of wire.rs. A method takes the writer and returns it with the new bytes behind the old.
use ssh_bench.Common.{
  ℕ, suc, ◌+◌, ◌-◌, ◌%◌, ◌^◌, Bool, not, List, [], ◌∷◌, ◌++◌, Bytes, ltb, ◌==◌, if◌then◌else◌,
  length, bit_and,
}
use ssh_bench.Wire.BigEndian.{to_be}

pub record Writer : Type 0 where
  pub buf : Bytes

-- `w.f(..); w.g(..)` as a chain.
infixl 20 ◌▸◌
abbrev pub ◌▸◌ : Writer → (Writer → Writer) → Writer
w ▸ f = f w

unfoldable pub new : Writer
new = record { buf = [] }

-- The capacity is no part of the value.
unfoldable pub with_capacity : ℕ → Writer
with_capacity cap = record { buf = [] }

unfoldable pub into_bytes : Writer → Bytes
into_bytes w = w.buf

unfoldable pub as_slice : Writer → Bytes
as_slice w = w.buf

unfoldable pub len : Writer → ℕ
len w = length w.buf

unfoldable pub is_empty : Writer → Bool
is_empty w = length w.buf == 0

-- `Vec::push` and `Vec::extend_from_slice`
abbrev push : ℕ → Writer → Writer
push b w = record { buf = w.buf ++ b ∷ [] }

abbrev extend : Bytes → Writer → Writer
extend bs w = record { buf = w.buf ++ bs }

unfoldable pub u8 : ℕ → Writer → Writer
u8 v = push v

unfoldable pub boolean : Bool → Writer → Writer
boolean v = push (if v then 1 else 0)

unfoldable pub u32 : ℕ → Writer → Writer
u32 v = extend (to_be 4 v)

unfoldable pub u64 : ℕ → Writer → Writer
u64 v = extend (to_be 8 v)

unfoldable pub raw : Bytes → Writer → Writer
raw bytes = extend bytes

-- `bytes.len() as u32`
unfoldable pub string : Bytes → Writer → Writer
string bytes w = w ▸ u32 (length bytes % 2 ^ 32) ▸ extend bytes

unfoldable pub sum_lengths : List Bytes → ℕ
sum_lengths [] = 0
sum_lengths (n ∷ ns) = length n + sum_lengths ns

-- `for (i, name) in names.iter().enumerate()`, from index `i` on.
unfoldable pub write_names : ℕ → List Bytes → Writer → Writer
write_names i [] w = w
write_names i (name ∷ names) w =
    write_names (suc i) names ((if ltb 0 i then w ▸ push b',' else w) ▸ extend name)

unfoldable pub name_list : List Bytes → Writer → Writer
name_list names w =
    let commas = length names - 1 in
    let total = sum_lengths names + commas in w ▸ u32 (total % 2 ^ 32) ▸ write_names 0 names

-- `&magnitude[start..]` at the first byte that is not zero.
unfoldable pub strip_zeros : Bytes → Bytes
strip_zeros [] = []
strip_zeros (b ∷ bs) = let rest = strip_zeros bs in if b == 0 then rest else b ∷ bs

unfoldable pub mpint_stripped : Bytes → Writer → Writer
mpint_stripped [] w = w ▸ u32 0
mpint_stripped (b ∷ bs) w =
    if not (bit_and b 0x80 == 0)
    then w ▸ u32 ((length (b ∷ bs) + 1) % 2 ^ 32) ▸ u8 0 ▸ raw (b ∷ bs)
    else w ▸ string (b ∷ bs)

-- No byte is left exactly where `position(|&b| b != 0)` is `None`.
unfoldable pub mpint : Bytes → Writer → Writer
unfolding mpint_stripped
mpint magnitude = mpint_stripped (strip_zeros magnitude)
