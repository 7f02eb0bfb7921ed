-- ===== src/Wire/BigEndian.antt =====
-- `from_be_bytes` and `to_be_bytes` of an unsigned integer, as wire.rs and packet.rs use them.
use ssh_bench.Common.{
  ℕ, zero, suc, ◌+◌, ◌*◌, ◌/◌, ◌%◌, ◌^◌, ◌<◌, ◌≡◌, refl, [], ◌∷◌, Bytes, length, arith,
}

unfoldable pub from_be_acc : ℕ → Bytes → ℕ
from_be_acc acc [] = acc
from_be_acc acc (b ∷ bs) = from_be_acc (acc * 256 + b) bs

abbrev pub from_be : Bytes → ℕ
from_be = from_be_acc 0

-- The low `n` bytes of `v`, the highest first.
unfoldable pub to_be : ℕ → ℕ → Bytes
to_be zero v = []
to_be (suc n) v = (v / 256 ^ n % 256) ∷ to_be n v

pub length-to_be : (n v : ℕ) → length (to_be n v) ≡ n
unfolding to_be
length-to_be zero v = refl
length-to_be (suc n) v = omega (arith, length-to_be n v)

pub from_be-to_be_4 : (v : ℕ) → v < 2 ^ 32 → from_be (to_be 4 v) ≡ v
unfolding from_be_acc to_be
from_be-to_be_4 v h = omega arith

pub from_be-to_be_8 : (v : ℕ) → v < 2 ^ 64 → from_be (to_be 8 v) ≡ v
unfolding from_be_acc to_be
from_be-to_be_8 v h = omega arith

pub from_be_4-lt :
    (a b c d : ℕ) → a < 256 → b < 256 → c < 256 → d < 256 → from_be (a ∷ b ∷ c ∷ d ∷ []) < 2 ^ 32
unfolding from_be_acc
from_be_4-lt a b c d ha hb hc hd = omega arith
