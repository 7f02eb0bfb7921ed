-- ===== src/Packet/Padding.antt =====
-- The padding that `padding_len` chooses.
use ssh_bench.Common.{
  ℕ, zero, suc, ◌+◌, ◌-◌, ◌%◌, ◌≤◌, ◌<◌, ◌≡◌, ◌⊎◌, inl, inr, refl, Bool, true, false, ltb→lt, max,
  ltb, if◌then◌else◌, arith,
}
use ssh_bench.Packet.{min_padding, min_packet, block_size, padding_len, grow_padding}

aligned : (n k : ℕ) → 0 < k → (n + (k - n % k)) % k ≡ 0
aligned n k h = grind arith

add_block : (n pad k : ℕ) → 0 < k → (n + pad) % k ≡ 0 → (n + (pad + k)) % k ≡ 0
add_block n pad k h e = grind arith

grow_padding-aligned :
    (fuel n k pad : ℕ)
    → 0 < k
    → (4 + 1 + n + pad) % k ≡ 0
    → (4 + 1 + n + grow_padding fuel n k pad) % k ≡ 0
unfolding grow_padding
grow_padding-aligned zero n k pad h e = e
grow_padding-aligned (suc fuel) n k pad h e =
    ground (arith, add_block (4 + 1 + n) pad k, grow_padding-aligned fuel n k (pad + k))

-- The padding before it grows.
abbrev first_padding : ℕ → ℕ → ℕ
first_padding n k = let pad = k - (4 + 1 + n) % k in if ltb pad min_padding then pad + k else pad

first_padding-aligned : (n k : ℕ) → 0 < k → (4 + 1 + n + first_padding n k) % k ≡ 0
first_padding-aligned n k h =
    let u : ℕ = 4 + 1 + n in ground (arith, aligned u k, add_block u (k - u % k) k)

first_padding_lt : (n k : ℕ) → 0 < k → first_padding n k < min_padding + k
first_padding_lt n k h = ground arith

pub padding_len-aligned :
    (n block : ℕ) → (4 + 1 + n + padding_len n block) % max block block_size ≡ 0
unfolding padding_len
padding_len-aligned n block =
    let k : ℕ = max block block_size in
    grow_padding-aligned 2 n k (first_padding n k) (omega arith)
      (first_padding-aligned n k (omega arith))

pick-least :
    (total n k p q : ℕ)
    → (total < min_packet → (p < min_padding + k) ⊎ (4 + 1 + n + p < min_packet + k))
    → (q < min_padding + k) ⊎ (4 + 1 + n + q < min_packet + k)
    → ((if ltb total min_packet then p else q) < min_padding + k)
      ⊎ (4 + 1 + n + (if ltb total min_packet then p else q) < min_packet + k)
pick-least total n k p q small h = go (ltb total min_packet) (ltb→lt total min_packet)
  where
    go :
        (b : Bool)
        → (b ≡ true → total < min_packet)
        → ((if b then p else q) < min_padding + k)
          ⊎ (4 + 1 + n + (if b then p else q) < min_packet + k)
    go true e = small (e refl)
    go false e = h

-- Blocks that a short packet is aligned to are short.
short_block : (total k : ℕ) → total % k ≡ 0 → 0 < total → total < min_packet → k < min_packet
short_block total k e positive short = grind arith

grow_padding-le :
    (fuel n k pad : ℕ)
    → 0 < k
    → (4 + 1 + n + pad) % k ≡ 0
    → pad ≤ 255
    → grow_padding fuel n k pad ≤ 255
unfolding grow_padding
grow_padding-le zero n k pad positive e h = h
grow_padding-le (suc fuel) n k pad positive e h =
    let short = short_block (4 + 1 + n + pad) k e (omega arith) in
    ground (arith, short, add_block (4 + 1 + n) pad k, grow_padding-le fuel n k (pad + k))

-- Growing stops at the first total that is large enough.
grow_padding-least :
    (fuel n k pad : ℕ)
    → (pad < min_padding + k) ⊎ (4 + 1 + n + pad < min_packet + k)
    → (grow_padding fuel n k pad < min_padding + k)
      ⊎ (4 + 1 + n + grow_padding fuel n k pad < min_packet + k)
unfolding grow_padding
grow_padding-least zero n k pad h = h
grow_padding-least (suc fuel) n k pad h =
    pick-least (4 + 1 + n + pad) n k (grow_padding fuel n k (pad + k)) pad
      (λ small. grow_padding-least fuel n k (pad + k) (inr (omega arith))) h

padding_len-le : (n block : ℕ) → block ≤ 252 → padding_len n block ≤ 255
unfolding padding_len
padding_len-le n block h =
    let k : ℕ = max block block_size in
    let positive : 0 < k = omega arith in
    let l = first_padding_lt n k positive in
    grow_padding-le 2 n k (first_padding n k) positive (first_padding-aligned n k positive)
      (omega arith)

padding_len-least :
    (n block : ℕ)
    → (padding_len n block < min_padding + max block block_size)
      ⊎ (4 + 1 + n + padding_len n block < min_packet + max block block_size)
unfolding padding_len
padding_len-least n block =
    let k : ℕ = max block block_size in
    grow_padding-least 2 n k (first_padding n k) (inl (first_padding_lt n k (omega arith)))

-- For every payload length and every cipher block of at most 252 bytes: the padding is 4 at least
-- and fits its byte, the whole packet has 16 bytes at least and is a multiple of the block, which
-- is 8 at least, and with a block of padding less the padding would be below 4 or the packet below
-- 16 bytes.
pub padding_len_fits :
    (n block : ℕ)
    → block ≤ 252
    → (min_padding ≤ padding_len n block)
      × (padding_len n block ≤ 255)
      × (min_packet ≤ 4 + 1 + n + padding_len n block)
      × ((4 + 1 + n + padding_len n block) % max block block_size ≡ 0)
      × ((padding_len n block < min_padding + max block block_size)
          ⊎ (4 + 1 + n + padding_len n block < min_packet + max block block_size))
padding_len_fits n block h = (
  unfold padding_len in ground arith,
  padding_len-le n block h,
  unfold padding_len in ground arith,
  padding_len-aligned n block,
  padding_len-least n block,
)

-- With the block of 8 the padding length fits its byte.
pub padding_len_8 : (n : ℕ) → padding_len n block_size < 20
unfolding padding_len
padding_len_8 n = ground arith
