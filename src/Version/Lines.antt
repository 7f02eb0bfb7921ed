-- ===== src/Version/Lines.antt =====
-- Where the first line of the remaining bytes ends, and what it holds.
use ssh_bench.Common.{
  ℕ, zero, suc, ◌+◌, ◌-◌, ◌≤◌, ◌<◌, ◌≡◌, refl, true, false, ◌&&◌, [], ◌∷◌, ◌++◌, none, some, Bytes,
  ltb, ◌==◌, if◌then◌else◌, length, take, drop, length-drop, length-take, Bool-cases, inl, inr,
  arith,
}
use ssh_bench.Wire.Reader.{byte_at, count}
use ssh_bench.Version.{position, line_at}

-- A line's content without a CR at its end.
unfoldable pub strip_cr : Bytes → Bytes
strip_cr [] = []
strip_cr (b ∷ []) = if b == 0x0d then [] else b ∷ []
strip_cr (b ∷ c ∷ r) = b ∷ strip_cr (c ∷ r)

pub position-append :
    (c : ℕ) (s t : Bytes) → count c s ≡ 0 → position c (s ++ c ∷ t) ≡ some (length s)
unfolding position count
position-append c [] t h = ground arith
position-append c (b ∷ s) t h = ground (arith, position-append c s t)

pub position-lt : (c : ℕ) (s : Bytes) (i : ℕ) → position c s ≡ some i → i < length s
unfolding position
position-lt c [] i h = cc
position-lt c (b ∷ s) zero h = omega arith
position-lt c (b ∷ s) (suc i) h = ground (arith, position-lt c s i)

pub position-none : (c : ℕ) (s : Bytes) → count c s ≡ 0 → position c s ≡ none
unfolding position count
position-none c [] h = refl
position-none c (b ∷ s) h = ground (arith, position-none c s)

pub byte_at-drop : (start i : ℕ) (s : Bytes) → byte_at (drop start s) i ≡ byte_at s (start + i)
unfolding drop
byte_at-drop zero i s = let e : i ≡ 0 + i = omega arith in rw (← e)
byte_at-drop (suc n) i [] = refl
byte_at-drop (suc n) i (b ∷ s) =
    let e : suc n + i ≡ suc (n + i) = omega arith in rw e (byte_at-drop n i s)

-- `take` up to the LF, or one byte less behind a CR, is the stripped line.
take-strip_cr :
    (s t : Bytes)
    → take
        (if ltb 0 (length s) && byte_at (s ++ t) (length s - 1) == 0x0d
          then length s - 1
          else length s)
        (s ++ t)
      ≡ strip_cr s
unfolding take strip_cr
take-strip_cr [] t = refl
take-strip_cr (b ∷ []) t = ground arith
take-strip_cr (b ∷ c ∷ r) t = ground (arith, take-strip_cr (c ∷ r) t)

pub line_at-strip_cr :
    (buf c t : Bytes) (start : ℕ)
    → drop start buf ≡ c ++ 0x0a ∷ t
    → line_at buf start (start + length c) ≡ strip_cr c
unfolding line_at
line_at-strip_cr buf c t start e = elim (Bool-cases (ltb 0 (length c))) [
  | inl some_byte ↦
      let p : start + length c - 1 ≡ start + (length c - 1) = ground arith in
      let q : ltb start (start + length c) ≡ true = ground arith in
      rw (q, p, ← byte_at-drop start (length c - 1) buf, e)
        (ground (arith, take-strip_cr c (0x0a ∷ t)))
  | inr empty ↦
      let q : ltb start (start + length c) ≡ false = ground arith in
      rw (q, e) (ground (arith, take-strip_cr c (0x0a ∷ t)))
]

pub length-line_at :
    (buf : Bytes) (start i : ℕ)
    → start + i < length buf
    → length (line_at buf start (start + i)) ≤ i
unfolding line_at
length-line_at buf start i h = ground (
  arith,
  length-take i (drop start buf),
  length-take (i - 1) (drop start buf),
  length-drop start buf,
  cut,
  cut',
)
  where
    cut : start + i - start ≡ i
    cut = omega arith

    cut' : start + i - 1 - start ≡ i - 1
    cut' = omega arith
