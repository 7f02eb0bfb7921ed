-- ===== src/Wire/Reader.antt =====
-- `Reader` of wire.rs.
--
-- A method takes the reader and returns it moved on. Where a method fails, the code leaves the
-- cursor where the failure met it; no caller reads on after a failure, so an error carries no
-- reader here. `usize` has 64 bits.
use ssh_bench.Common
use ssh_bench.Common.{
  ℕ, zero, suc, ◌+◌, ◌-◌, ◌^◌, Bool, not, List, [], ◌∷◌, Bytes, ltb, leb, ◌==◌, if◌then◌else◌,
  length, ◌++◌, ◌<◌, ◌≡◌, refl, arith,
}
use ssh_bench.Common.Text.{is_utf8, is_ascii}
use ssh_bench.Error.{SshError, encoding, Result, ok, err}
use ssh_bench.Wire.BigEndian.{from_be}

abbrev pub max_name_list_entries : ℕ
max_name_list_entries = 256

abbrev pub usize_mod : ℕ
usize_mod = 2 ^ 64

pub record Reader : Type 0 where
  pub buf : Bytes
  pub pos : ℕ

abbrev pub Read : Type 0 → Type 0
Read A = Reader → Result (A × Reader)

abbrev pub pure : {A : Type 0} → A → Read A
pure a r = ok (a, r)

abbrev pub fail : {A : Type 0} → SshError → Read A
fail e r = err e

infixl 5 ◌>>=◌ ◌>>◌
abbrev pub ◌>>=◌ : {A B : Type 0} → Read A → (A → Read B) → Read B
◌>>=◌ m f r = elim (m r) [ ok (a, r') ↦ f a r' | err e ↦ err e ]

abbrev pub ◌>>◌ : {A B : Type 0} → Read A → Read B → Read B
m >> k = m >>= λ _. k

-- `b[i]`. Every use stands behind a `take` that returned more than `i` bytes.
abbrev pub byte_at : Bytes → ℕ → ℕ
byte_at [] i = 0
byte_at (b ∷ bs) zero = b
byte_at (b ∷ bs) (suc i) = byte_at bs i

unfoldable pub new : Bytes → Reader
new buf = record { buf = buf; pos = 0 }

-- `&self.buf[self.pos..]`
unfoldable pub remaining : Reader → Bytes
remaining r = Common.drop r.pos r.buf

unfoldable pub is_empty : Reader → Bool
is_empty r = leb (length r.buf) r.pos

unfoldable pub take : ℕ → Read Bytes
take n r =
    let end = r.pos + n in
    if leb usize_mod end
    then err (encoding "length overflow")
    else if ltb (length r.buf) end
    then err (encoding "unexpected end of buffer")
    else ok (Common.take (end - r.pos) (Common.drop r.pos r.buf), record r { pos = end })

unfoldable pub u8 : Read ℕ
u8 = do b ← take 1; pure (byte_at b 0)

unfoldable pub boolean : Read Bool
boolean = do b ← u8; pure (not (b == 0))

unfoldable pub u32 : Read ℕ
u32 = do b ← take 4; pure (from_be b)

unfoldable pub u64 : Read ℕ
u64 = do b ← take 8; pure (from_be b)

unfoldable pub string : Read Bytes
string = do len ← u32; take len

unfoldable pub utf8 : Read Bytes
utf8 = do s ← string; if is_utf8 s then pure s else fail (encoding "invalid utf-8")

unfoldable pub mpint : Read Bytes
mpint = string

-- `s.iter().filter(|&&b| b == c).count()`
unfoldable pub count : ℕ → Bytes → ℕ
count c [] = 0
count c (b ∷ bs) = (if b == c then 1 else 0) + count c bs

unfoldable pub cons_head : ℕ → List Bytes → List Bytes
cons_head b [] = (b ∷ []) ∷ []
cons_head b (x ∷ xs) = (b ∷ x) ∷ xs

-- `s.split(c)`: one piece more than there are separators.
unfoldable pub split : ℕ → Bytes → List Bytes
unfolding cons_head
split c [] = [] ∷ []
split c (b ∷ bs) = let rest = split c bs in if b == c then [] ∷ rest else cons_head b rest

unfoldable pub names_of : Bytes → Read (List Bytes)
names_of s =
    if not (is_ascii s)
    then fail (encoding "non-ascii name-list")
    else if leb max_name_list_entries (count b',' s)
    then fail (encoding "name-list too long")
    else if is_utf8 s
    then pure (split b',' s)
    else fail (encoding "invalid name-list")

unfoldable pub name_list : Read (List Bytes)
unfolding names_of
name_list = do s ← string; if length s == 0 then pure [] else names_of s

pub byte_at-append : (i : ℕ) (s t : Bytes) → i < length s → byte_at (s ++ t) i ≡ byte_at s i
byte_at-append i [] t h = absurd (omega arith)
byte_at-append zero (b ∷ bs) t h = refl
byte_at-append (suc i) (b ∷ bs) t h = byte_at-append i bs t (omega arith)
