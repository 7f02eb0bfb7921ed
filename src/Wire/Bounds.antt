-- ===== src/Wire/Bounds.antt =====
-- `Reader` stays inside its buffer, whatever the bytes are.
use ssh_bench.Common.{
  ℕ, ◌+◌, ◌≤◌, ◌<◌, ◌≡◌, refl, Bool, true, false, not, List, [], ◌∷◌, Bytes, leb, ◌==◌,
  if◌then◌else◌, length, arith,
}
use ssh_bench.Common.Text.{is_utf8, is_ascii}
use ssh_bench.Error.{SshError, encoding, Result, ok, err}
use ssh_bench.Wire.Reader.{
  Reader, Read, pure, fail, ◌>>=◌, take, u8, boolean, u32, u64, string, utf8, mpint, count, split,
  name_list, names_of, cons_head, max_name_list_entries,
}

-- A method that succeeds leaves the buffer alone, moves on, and stops inside it.
pub record Moves {A : Type 0} (p : Read A) : Type 0 where
  pub run :
      (r : Reader) (a : A) (r' : Reader)
      → r.pos ≤ length r.buf
      → p r ≡ ok (a, r')
      → (r'.buf ≡ r.buf) × (r.pos ≤ r'.pos) × (r'.pos ≤ length r.buf)

pub pure-Moves : {A : Type 0} (a : A) → Moves (pure a)
pure-Moves a = record { run = λ r b r' h e. ground arith }

pub fail-Moves : {A : Type 0} (e : SshError) → Moves (fail {A = A} e)
fail-Moves e = record { run = λ r b r' h eq. cc }

pub bind-Moves :
    {A B : Type 0} (m : Read A) (f : A → Read B)
    → Moves m
    → ((a : A) → Moves (f a))
    → Moves (m >>= f)
bind-Moves {A} {B} m f hm hf = record { run = λ r b r' h e. go r b r' h (m r) refl e }
  where
    go :
        (r : Reader) (b : B) (r' : Reader)
        → r.pos ≤ length r.buf
        → (x : Result (A × Reader)) → m r ≡ x
        → elim x [ ok (a, s) ↦ f a s | err e ↦ err e ] ≡ ok (b, r')
        → (r'.buf ≡ r.buf) × (r.pos ≤ r'.pos) × (r'.pos ≤ length r.buf)
    go r b r' h (ok (a, s)) em e =
        let first = hm.run r a s h em in
        let second = (hf a).run s b r' (rw first.0 (first.2)) e in ground arith
    go r b r' h (err x) em e = cc

pub take-Moves : (n : ℕ) → Moves (take n)
unfolding take
take-Moves n = record { run = λ r b r' h e. ground arith }

pub u8-Moves : Moves u8
unfolding u8
u8-Moves = bind-Moves _ _ (take-Moves 1) (λ b. pure-Moves _)

pub boolean-Moves : Moves boolean
unfolding boolean
boolean-Moves = bind-Moves _ _ u8-Moves (λ b. pure-Moves _)

pub u32-Moves : Moves u32
unfolding u32
u32-Moves = bind-Moves _ _ (take-Moves 4) (λ b. pure-Moves _)

pub u64-Moves : Moves u64
unfolding u64
u64-Moves = bind-Moves _ _ (take-Moves 8) (λ b. pure-Moves _)

pub string-Moves : Moves string
unfolding string
string-Moves = bind-Moves _ _ u32-Moves (λ n. take-Moves n)

pub if-Moves :
    {A : Type 0} (c : Bool) (p q : Read A) → Moves p → Moves q → Moves (if c then p else q)
if-Moves true p q hp hq = hp
if-Moves false p q hp hq = hq

pub utf8-Moves : Moves utf8
unfolding utf8
utf8-Moves =
    bind-Moves _ _ string-Moves
      (λ s. if-Moves (is_utf8 s) _ _ (pure-Moves s) (fail-Moves (encoding "invalid utf-8")))

names_of-Moves : (s : Bytes) → Moves (names_of s)
unfolding names_of
names_of-Moves s = if-Moves (not (is_ascii s)) _ _ (fail-Moves (encoding "non-ascii name-list")) (
    if-Moves (leb max_name_list_entries (count b',' s)) _ _
      (fail-Moves (encoding "name-list too long"))
      (if-Moves (is_utf8 s) _ _ (pure-Moves (split b',' s))
        (fail-Moves (encoding "invalid name-list"))))

pub name_list-Moves : Moves name_list
unfolding name_list
name_list-Moves =
    bind-Moves _ _ string-Moves
      (λ s. if-Moves (length s == 0) _ _ (pure-Moves []) (names_of-Moves s))

-- Every method of the reader that succeeds leaves the buffer as it is, never moves the cursor
-- back, and leaves it inside the buffer, on any bytes at all.
pub Reader_in_bounds :
    Moves u8
    × Moves boolean
    × Moves u32
    × Moves u64
    × Moves string
    × Moves utf8
    × Moves mpint
    × Moves name_list
unfolding mpint
Reader_in_bounds = (
  u8-Moves, boolean-Moves, u32-Moves, u64-Moves, string-Moves, utf8-Moves, string-Moves,
  name_list-Moves,
)

length-split : (c : ℕ) (s : Bytes) → length (split c s) ≡ count c s + 1
unfolding split count
length-split c [] = omega arith
length-split c (b ∷ bs) = ground (arith, length-cons_head b (split c bs), length-split c bs)
  where
    length-cons_head :
        (x : ℕ) (xs : List Bytes) → 0 < length xs → length (cons_head x xs) ≡ length xs
    length-cons_head x [] h = absurd (omega arith)
    length-cons_head x (y ∷ ys) h = refl

names_of-le :
    (s : Bytes) (r : Reader) (ns : List Bytes) (r' : Reader)
    → names_of s r ≡ ok (ns, r')
    → length ns ≤ max_name_list_entries
unfolding names_of
names_of-le s r ns r' e = ground (arith, length-split b',' s)

-- A name-list that is accepted has at most 256 names, on any bytes at all.
pub name_list-le-max :
    (r : Reader) (ns : List Bytes) (r' : Reader)
    → name_list r ≡ ok (ns, r')
    → length ns ≤ max_name_list_entries
unfolding name_list
name_list-le-max r ns r' e = go (string r) e
  where
    go :
        (x : Result (Bytes × Reader))
        → elim x [ ok (s, t) ↦ (if length s == 0 then pure [] else names_of s) t | err e ↦ err e ]
          ≡ ok (ns, r')
        → length ns ≤ max_name_list_entries
    go (ok (s, t)) e = ground (arith, names_of-le s t ns r')
    go (err x) e = cc
