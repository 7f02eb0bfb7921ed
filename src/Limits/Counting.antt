-- ===== src/Limits/Counting.antt =====
-- What the map operations of limits.rs do to the count of each address.
use ssh_bench.Common.{
  ℕ, suc, ◌+◌, ◌-◌, ◌≡◌, refl, sym, ap, true, List, [], ◌∷◌, ◌++◌, Option, none, some,
  if◌then◌else◌, arith,
}
use ssh_bench.Limits.Admission.{
  IpAddr, v4, v6, ip_eq, Counts, get, remove, insert, count_of, or_insert, ConnectionGuard,
  decrement,
}

ip_eq→eq : (a b : IpAddr) → ip_eq a b ≡ true → a ≡ b
unfolding ip_eq
ip_eq→eq (v4 a) (v4 b) h = ap v4 (ground arith)
ip_eq→eq (v4 a) (v6 b) h = ground arith
ip_eq→eq (v6 a) (v4 b) h = ground arith
ip_eq→eq (v6 a) (v6 b) h = ap v6 (ground arith)

pub ip_eq_refl : (a : IpAddr) → ip_eq a a ≡ true
unfolding ip_eq
ip_eq_refl (v4 a) = ground arith
ip_eq_refl (v6 a) = ground arith

ip_eq-left : (k i j : IpAddr) → ip_eq k i ≡ true → ip_eq k j ≡ ip_eq i j
ip_eq-left k i j h = ap (λ a. ip_eq a j) (ip_eq→eq k i h)

ip_eq-right : (k i j : IpAddr) → ip_eq i j ≡ true → ip_eq k i ≡ ip_eq k j
ip_eq-right k i j h = ap (ip_eq k) (ip_eq→eq i j h)

-- The count of an address, 0 when the map has none.
unfoldable pub value : IpAddr → Counts → ℕ
value ip m = count_of (get ip m)

get-remove :
    (i j : IpAddr) (m : Counts) → get j (remove i m) ≡ (if ip_eq i j then none else get j m)
unfolding get remove
get-remove i j [] = ground arith
get-remove i j ((k, n) ∷ m) = ground (arith, get-remove i j m, ip_eq-left k i j, ip_eq-right k i j)

pub value-insert :
    (i j : IpAddr) (n : ℕ) (m : Counts)
    → value j (insert i n m) ≡ (if ip_eq i j then n else value j m)
unfolding value insert get count_of
value-insert i j n m = ground (arith, get-remove i j m)

value-remove :
    (i j : IpAddr) (m : Counts) → value j (remove i m) ≡ (if ip_eq i j then 0 else value j m)
unfolding value count_of
value-remove i j m = ground (arith, get-remove i j m)

get-same : (i j : IpAddr) (m : Counts) → ip_eq i j ≡ true → get j m ≡ get i m
get-same i j m h = ap (λ a. get a m) (sym (ip_eq→eq i j h))

-- A missing key holds nothing, so that an inserted 0 changes no count.
pub value-or_insert :
    (i j : IpAddr) (o : Option ℕ) (m : Counts) → get i m ≡ o → value j (or_insert i o m) ≡ value j m
unfolding value count_of or_insert
value-or_insert i j none m h = ground (arith, value-insert i j 0 m, get-same i j m)
value-or_insert i j (some n) m h = refl

pub value-decrement :
    (i j : IpAddr) (o : Option ℕ) (m : Counts)
    → get i m ≡ o
    → value j (decrement i o m) ≡ (if ip_eq i j then value j m - 1 else value j m)
unfolding decrement value count_of
value-decrement i j none m h = ground (arith, get-same i j m)
value-decrement i j (some n) m h =
    ground (arith, get-same i j m, value-insert i j (n - 1) m, value-remove i j m)

-- The live guards of an address.
unfoldable pub live : IpAddr → List ConnectionGuard → ℕ
live ip [] = 0
live ip (g ∷ gs) = let rest = live ip gs in if ip_eq g.ip ip then suc rest else rest

pub live-append :
    (ip : IpAddr) (xs ys : List ConnectionGuard) → live ip (xs ++ ys) ≡ live ip xs + live ip ys
unfolding live
live-append ip [] ys = omega arith
live-append ip (g ∷ xs) ys = ground (arith, live-append ip xs ys)

pub value-same : (i j : IpAddr) (m : Counts) → ip_eq i j ≡ true → count_of (get i m) ≡ value j m
unfolding value
value-same i j m h = ap (λ a. value a m) (ip_eq→eq i j h)

pub live-same :
    (i j : IpAddr) (gs : List ConnectionGuard) → ip_eq i j ≡ true → live i gs ≡ live j gs
live-same i j gs h = ap (λ a. live a gs) (ip_eq→eq i j h)
