-- ===== src/Limits/Consistent.antt =====
-- The permits and the map of a limiter against the guards that are alive.
use ssh_bench.Common.{
  ℕ, suc, ◌+◌, ◌-◌, ◌≤◌, ◌<◌, ◌≡◌, refl, sym, ◌∙◌, subst, Bool, true, false, Bool-cases, ◌⊎◌, inl,
  inr, List, [], ◌∷◌, ◌++◌, Option, none, some, leb, ◌==◌, if◌then◌else◌, length, length-append,
  arith,
}
use ssh_bench.Limits.Admission.{
  IpAddr, ip_eq, get, insert, count_of, or_insert, ConnectionLimiter, ConnectionGuard, try_acquire,
  commit, admit_counted, admit_uncounted, admit_capped, try_admit, release,
}
use ssh_bench.Limits.Counting.{
  value, value-insert, value-or_insert, value-decrement, live, live-append, value-same, live-same,
}

-- Every guard's `counted` is `b`.
abbrev pub AllCounted : Bool → List ConnectionGuard → Type 0
AllCounted b [] = Unit
AllCounted b (g ∷ gs) = (g.counted ≡ b) × AllCounted b gs

-- What the map says under a cap: nothing without one, the live guards of each address with one.
abbrev pub Counted : Option ℕ → ConnectionLimiter → List ConnectionGuard → Type 0
Counted none l gs = AllCounted false gs
Counted (some c) l gs =
    AllCounted true gs
    × ((ip : IpAddr) → value ip l.per_ip ≡ live ip gs)
    × ((ip : IpAddr) → live ip gs ≤ c)

pub record Consistent (max : ℕ) (cap : Option ℕ) (l : ConnectionLimiter) (gs : List ConnectionGuard)
    : Type 0 where
  pub permits : l.permits + length gs ≡ max
  pub capped : l.per_ip_max ≡ cap
  pub counted : Counted cap l gs

AllCounted-split :
    (b : Bool) (xs ys : List ConnectionGuard) (g : ConnectionGuard)
    → AllCounted b (xs ++ (g ∷ ys))
    → (g.counted ≡ b) × AllCounted b (xs ++ ys)
AllCounted-split b [] ys g (e, h) = (e, h)
AllCounted-split b (x ∷ xs) ys g (e, h) =
    let (e', h') = AllCounted-split b xs ys g h in (e', (e, h'))

abbrev pub After :
    ℕ → Option ℕ → List ConnectionGuard → Option ConnectionGuard × ConnectionLimiter → Type 0
After max cap gs (none, l') = Consistent max cap l' gs
After max cap gs (some g, l') = Consistent max cap l' (g ∷ gs)

-- A permit is taken, or none is left.
pub try_acquire-cases :
    (l : ConnectionLimiter)
    → ((l.permits ≡ 0) × (try_acquire l ≡ none))
      ⊎ ((0 < l.permits) × (try_acquire l ≡ some (record l { permits = l.permits - 1 })))
try_acquire-cases l =
    unfold try_acquire in
    elim (Bool-cases (l.permits == 0)) [
      | inl e ↦ inl (ground arith, rw (e) refl)
      | inr e ↦ inr (ground arith, rw (e) refl)
    ]

admit_uncounted-After :
    (max : ℕ) (ip : IpAddr) (l : ConnectionLimiter) (gs : List ConnectionGuard)
    → Consistent max none l gs
    → After max none gs (admit_uncounted ip l)
unfolding admit_uncounted commit
admit_uncounted-After max ip l gs h = elim (try_acquire-cases l) [
  | inl (_, e) ↦ rw (e) h
  | inr (p, e) ↦ rw (e) (record {
    permits = omega (arith, h.permits);
    capped = h.capped;
    counted = (refl, h.counted);
  })
]

live-split :
    (j : IpAddr) (xs ys : List ConnectionGuard) (g : ConnectionGuard)
    → live j (xs ++ (g ∷ ys))
      ≡ (if ip_eq g.ip j then suc (live j (xs ++ ys)) else live j (xs ++ ys))
unfolding live
live-split j xs ys g = ground (arith, live-append j xs (g ∷ ys), live-append j xs ys)

grown :
    (ip j : IpAddr) (l : ConnectionLimiter) (gs : List ConnectionGuard)
    → ((i : IpAddr) → value i l.per_ip ≡ live i gs)
    → value j (insert ip (count_of (get ip l.per_ip) + 1) (or_insert ip (get ip l.per_ip) l.per_ip))
      ≡ live j (record { ip = ip; counted = true } ∷ gs)
unfolding live
grown ip j l gs h =
    value-insert ip j _ _
    ∙ ground
        (arith, value-or_insert ip j (get ip l.per_ip) l.per_ip refl, h j, value-same ip j l.per_ip)

within :
    (c : ℕ) (ip j : IpAddr) (l : ConnectionLimiter) (gs : List ConnectionGuard)
    → ((i : IpAddr) → value i l.per_ip ≡ live i gs)
    → ((i : IpAddr) → live i gs ≤ c)
    → leb c (count_of (get ip l.per_ip)) ≡ false
    → live j (record { ip = ip; counted = true } ∷ gs) ≤ c
unfolding live value
within c ip j l gs h hc room = ground (arith, h ip, hc j, live-same ip j gs)

admit_counted-After :
    (max c : ℕ) (ip : IpAddr) (l : ConnectionLimiter) (gs : List ConnectionGuard)
    → Consistent max (some c) l gs
    → After max (some c) gs (admit_counted ip c l)
unfolding admit_counted commit
admit_counted-After max c ip l gs h = elim (Bool-cases (leb c (count_of (get ip l.per_ip)))) [
  | inl full ↦ rw (full) (record {
    permits = h.permits;
    capped = h.capped;
    counted = (
      h.counted.0,
      (λ j. value-or_insert ip j (get ip l.per_ip) l.per_ip refl ∙ h.counted.1 j),
      h.counted.2,
    );
  })
  | inr room ↦
      elim (try_acquire-cases (record l { per_ip = or_insert ip (get ip l.per_ip) l.per_ip })) [
        | inl (_, e) ↦ rw (room) (
            rw (e) (record {
              permits = h.permits;
              capped = h.capped;
              counted = (
                h.counted.0,
                (λ j. value-or_insert ip j (get ip l.per_ip) l.per_ip refl ∙ h.counted.1 j),
                h.counted.2,
              );
            }))
        | inr (p, e) ↦ rw (room) (
            rw (e) (record {
              permits = omega (arith, h.permits);
              capped = h.capped;
              counted = (
                (refl, h.counted.0),
                (λ j. grown ip j l gs h.counted.1),
                (λ j. within c ip j l gs h.counted.1 h.counted.2 room),
              );
            }))
      ]
]

pub try_admit-After :
    (max : ℕ) (cap : Option ℕ) (ip : IpAddr) (l : ConnectionLimiter) (gs : List ConnectionGuard)
    → Consistent max cap l gs
    → After max cap gs (try_admit ip l)
unfolding try_admit admit_capped
try_admit-After max none ip l gs h =
    subst (λ o. After max none gs (admit_capped ip o l)) (sym h.capped)
      (admit_uncounted-After max ip l gs h)
try_admit-After max (some c) ip l gs h =
    subst (λ o. After max (some c) gs (admit_capped ip o l)) (sym h.capped)
      (admit_counted-After max c ip l gs h)

pub release-Consistent :
    (max : ℕ) (cap : Option ℕ) (l : ConnectionLimiter) (xs ys : List ConnectionGuard)
    (g : ConnectionGuard)
    → Consistent max cap l (xs ++ (g ∷ ys))
    → Consistent max cap (release g l) (xs ++ ys)
unfolding release
release-Consistent max none l xs ys g h =
    let (e, rest) = AllCounted-split false xs ys g h.counted in
    rw (e) (record {
      permits = omega (arith, h.permits, length-append xs (g ∷ ys), length-append xs ys);
      capped = h.capped;
      counted = rest;
    })
release-Consistent max (some c) l xs ys g h =
    let (cs, values, limits) = h.counted in
    let (e, rest) = AllCounted-split true xs ys g cs in
    rw (e) (record {
      permits = omega (arith, h.permits, length-append xs (g ∷ ys), length-append xs ys);
      capped = h.capped;
      counted = (
        rest,
        (λ j.
            value-decrement g.ip j (get g.ip l.per_ip) l.per_ip refl
            ∙ ground (arith, values j, live-split j xs ys g)),
        (λ j. ground (arith, limits j, live-split j xs ys g)),
      );
    })
