-- ===== src/Limits/Caps.antt =====
-- The caps of limits.rs over any sequence of arriving and closing connections.
use ssh_bench.Common.{
  ℕ, ◌≤◌, ◌≡◌, refl, sym, subst, Bool, true, false, Bool-cases, inl, inr, List, [], ◌∷◌, ◌++◌,
  Option, none, some, leb, ltb, if◌then◌else◌, length, arith,
}
use ssh_bench.Limits.Admission.{
  IpAddr, get, count_of, or_insert, ConnectionLimiter, ConnectionGuard, new, commit, admit_counted,
  admit_uncounted, admit_capped, try_admit, release,
}
use ssh_bench.Limits.Counting.{value, live}
use ssh_bench.Limits.Consistent.{
  Consistent, After, try_acquire-cases, try_admit-After, release-Consistent,
}

-- A connection arrives and is admitted or refused, or one of the live guards is dropped.
pub data Step
    : ConnectionLimiter
      → List ConnectionGuard
      → ConnectionLimiter
      → List ConnectionGuard
      → Type 0 where
  admitted :
      {l l' : ConnectionLimiter} {gs : List ConnectionGuard} (ip : IpAddr) (g : ConnectionGuard)
      → try_admit ip l ≡ (some g, l')
      → Step l gs l' (g ∷ gs)
  refused :
      {l l' : ConnectionLimiter} {gs : List ConnectionGuard} (ip : IpAddr)
      → try_admit ip l ≡ (none, l')
      → Step l gs l' gs
  closed :
      {l : ConnectionLimiter} (xs ys : List ConnectionGuard) (g : ConnectionGuard)
      → Step l (xs ++ (g ∷ ys)) (release g l) (xs ++ ys)

-- The limiters and live guards that a new limiter comes to.
pub data Reached (max : ℕ) (cap : Option ℕ)
    : ConnectionLimiter → List ConnectionGuard → Type 0 where
  started : Reached max cap (new max cap) []
  stepped :
      {l l' : ConnectionLimiter} {gs gs' : List ConnectionGuard}
      → Reached max cap l gs
      → Step l gs l' gs'
      → Reached max cap l' gs'

Step-Consistent :
    (max : ℕ) (cap : Option ℕ) {l l' : ConnectionLimiter} {gs gs' : List ConnectionGuard}
    → Step l gs l' gs'
    → Consistent max cap l gs
    → Consistent max cap l' gs'
Step-Consistent max cap {l} {gs = gs} (admitted ip g e) h =
    subst (After max cap gs) e (try_admit-After max cap ip l gs h)
Step-Consistent max cap {l} {gs = gs} (refused ip e) h =
    subst (After max cap gs) e (try_admit-After max cap ip l gs h)
Step-Consistent max cap {l} (closed xs ys g) h = release-Consistent max cap l xs ys g h

new-Consistent : (max : ℕ) (cap : Option ℕ) → Consistent max cap (new max cap) []
unfolding new value get count_of live
new-Consistent max none = record { permits = omega arith; capped = refl; counted = tt }
new-Consistent max (some c) = record {
  permits = omega arith;
  capped = refl;
  counted = (tt, (λ ip. refl), λ ip. omega arith);
}

Reached-Consistent :
    (max : ℕ) (cap : Option ℕ) {l : ConnectionLimiter} {gs : List ConnectionGuard}
    → Reached max cap l gs
    → Consistent max cap l gs
Reached-Consistent max cap started = new-Consistent max cap
Reached-Consistent max cap (stepped r s) = Step-Consistent max cap s (Reached-Consistent max cap r)

-- The address holds fewer connections than its cap, if there is one.
abbrev pub has_room : Option ℕ → ℕ → Bool
has_room none n = true
has_room (some c) n = ltb n c

abbrev pub admits : Option ConnectionGuard × ConnectionLimiter → Bool
admits (none, l) = false
admits (some g, l) = true

abbrev pub LiveWithin : Option ℕ → List ConnectionGuard → Type 0
LiveWithin none gs = Unit
LiveWithin (some c) gs = (ip : IpAddr) → live ip gs ≤ c

within-cap :
    (max : ℕ) (cap : Option ℕ) (l : ConnectionLimiter) (gs : List ConnectionGuard)
    → Consistent max cap l gs
    → LiveWithin cap gs
within-cap max none l gs h = tt
within-cap max (some c) l gs h = h.counted.2

-- Whatever connections arrive and close at a new limiter, the live ones are never more than its
-- maximum, nor those of any one address more than the cap per address, if there is one.
pub caps_hold :
    (max : ℕ) (cap : Option ℕ) (l : ConnectionLimiter) (gs : List ConnectionGuard)
    → Reached max cap l gs
    → (length gs ≤ max) × LiveWithin cap gs
caps_hold max cap l gs r =
    let h = Reached-Consistent max cap r in (omega (arith, h.permits), within-cap max cap l gs h)

admits-uncounted :
    (max : ℕ) (ip : IpAddr) (l : ConnectionLimiter) (gs : List ConnectionGuard)
    → Consistent max none l gs
    → admits (admit_uncounted ip l) ≡ ltb (length gs) max
unfolding admit_uncounted commit
admits-uncounted max ip l gs h = elim (try_acquire-cases l) [
  | inl (z, e) ↦ rw (e) (ground (arith, z, h.permits))
  | inr (p, e) ↦ rw (e) (ground (arith, p, h.permits))
]

admits-counted :
    (max c : ℕ) (ip : IpAddr) (l : ConnectionLimiter) (gs : List ConnectionGuard)
    → Consistent max (some c) l gs
    → admits (admit_counted ip c l) ≡ (if ltb (live ip gs) c then ltb (length gs) max else false)
unfolding admit_counted commit value
admits-counted max c ip l gs h = elim (Bool-cases (leb c (count_of (get ip l.per_ip)))) [
  | inl full ↦ rw (full) (ground (arith, full, h.counted.1 ip))
  | inr room ↦
      elim (try_acquire-cases (record l { per_ip = or_insert ip (get ip l.per_ip) l.per_ip })) [
        | inl (z, e) ↦ rw (room) (rw (e) (ground (arith, z, h.permits)))
        | inr (p, e) ↦ rw (room) (rw (e) (ground (arith, p, h.permits, room, h.counted.1 ip)))
      ]
]

-- Whatever has happened at a limiter, `try_admit` admits a connection exactly when its address has
-- fewer live connections than the cap per address, if there is one, and the live connections are
-- fewer than the maximum: a closed connection's place can be taken again.
pub try_admit_exact :
    (max : ℕ) (cap : Option ℕ) (l : ConnectionLimiter) (gs : List ConnectionGuard) (ip : IpAddr)
    → Reached max cap l gs
    → admits (try_admit ip l) ≡ (if has_room cap (live ip gs) then ltb (length gs) max else false)
unfolding try_admit admit_capped
try_admit_exact max none l gs ip r =
    let h = Reached-Consistent max none r in
    subst (λ o. admits (admit_capped ip o l) ≡ ltb (length gs) max) (sym h.capped)
      (admits-uncounted max ip l gs h)
try_admit_exact max (some c) l gs ip r =
    let h = Reached-Consistent max (some c) r in
    subst
      (λ o.
        admits (admit_capped ip o l) ≡ (if ltb (live ip gs) c then ltb (length gs) max else false))
      (sym h.capped) (admits-counted max c ip l gs h)
