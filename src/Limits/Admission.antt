-- ===== src/Limits/Admission.antt =====
-- `ConnectionLimiter` and `ConnectionGuard` of limits.rs: the semaphore is the number of permits it
-- has left, the `HashMap` an association list in which a key stands once, and a call holds the
-- map's lock throughout, so that calls are steps on one state.
use ssh_bench.Common.{
  ℕ, ◌+◌, ◌-◌, Bool, true, false, List, [], ◌∷◌, Option, none, some, leb, ◌==◌, if◌then◌else◌,
}

pub data IpAddr : Type 0 where
  v4 : ℕ → IpAddr
  v6 : ℕ → IpAddr

unfoldable pub ip_eq : IpAddr → IpAddr → Bool
ip_eq (v4 a) (v4 b) = a == b
ip_eq (v4 a) (v6 b) = false
ip_eq (v6 a) (v4 b) = false
ip_eq (v6 a) (v6 b) = a == b

abbrev pub Counts : Type 0
Counts = List (IpAddr × ℕ)

unfoldable pub get : IpAddr → Counts → Option ℕ
get ip [] = none
get ip ((k, n) ∷ m) = if ip_eq k ip then some n else get ip m

unfoldable pub remove : IpAddr → Counts → Counts
remove ip [] = []
remove ip ((k, n) ∷ m) = let rest = remove ip m in if ip_eq k ip then rest else (k, n) ∷ rest

unfoldable pub insert : IpAddr → ℕ → Counts → Counts
insert ip n m = (ip, n) ∷ remove ip m

-- The value of a key, 0 for one that is missing.
unfoldable pub count_of : Option ℕ → ℕ
count_of none = 0
count_of (some n) = n

-- `entry(ip).or_insert(0)`
unfoldable pub or_insert : IpAddr → Option ℕ → Counts → Counts
or_insert ip none m = insert ip 0 m
or_insert ip (some n) m = m

pub record ConnectionLimiter : Type 0 where
  pub permits : ℕ
  pub per_ip_max : Option ℕ
  pub per_ip : Counts

pub record ConnectionGuard : Type 0 where
  pub ip : IpAddr
  pub counted : Bool

unfoldable pub new : ℕ → Option ℕ → ConnectionLimiter
new max_global per_ip_max = record { permits = max_global; per_ip_max = per_ip_max; per_ip = [] }

-- `try_acquire_owned`: the state with one permit less, if there is one.
unfoldable pub try_acquire : ConnectionLimiter → Option ConnectionLimiter
try_acquire l = if l.permits == 0 then none else some (record l { permits = l.permits - 1 })

-- The permit's part of `try_admit`: `?` on the semaphore, then the guard.
unfoldable pub commit :
    Option ConnectionLimiter
    → (ConnectionLimiter → Option ConnectionGuard × ConnectionLimiter)
    → ConnectionLimiter
    → Option ConnectionGuard × ConnectionLimiter
commit none grant l = (none, l)
commit (some l') grant l = grant l'

unfoldable pub admit_counted :
    IpAddr → ℕ → ConnectionLimiter → Option ConnectionGuard × ConnectionLimiter
admit_counted ip max l =
    let count = count_of (get ip l.per_ip) in
    let seen : ConnectionLimiter = record l { per_ip = or_insert ip (get ip l.per_ip) l.per_ip } in
    if leb max count
    then (none, seen)
    else commit (try_acquire seen)
        (λ l'. (
          some (record { ip = ip; counted = true }),
          record l' { per_ip = insert ip (count + 1) l'.per_ip },
        ))
        seen

unfoldable pub admit_uncounted :
    IpAddr → ConnectionLimiter → Option ConnectionGuard × ConnectionLimiter
admit_uncounted ip l =
    commit (try_acquire l) (λ l'. (some (record { ip = ip; counted = false }), l')) l

unfoldable pub admit_capped :
    IpAddr → Option ℕ → ConnectionLimiter → Option ConnectionGuard × ConnectionLimiter
admit_capped ip none l = admit_uncounted ip l
admit_capped ip (some max) l = admit_counted ip max l

unfoldable pub try_admit : IpAddr → ConnectionLimiter → Option ConnectionGuard × ConnectionLimiter
try_admit ip l = admit_capped ip l.per_ip_max l

unfoldable pub decrement : IpAddr → Option ℕ → Counts → Counts
decrement ip none m = m
decrement ip (some n) m = if n - 1 == 0 then remove ip m else insert ip (n - 1) m

-- `Drop::drop`, then the drop of the permit, which gives it back; both are taken as one step.
unfoldable pub release : ConnectionGuard → ConnectionLimiter → ConnectionLimiter
release g l =
    let counts = if g.counted then decrement g.ip (get g.ip l.per_ip) l.per_ip else l.per_ip in
    record l { permits = l.permits + 1; per_ip = counts }
