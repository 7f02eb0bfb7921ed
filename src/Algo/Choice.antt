-- ===== src/Algo/Choice.antt =====
-- Which name negotiation selects.
use Prim.Native.String.{String}
use ssh_bench.Common.{
  ◌≡◌, refl, ap, inl, inr, Bool, true, false, List, [], ◌∷◌, ◌++◌, Bytes, bytes_eq, bytes_eq→eq,
  Bool-cases,
}
use ssh_bench.Error.{Result, ok, err, no_common_algorithm}
use ssh_bench.Algo.Names.{kex_algorithms, kex_strict_client}
use ssh_bench.Algo.KexInit.{offered_kex}
use ssh_bench.Algo.Negotiate.{contains, pick}

-- None of the names is on the server's list.
abbrev pub NoneOf : List Bytes → List Bytes → Type 0
NoneOf server [] = Unit {0}
NoneOf server (c ∷ cs) = (contains server c ≡ false) × NoneOf server cs

pub data Chosen (client server : List Bytes) (slot : String) : Result Bytes → Type 0 where
  first_common :
      (before after : List Bytes) (name : Bytes)
      → client ≡ before ++ name ∷ after
      → NoneOf server before
      → contains server name ≡ true
      → Chosen client server slot (ok name)
  nothing_common : NoneOf server client → Chosen client server slot (err (no_common_algorithm slot))

Chosen-cons :
    (c : Bytes) (client server : List Bytes) (slot : String) (r : Result Bytes)
    → contains server c ≡ false
    → Chosen client server slot r
    → Chosen (c ∷ client) server slot r
Chosen-cons c client server slot _ h (first_common before after name e none_before there) =
    first_common (c ∷ before) after name (ap (◌∷◌ c) e) (h, none_before) there
Chosen-cons c client server slot _ h (nothing_common n) = nothing_common (h, n)

-- `pick` answers with the first name on the client's list that the server lists too, no earlier
-- name being on the server's list, and with the slot's error exactly when there is none.
pub pick-Chosen :
    (client server : List Bytes) (slot : String)
    → Chosen client server slot (pick client server slot)
unfolding pick
pick-Chosen [] server slot = nothing_common tt
pick-Chosen (c ∷ client) server slot = elim (Bool-cases (contains server c)) [
  | inl there ↦ rw there (first_common [] client c refl tt there)
  | inr missing ↦
      rw missing (Chosen-cons c client server slot _ missing (pick-Chosen client server slot))
]

pick_last :
    (cs : List Bytes) (name : Bytes) (server : List Bytes) (slot : String)
    → NoneOf server cs
    → contains server name ≡ true
    → pick (cs ++ name ∷ []) server slot ≡ ok name
unfolding pick
pick_last [] name server slot h there = rw there
pick_last (c ∷ cs) name server slot (hc, hs) there = rw hc (pick_last cs name server slot hs there)

-- The strict-KEX marker is an ordinary name to negotiation: whenever the peer lists our client's
-- marker and none of the real methods, the marker itself is selected as the key exchange.
pub strict_marker_selected :
    (sntrup761 : Bool) (server : List Bytes)
    → NoneOf server (kex_algorithms sntrup761)
    → contains server kex_strict_client ≡ true
    → pick (offered_kex sntrup761 false) server "kex" ≡ ok kex_strict_client
unfolding offered_kex
strict_marker_selected sntrup761 server h there =
    pick_last (kex_algorithms sntrup761) kex_strict_client server "kex" h there

-- What `contains` finds is on the list.
pub contains-split :
    (ns : List Bytes) (name : Bytes)
    → contains ns name ≡ true
    → (before : List Bytes) × (after : List Bytes) × (ns ≡ before ++ name ∷ after)
unfolding contains
contains-split [] name h = cc
contains-split (n ∷ ns) name h = elim (Bool-cases (bytes_eq n name)) [
  | inl same ↦ ([], ns, ap (λ x. x ∷ ns) (bytes_eq→eq n name same))
  | inr other ↦
      let (before, after, e) = contains-split ns name (rw other at h) in
      (n ∷ before, after, ap (◌∷◌ n) e)
]
