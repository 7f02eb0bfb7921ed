-- ===== src/Connection/Window.antt =====
-- The window that we grant the peer.
use ssh_bench.Common.{
  ℕ, ◌+◌, ◌-◌, ◌/◌, ◌≤◌, ◌<◌, ◌≡◌, ◌⊎◌, inl, inr, Bool, true, List, [], ◌∷◌, Option, none, some,
  ◌&&◌, ◌||◌, ◌==◌, ltb, leb, min, Bool-cases, if◌then◌else◌, arith,
}
use ssh_bench.Connection.Messages.{default_window}
use ssh_bench.Connection.Channel.{Channel, new, saturating_add, consume_incoming, ack_incoming}

-- What is granted and what waits to be granted back fit the initial window.
abbrev pub IsWindow : Channel → Type 0
IsWindow ch = ch.local_window + ch.unacked ≤ default_window

-- The peer's data and the application's consumption, in any order.
pub data Traffic : Type 0 where
  received consumed : ℕ → Traffic

-- A violation of the window ends the channel.
unfoldable pub run : List Traffic → Channel → Option Channel
run [] ch = some ch
run (received n ∷ ts) ch =
    let (ch', fine) = consume_incoming n ch in let rest = run ts ch' in if fine then rest else none
run (consumed n ∷ ts) ch = run ts (ack_incoming n ch).0

unfoldable pub total_received : List Traffic → ℕ
total_received [] = 0
total_received (received n ∷ ts) = n + total_received ts
total_received (consumed n ∷ ts) = total_received ts

unfoldable pub total_consumed : List Traffic → ℕ
total_consumed [] = 0
total_consumed (received n ∷ ts) = total_consumed ts
total_consumed (consumed n ∷ ts) = n + total_consumed ts

abbrev pub Granted : ℕ → Channel → Channel × Option ℕ → Type 0
Granted n ch r =
    (add : ℕ) × (r.1 ≡ some add)
    × (0 < add)
    × (add ≤ ch.unacked + n)
    × (r.0.unacked ≡ 0)
    × (r.0.local_window ≡ ch.local_window + add)
    × (r.0.local_window ≤ default_window)

abbrev pub Kept : ℕ → Channel → Channel × Option ℕ → Type 0
Kept n ch r =
    (r.1 ≡ none)
    × (r.0.local_window ≡ ch.local_window)
    × (r.0.unacked ≤ ch.unacked + n)
    × (r.0.unacked < default_window / 2)
    × IsWindow r.0
    × ((0 < ch.local_window) ⊎ (r.0.unacked ≡ 0))

-- Both answers of `ack_incoming` on a channel whose window is in order. A grant is not zero, takes
-- no more than was consumed and not yet granted, empties that backlog, adds exactly that much to
-- the window and keeps it within its initial size. Without a grant the window is as before, the
-- backlog is less than half a window, and the peer has window left or there is nothing to grant.
pub ack_incoming_answer :
    (n : ℕ) (ch : Channel)
    → IsWindow ch
    → Granted n ch (ack_incoming n ch) ⊎ Kept n ch (ack_incoming n ch)
unfolding ack_incoming
ack_incoming_answer n ch h = elim (Bool-cases grants) [
  | inl now ↦ inl (unacked, rw now, ground arith, omega arith, rw now, rw now, rw now (omega arith))
  | inr later ↦ inr (
    rw later,
    rw later,
    rw later (omega arith),
    rw later (ground arith),
    rw later (omega arith),
    rw later (ground arith),
  )
]
  where
    unacked : ℕ
    unacked = min (saturating_add ch.unacked n) (default_window - ch.local_window)

    grants : Bool
    grants = leb (default_window / 2) unacked || ch.local_window == 0 && ltb 0 unacked

-- A peer that has run out of window gets some back with the next byte that is consumed.
pub ack_incoming_reopens :
    (n : ℕ) (ch : Channel)
    → ch.local_window ≡ 0
    → 0 < n
    → (add : ℕ) × ((ack_incoming n ch).1 ≡ some add)
      × (0 < add)
      × ((ack_incoming n ch).0.local_window ≡ add)
unfolding ack_incoming
ack_incoming_reopens n ch e h = (
  min (saturating_add ch.unacked n) (default_window - ch.local_window),
  ground arith,
  omega arith,
  ground arith,
)

consume_incoming_lem :
    (n : ℕ) (ch : Channel)
    → (consume_incoming n ch).1 ≡ true
    → ((consume_incoming n ch).0.local_window + n ≡ ch.local_window)
      × ((consume_incoming n ch).0.unacked ≡ ch.unacked)
unfolding consume_incoming
consume_incoming_lem n ch h = (ground arith, ground arith)

run_bound :
    (ts : List Traffic) (ch ch' : Channel)
    → IsWindow ch
    → run ts ch ≡ some ch'
    → (ch'.local_window + ch'.unacked + total_received ts
        ≤ ch.local_window + ch.unacked + total_consumed ts)
      × IsWindow ch'
unfolding run total_received total_consumed
run_bound [] ch ch' v e = ground arith
run_bound (received n ∷ ts) ch ch' v e = elim (Bool-cases (consume_incoming n ch).1) [
  | inl fine ↦
      let (a, b) = consume_incoming_lem n ch fine in
      let (c, d) = run_bound ts (consume_incoming n ch).0 ch' (omega arith) (ground arith) in
      (omega arith, d)
  | inr violated ↦ ground arith
]
run_bound (consumed n ∷ ts) ch ch' v e = elim (ack_incoming_answer n ch v) [
  | inl (add, _, _, little, empty, grown, fits) ↦
      let (c, d) = run_bound ts (ack_incoming n ch).0 ch' (omega arith) e in (omega arith, d)
  | inr (_, same, little, _, v', _) ↦
      let (c, d) = run_bound ts (ack_incoming n ch).0 ch' v' e in (omega arith, d)
]

-- However data and consumption interleave: while the peer stays within its window, the bytes
-- received and not consumed never exceed the initial window, and the window stays in order.
pub in_flight_bounded :
    (ts : List Traffic) (id : ℕ) (ch : Channel)
    → run ts (new id) ≡ some ch
    → (total_received ts ≤ default_window + total_consumed ts) × IsWindow ch
unfolding new
in_flight_bounded ts id ch e = let (a, b) = run_bound ts _ ch (omega arith) e in (omega arith, b)
