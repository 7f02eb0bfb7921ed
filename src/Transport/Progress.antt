-- ===== src/Transport/Progress.antt =====
-- The loop of `drive` ends: every round that goes on takes bytes, or the peer's version.
use ssh_bench.Common.{
  ℕ, zero, suc, ◌+◌, ◌-◌, ◌≤◌, ◌<◌, ◌≡◌, refl, ap, ◌∙◌, false, Bytes, Option, none, some,
  if◌then◌else◌, length, drop, length-drop, arith,
}
use ssh_bench.Error.{Result, ok, err}
use ssh_bench.Action.{bind_result, ◌>>=◌, ◌>>◌, lift, modify}
use ssh_bench.Version.{PeerId}
use ssh_bench.Cipher.Authentic.{open_packet-Authentic}
use ssh_bench.Transport.Policy.{Phase, need_peer_version, handshake, established}
use ssh_bench.Transport.State.{Crates}
use ssh_bench.Transport.Send.{T}
use ssh_bench.Transport.Receive.{
  take_packet, receive_packet, count_received, opened, next_packet, identified, packets, by_phase,
  round, drive, rounds,
}
use ssh_bench.Transport.Epochs.{
  Core, Step, move, receive, send, close, identify, renew, latch, name_session, stage, switch_out,
  switch_in, complete_first, complete_again, Steps, stay, further, core,
}
use ssh_bench.Transport.ReceiveRefinement.{take_packet-Steps}

-- A round for the version, while it is awaited.
unfoldable pub owed : Phase → ℕ
owed need_peer_version = 1
owed handshake = 0
owed established = 0

abbrev left : Core → ℕ
left c = length c.rx - c.rx_pos + owed c.phase

-- Outside the loop the input does not move, and the version is not awaited again.
Step-left : {c d : Core} → Step false c d → left d ≤ left c
unfolding owed
Step-left (move c rx n i) = cc
Step-left (receive c n i) = cc
Step-left (send c l) = omega arith
Step-left (close c) = omega arith
Step-left (identify c n i k) = cc
Step-left (renew c) = omega arith
Step-left (latch c b k) = omega arith
Step-left (name_session c g k) = omega arith
Step-left (stage c g k) = omega arith
Step-left (switch_out c k) = omega arith
Step-left (switch_in c) = omega arith
Step-left (complete_first c es er ed el) = omega arith
Step-left (complete_again c es er ed el) = omega arith

Steps-left : {c d : Core} → Steps false c d → left d ≤ left c
Steps-left stay = omega arith
Steps-left (further w k) = let a = Steps-left w in let b = Step-left k in omega arith

module _ (C : Crates) where
  take_packet-left :
      (payload : Bytes) (t : T C) → left (core C (take_packet C payload t).1) ≤ left (core C t)
  take_packet-left payload t = Steps-left (take_packet-Steps C payload t)

  -- Two continuations that agree on every state with less left agree behind a round.
  module _ (r s : T C → Result (Unit {0}) × T C) (t : T C)
      (agree : (u : T C) → left (core C u) < left (core C t) → r u ≡ s u) where
    bind-agree :
        (x : Result (Unit {0}) × T C)
        → left (core C x.1) < left (core C t)
        → bind_result x (λ _. r) ≡ bind_result x (λ _. s)
    bind-agree (ok u, v) h = agree v h
    bind-agree (err e, v) h = refl

    received_left :
        (payload : Bytes) (n : ℕ) (u : T C)
        → left (core C u) ≡ left (core C t)
        → u.rx ≡ t.rx
        → u.rx_pos ≡ t.rx_pos
        → 9 ≤ n
        → n ≤ length (drop t.rx_pos t.rx)
        → left (core C (take_packet C payload (count_received C n u)).1) < left (core C t)
    unfolding count_received
    received_left payload n u el er eo lo hi =
        let a = take_packet-left payload (count_received C n u) in
        let rest : length u.rx ≡ length t.rx = ap length er in
        omega (arith, length-drop t.rx_pos t.rx)

    next-agree :
        (x : Result (Option (Bytes × ℕ))) (u : T C)
        → left (core C u) ≡ left (core C t)
        → u.rx ≡ t.rx
        → u.rx_pos ≡ t.rx_pos
        → ((payload : Bytes) (n : ℕ)
            → x ≡ ok (some (payload, n))
            → (n ≤ length (drop t.rx_pos t.rx)) × (9 ≤ n))
        → bind_result (x, u) (λ y. next_packet C y r) ≡ bind_result (x, u) (λ y. next_packet C y s)
    unfolding next_packet receive_packet ◌>>◌ modify
    next-agree (err e) u el er eo h = refl
    next-agree (ok none) u el er eo h = refl
    next-agree (ok (some (payload, n))) u el er eo h =
        let k = h payload n refl in
        bind-agree (take_packet C payload (count_received C n u))
          (received_left payload n u el er eo k.1 k.0)

    packets-agree : packets C r t ≡ packets C s t
    unfolding packets opened ◌>>=◌
    packets-agree = next-agree _ _ refl refl refl (λ payload n e.
        let a =
          open_packet-Authentic C.primitives t.cipher_in t.rx_seq (drop t.rx_pos t.rx) payload n
            e in
        (a.0, a.2))

    version-agree :
        (x : Result (Option (PeerId × ℕ)))
        → t.phase ≡ need_peer_version
        → (lift x >>= λ y. identified C y r) t ≡ (lift x >>= λ y. identified C y s) t
    unfolding lift identified ◌>>=◌ ◌>>◌ modify owed
    version-agree (err e) p = refl
    version-agree (ok none) p = refl
    version-agree (ok (some (peer, n))) p =
        let one : owed t.phase ≡ 1 = rw p refl in agree _ (omega arith)

    by_phase-agree : (p : Phase) → t.phase ≡ p → by_phase C p r t ≡ by_phase C p s t
    unfolding by_phase
    by_phase-agree need_peer_version e = version-agree _ e
    by_phase-agree handshake e = packets-agree
    by_phase-agree established e = packets-agree

    round-agree : round C r t ≡ round C s t
    unfolding round
    round-agree = ap (λ x. if t.closing then (ok tt, t) else x) (by_phase-agree t.phase refl)

  drive-more : (fuel : ℕ) (t : T C) → left (core C t) < fuel → drive C (suc fuel) t ≡ drive C fuel t
  unfolding drive
  drive-more zero t h = absurd (omega arith)
  drive-more (suc fuel) t h =
      round-agree (drive C (suc fuel)) (drive C fuel) t (λ u k. drive-more fuel u (omega arith))

  owed-le : (p : Phase) → owed p ≤ 1
  unfolding owed
  owed-le need_peer_version = omega arith
  owed-le handshake = omega arith
  owed-le established = omega arith

  -- The rounds that `on_input` gives to the loop of `drive`, one for each byte held and two more,
  -- are enough in every state: any number of rounds more makes no difference, to the result or to
  -- the state.
  pub drive_ends : (extra : ℕ) (t : T C) → drive C (extra + rounds C t) t ≡ drive C (rounds C t) t
  drive_ends zero t = ap (λ n. drive C n t) (omega arith)
  drive_ends (suc extra) t =
      let e : suc extra + rounds C t ≡ suc (extra + rounds C t) = omega arith in
      rw e (drive-more (extra + rounds C t) t (omega (arith, owed-le t.phase)) ∙ drive_ends extra t)
