-- ===== src/Transport/ReceiveRefinement.antt =====
-- Receiving moves the machine of Epochs by its steps.
use ssh_bench.Common.{
  ℕ, zero, suc, ◌+◌, ◌<◌, ◌≡◌, refl, Bool, true, false, [], ◌∷◌, ◌++◌, Bytes, Option, none, some,
  ◌==◌, length, drop, leb, if◌then◌else◌, arith,
}
use ssh_bench.Error.{Result, ok, err, protocol}
use ssh_bench.Action.{
  Action, bind_result, Keeps, bind-Keeps, then-Keeps, done-Keeps, lift-Keeps, state-Keeps,
  modify-Keeps, if-Keeps, lift, modify, ◌>>=◌, ◌>>◌,
}
use ssh_bench.Version.{PeerId}
use ssh_bench.Transport.Policy.{
  Phase, need_peer_version, handshake, established, epoch_hard_packets,
}
use ssh_bench.Transport.State.{Crates}
use ssh_bench.Transport.Send.{T, activate_compression, initiate_rekey}
use ssh_bench.Transport.Receive.{
  decompress_in, compact_rx, on_disconnect, deliver, dispatch, handle_packet, count_received,
  check_epoch, take_packet, after_receive, rekey_if_due, receive_packet, opened, next_packet,
  identified, packets, by_phase, round, drive, on_input,
}
use ssh_bench.Transport.Epochs.{
  Core, Step, Steps, stay, further, core, append, Steps-loop, Steps-rx_epoch,
}
use ssh_bench.Transport.Epochs
use ssh_bench.Transport.Refinement.{
  pick-From, pick_result-From, initiate_rekey-From, activate_compression-From,
}
use ssh_bench.Transport.KexRefinement.{F, Low}
use ssh_bench.Transport.HandlerRefinement.{
  on_ecdh_init-Keeps, on_ecdh_reply-Keeps, on_newkeys-Keeps, on_peer_kexinit-Keeps, emit-Keeps,
}

module _ (C : Crates) (io : Bool) (c : Core) where
  on_disconnect-Keeps : (payload : Bytes) → Keeps (F C io c) (on_disconnect C payload)
  unfolding on_disconnect
  on_disconnect-Keeps payload = bind-Keeps (lift-Keeps _) λ x. emit-Keeps C io c _

  deliver-Keeps : (payload : Bytes) → Keeps (F C io c) (deliver C payload)
  unfolding deliver
  deliver-Keeps payload = record { keeps = λ t h. pick_result-From C io c _ _ _ h h }

  dispatch-Keeps :
      Low C io c → (id : ℕ) (payload : Bytes) → Keeps (F C io c) (dispatch C id payload)
  unfolding dispatch
  dispatch-Keeps low id payload = bind-Keeps state-Keeps λ t. if-Keeps _ done-Keeps (
      if-Keeps _ (on_disconnect-Keeps payload) (
        if-Keeps _ (on_peer_kexinit-Keeps C io c payload) (
          if-Keeps _ (on_ecdh_init-Keeps C io c low payload) (
            if-Keeps _ (on_ecdh_reply-Keeps C io c low payload)
              (if-Keeps _ (on_newkeys-Keeps C io c low) (deliver-Keeps payload))))))

  handle_packet-Keeps : Low C io c → (payload : Bytes) → Keeps (F C io c) (handle_packet C payload)
  unfolding handle_packet
  handle_packet-Keeps low [] = record { keeps = λ t h. h }
  handle_packet-Keeps low (id ∷ body) = record {
    keeps = λ t h. pick_result-From C io c _ _ _ h ((dispatch-Keeps low id (id ∷ body)).keeps t h);
  }

  decompress_in-Keeps : (payload : Bytes) → Keeps (F C io c) (decompress_in C payload)
  unfolding decompress_in
  decompress_in-Keeps payload = record { keeps = λ t h. h }

  after_receive-From : (p : Bytes) (t : T C) → F C io c t → F C io c (after_receive C p t)
  unfolding after_receive
  after_receive-From p t h =
      pick-From C io c _ (activate_compression C t) t (activate_compression-From C io c t h) h

  rekey_if_due-From : (t : T C) → F C io c t → F C io c (rekey_if_due C t)
  unfolding rekey_if_due
  rekey_if_due-From t h =
      pick-From C io c _ (initiate_rekey C t) t (initiate_rekey-From C io c t h) h

  handled-Keeps :
      Low C io c
      → (payload : Bytes)
      → Keeps (F C io c) (
          decompress_in C payload >>= λ clear.
          handle_packet C clear >> (modify (after_receive C clear) >> modify (rekey_if_due C)))
  handled-Keeps low payload = bind-Keeps (decompress_in-Keeps payload) λ clear.
      then-Keeps (handle_packet-Keeps low clear)
        (then-Keeps (modify-Keeps _ (after_receive-From clear)) (modify-Keeps _ rekey_if_due-From))

  pub opened-Keeps : Keeps (F C io c) (opened C)
  unfolding opened
  opened-Keeps = record { keeps = λ t h. h }

-- A packet is handled in the steps of handlers, and only while the epoch's bound is not reached.
module _ (C : Crates) where
  low_behind : (t : T C) → t.rx_packets_since_rekey < epoch_hard_packets → Low C false (core C t)
  low_behind t h u w = let a = Steps-rx_epoch w in omega arith

  pub take_packet-Steps :
      (payload : Bytes) (t : T C) → Steps false (core C t) (core C (take_packet C payload t).1)
  unfolding take_packet check_epoch ◌>>◌
  take_packet-Steps payload t =
      go (leb epoch_hard_packets t.rx_packets_since_rekey) (λ e. ground arith)
    where
      handled : Action (T C) (Unit {0})
      handled = decompress_in C payload >>= λ clear.
          handle_packet C clear >> (modify (after_receive C clear) >> modify (rekey_if_due C))

      go :
          (b : Bool)
          → (b ≡ false → t.rx_packets_since_rekey < epoch_hard_packets)
          → Steps false (core C t) (
              core C
                (bind_result
                  (if◌then◌else◌ {A = Result (Unit {0}) × T C} b
                    (err (protocol "peer exceeded per-key-epoch packet limit without re-keying"), t)
                    (ok tt, t))
                  (λ _. handled)).1)
      go true h = stay
      go false h = (handled-Keeps C false (core C t) (low_behind t (h refl)) payload).keeps t stay

-- The loop, which moves the input.
module _ (C : Crates) (c : Core) where
  moved :
      (t : T C) (rx : Bytes) (pos : ℕ)
      → F C true c t
      → F C true c (record t { rx = rx; rx_pos = pos })
  moved t rx pos h = further h (Epochs.move (core C t) rx pos refl)

  compact_rx-From : (t : T C) → F C true c t → F C true c (compact_rx C t)
  unfolding compact_rx
  compact_rx-From t h = pick-From C true c (t.rx_pos == 0) t _ h (
      pick-From C true c (leb (length t.rx) t.rx_pos) (record t { rx = []; rx_pos = 0 })
        (record t { rx = drop t.rx_pos t.rx; rx_pos = 0 }) (moved t [] 0 h)
        (moved t (drop t.rx_pos t.rx) 0 h))

  receive_packet-Keeps : (payload : Bytes) (n : ℕ) → Keeps (F C true c) (receive_packet C payload n)
  unfolding receive_packet count_received
  receive_packet-Keeps payload n =
      then-Keeps (modify-Keeps _ (λ t h. further h (Epochs.receive (core C t) (t.rx_pos + n) refl)))
        (record { keeps = λ t h. append h (Steps-loop (take_packet-Steps C payload t)) })

  next_packet-Keeps :
      (x : Option (Bytes × ℕ)) (rest : Action (T C) (Unit {0}))
      → Keeps (F C true c) rest
      → Keeps (F C true c) (next_packet C x rest)
  unfolding next_packet
  next_packet-Keeps none rest hr = modify-Keeps _ compact_rx-From
  next_packet-Keeps (some (payload, n)) rest hr = then-Keeps (receive_packet-Keeps payload n) hr

  identify-From :
      (x : Result (Option (PeerId × ℕ))) (rest : Action (T C) (Unit {0})) (t : T C)
      → Keeps (F C true c) rest
      → t.phase ≡ need_peer_version
      → F C true c t
      → F C true c ((lift x >>= λ y. identified C y rest) t).1
  unfolding ◌>>=◌ ◌>>◌ lift modify identified
  identify-From (err e) rest t hr e' h = h
  identify-From (ok none) rest t hr e' h = compact_rx-From t h
  identify-From (ok (some (peer, n))) rest t hr e' h =
      hr.keeps _ (further h (Epochs.identify (core C t) (t.rx_pos + n) refl e'))

  packets-Keeps :
      (rest : Action (T C) (Unit {0}))
      → Keeps (F C true c) rest
      → Keeps (F C true c) (packets C rest)
  unfolding packets
  packets-Keeps rest hr = bind-Keeps (opened-Keeps C true c) λ x. next_packet-Keeps x rest hr

  by_phase-From :
      (rest : Action (T C) (Unit {0})) (t : T C) (p : Phase)
      → Keeps (F C true c) rest
      → t.phase ≡ p
      → F C true c t
      → F C true c (by_phase C p rest t).1
  unfolding by_phase
  by_phase-From rest t need_peer_version hr e h = identify-From _ rest t hr e h
  by_phase-From rest t handshake hr e h = (packets-Keeps rest hr).keeps t h
  by_phase-From rest t established hr e h = (packets-Keeps rest hr).keeps t h

  round-Keeps :
      (rest : Action (T C) (Unit {0})) → Keeps (F C true c) rest → Keeps (F C true c) (round C rest)
  unfolding round
  round-Keeps rest hr = record {
    keeps = λ t h.
        pick_result-From C true c t.closing (ok tt, t) (by_phase C t.phase rest t) h
          (by_phase-From rest t t.phase hr refl h);
  }

  drive-Keeps : (fuel : ℕ) → Keeps (F C true c) (drive C fuel)
  unfolding drive
  drive-Keeps zero = done-Keeps
  drive-Keeps (suc fuel) = round-Keeps (drive C fuel) (drive-Keeps fuel)

  pub on_input-Keeps : (bytes : Bytes) → Keeps (F C true c) (on_input C bytes)
  unfolding on_input
  on_input-Keeps bytes = record {
    keeps = λ t h.
        pick_result-From C true c t.closing _ _ h
          ((drive-Keeps _).keeps _ (moved t (t.rx ++ bytes) t.rx_pos h));
  }
