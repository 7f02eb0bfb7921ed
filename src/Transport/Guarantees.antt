-- ===== src/Transport/Guarantees.antt =====
-- What holds in every state that a transport can be brought to from its start.
use ssh_bench.Common.{
  ℕ, ◌≤◌, ◌<◌, inl, inr, le→leb, ◌+◌, ◌%◌, ◌^◌, ◌≡◌, refl, ◌⊎◌, Bool, true, false, List, Bytes,
  Option, some, leb, if◌then◌else◌, arith,
}
use ssh_bench.Error.{err, protocol}
use ssh_bench.Action.{◌>>◌}
use ssh_bench.Cipher.{Cipher, seal_into}
use ssh_bench.Compress.{compress, compress_rounds}
use ssh_bench.Hostkey.{HostKey}
use ssh_bench.Transport.Policy.{Role, established, epoch_hard_packets}
use ssh_bench.Transport.State.{Crates}
use ssh_bench.Transport.Send.{
  T, blank, start, write_packet, seal_packet, after_send, activate_compression,
}
use ssh_bench.Transport.Epochs.{Steps, stay, core, is_sealed, staged_out}
use ssh_bench.Transport.EpochLaws.{
  is_some, Sealed, Steps-Sealed, Counted, Steps-Counted, Steps-session,
}
use ssh_bench.Transport.InboundLaws.{Received, Steps-Received}
use ssh_bench.Transport.Receive.{take_packet, count_received, check_epoch}
use ssh_bench.Transport.Refinement.{send_kexinit-From}
use ssh_bench.Transport.Calls.{Call, perform_all, perform_all-Steps}

full_or_low : (n : ℕ) → (epoch_hard_packets ≤ n) ⊎ (n < epoch_hard_packets)
full_or_low n = ground arith

module _ (C : Crates) where
  after_send-fields :
      (p : Bytes) (t : T C)
      → ((after_send C p t).tx ≡ t.tx)
        × ((after_send C p t).tx_seq ≡ t.tx_seq)
        × ((after_send C p t).closing ≡ t.closing)
  unfolding after_send activate_compression
  after_send-fields p t = go _
    where
      go :
          (b : Bool)
          → ((if b then activate_compression C t else t).tx ≡ t.tx)
            × ((if b then activate_compression C t else t).tx_seq ≡ t.tx_seq)
            × ((if b then activate_compression C t else t).closing ≡ t.closing)
      go true = (refl, refl, refl)
      go false = (refl, refl, refl)

  -- What one write seals.
  abbrev pub sealed_packet : Bytes → T C → Cipher × Bytes × C.rng.State
  sealed_packet p t =
      seal_into C.primitives C.rng t.cipher_out t.tx_seq
        (compress C.flate2 (compress_rounds C.flate2 p) t.comp_out p).0 t.rng t.tx

  -- A write seals under the sequence number, leaves it one further, and closes at the epoch's end.
  write_packet_next :
      (p : Bytes) (t : T C)
      → t.closing ≡ false
      → ((write_packet C p t).tx ≡ (sealed_packet p t).1)
        × ((write_packet C p t).tx_seq ≡ (t.tx_seq + 1) % 2 ^ 32)
        × ((write_packet C p t).closing ≡ leb epoch_hard_packets (t.tx_packets_since_rekey + 1))
  unfolding write_packet seal_packet
  write_packet_next p t h = go t.closing h
    where
      go :
          (b : Bool)
          → b ≡ false
          → ((if b then t else after_send C p (seal_packet C p t)).tx ≡ (sealed_packet p t).1)
            × ((if b then t else after_send C p (seal_packet C p t)).tx_seq
                ≡ (t.tx_seq + 1) % 2 ^ 32)
            × ((if b then t else after_send C p (seal_packet C p t)).closing
                ≡ leb epoch_hard_packets (t.tx_packets_since_rekey + 1))
      go true e = cc
      go false e = after_send-fields p (seal_packet C p t)

  -- A packet behind the epoch's bound is refused as soon as it is counted.
  refused :
      (payload : Bytes) (u : T C)
      → epoch_hard_packets ≤ u.rx_packets_since_rekey
      → take_packet C payload u
        ≡ (err (protocol "peer exceeded per-key-epoch packet limit without re-keying"), u)
  unfolding take_packet check_epoch ◌>>◌
  refused payload u h = rw (le→leb epoch_hard_packets u.rx_packets_since_rekey h) refl

  next_out :
      (t : T C) (p : Bytes)
      → t.tx_seq ≤ t.tx_packets_since_rekey + epoch_hard_packets
      → t.tx_packets_since_rekey < epoch_hard_packets
      → (write_packet C p t).tx_seq ≡ (t.tx_seq + 1) % 2 ^ 32
      → (write_packet C p t).closing ≡ leb epoch_hard_packets (t.tx_packets_since_rekey + 1)
      → ((write_packet C p t).tx_seq ≡ t.tx_seq + 1) ⊎ ((write_packet C p t).closing ≡ true)
  next_out t p ahead live s c = ground arith

  next_in :
      (t : T C) (payload : Bytes) (n : ℕ)
      → t.rx_seq ≤ t.rx_packets_since_rekey + epoch_hard_packets
      → ((count_received C n t).rx_seq ≡ t.rx_seq + 1)
        ⊎ (take_packet C payload (count_received C n t) ≡ (
          err (protocol "peer exceeded per-key-epoch packet limit without re-keying"),
          count_received C n t,
        ))
  unfolding count_received
  next_in t payload n ahead = elim (full_or_low (t.rx_packets_since_rekey + 1)) [
    | inl h ↦ inr (refused payload (count_received C n t) h)
    | inr h ↦ inl (omega arith)
  ]

  -- From any state: a session identifier, once there is one, stays the same through every sequence
  -- of calls, re-keying and errors included.
  pub session_id_fixed :
      (t : T C) (ks : List Call) (h : Bytes)
      → t.session_id ≡ some h
      → (perform_all C ks t).session_id ≡ some h
  session_id_fixed t ks h e = Steps-session (perform_all-Steps C ks t) e

module _ (C : Crates) (role : Role) (rng : C.rng.State) (key : Option (HostKey C.ed25519))
    (ciphers compressions : Option (List Bytes)) where
  abbrev pub reached : List Call → T C
  reached ks = perform_all C ks (start C role rng key ciphers compressions)

  blank-Sealed : Sealed (core C (blank C role rng key ciphers compressions))
  unfolding blank is_sealed is_some staged_out
  blank-Sealed = record {
    staged = λ h. h;
    named = λ h. cc;
    sent = λ h. cc;
    done = λ h. cc;
    up = λ h. cc;
  }

  blank-Counted : Counted (core C (blank C role rng key ciphers compressions))
  unfolding blank
  blank-Counted = record {
    bound = omega arith;
    live = λ h. omega arith;
    first = λ h. omega arith;
    switched = λ h k. omega arith;
    strict = λ h. omega arith;
  }

  blank-Received : Received (core C (blank C role rng key ciphers compressions))
  unfolding blank
  blank-Received = record {
    first = λ h. omega arith;
    switched = λ h k. omega arith;
    strict = λ h. omega arith;
  }

  start-Steps :
      Steps true
        (core C (blank C role rng key ciphers compressions))
        (core C (start C role rng key ciphers compressions))
  unfolding start
  start-Steps = send_kexinit-From C true _ (blank C role rng key ciphers compressions) stay

  reached-Sealed : (ks : List Call) → Sealed (core C (reached ks))
  reached-Sealed ks =
      Steps-Sealed (perform_all-Steps C ks _) (Steps-Sealed start-Steps blank-Sealed)

  reached-Counted : (ks : List Call) → Counted (core C (reached ks))
  reached-Counted ks =
      Steps-Counted (perform_all-Steps C ks _) (Steps-Counted start-Steps blank-Counted)

  -- Whatever calls were made since the start, in whatever order: once the transport is established
  -- its outbound cipher is a real one and it has a session identifier, and so is the cipher between
  -- our NEWKEYS and the end of an exchange.
  pub reached_sealed :
      (ks : List Call)
      → ((reached ks).phase ≡ established
          → (is_sealed (reached ks).cipher_out ≡ true) × (is_some (reached ks).session_id ≡ true))
        × ((reached ks).sent_newkeys ≡ true → is_sealed (reached ks).cipher_out ≡ true)
  reached_sealed ks =
      let s = reached-Sealed ks in (λ h. (s.done (s.up h), s.named (s.done (s.up h))), s.sent)

  reached-Received : (ks : List Call) → Received (core C (reached ks))
  reached-Received ks =
      Steps-Received (perform_all-Steps C ks _) (Steps-Received start-Steps blank-Received)

  -- Whatever calls were made since the start, and wherever in the next call the transport is, as far
  -- as the steps of the machine of Epochs lead: under strict KEX, while the transport is not closing,
  -- in both directions. A packet that is written is sealed under the sequence number that the state
  -- holds, and leaves the number one further, without wrapping to 0, or else it is the last one, as
  -- the transport is closing behind it. A packet of any length that is received and counted leaves
  -- the inbound sequence number one further, without wrapping to 0, or else it is refused as it
  -- stands: nothing of it is decompressed or handled.
  pub reached_fresh :
      (ks : List Call) (t : T C) (p payload : Bytes) (n : ℕ)
      → Steps true (core C (reached ks)) (core C t)
      → t.strict_kex ≡ true
      → t.closing ≡ false
      → ((write_packet C p t).tx ≡ (sealed_packet C p t).1)
        × (((write_packet C p t).tx_seq ≡ t.tx_seq + 1) ⊎ ((write_packet C p t).closing ≡ true))
        × (((count_received C n t).rx_seq ≡ t.rx_seq + 1)
            ⊎ (take_packet C payload (count_received C n t) ≡ (
              err (protocol "peer exceeded per-key-epoch packet limit without re-keying"),
              count_received C n t,
            )))
  reached_fresh ks t p payload n steps strict live =
      let out = Steps-Counted steps (reached-Counted ks) in
      let inbound = Steps-Received steps (reached-Received ks) in
      let w = write_packet_next C p t live in
      (
        w.0,
        next_out C t p (out.strict strict) (out.live live) w.1 w.2,
        next_in C t payload n (inbound.strict strict),
      )
