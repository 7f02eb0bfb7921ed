-- ===== src/Transport/Receive.antt =====
-- What the transport does with received bytes: `on_input`, `drive` and `handle_packet`.
use ssh_bench.Common.{
  ℕ, zero, suc, ◌+◌, ◌-◌, ◌%◌, ◌^◌, min, ◌&&◌, ◌||◌, not, [], ◌∷◌, ◌++◌, Bytes, Option, none, some,
  leb, ◌==◌, bytes_eq, if◌then◌else◌, length, drop,
}
use ssh_bench.Msg
use ssh_bench.Error.{ok, err, protocol, bad_packet}
use ssh_bench.Action.{Action, ◌>>=◌, ◌>>◌, done, state, modify, lift}
use ssh_bench.Cipher.{open_packet}
use ssh_bench.Compress.{decompress}
use ssh_bench.Version.{PeerId, parse_peer_id}
use ssh_bench.Algo.Names.{compression_zlib_openssh}
use ssh_bench.Transport.Event.{packet, disconnected}
use ssh_bench.Transport.Policy.{
  Phase, need_peer_version, handshake, established, epoch_hard_packets, is_server,
}
use ssh_bench.Transport.State.{Crates, up, emit}
use ssh_bench.Transport.Send.{T, initiate_rekey, activate_compression, starts_with_id}
use ssh_bench.Transport.Messages.{read_disconnect}
use ssh_bench.Transport.KeyExchange.{on_peer_kexinit, on_ecdh_init, on_ecdh_reply, on_newkeys}

module _ (C : Crates) where
  unfoldable pub decompress_in : Bytes → Action (T C) Bytes
  decompress_in payload t =
      let x = decompress C.flate2 t.comp_in payload in (x.0, record t { comp_in = x.1 })

  unfoldable pub compact_rx : T C → T C
  compact_rx t =
      if t.rx_pos == 0
      then t
      else if leb (length t.rx) t.rx_pos
      then record t { rx = []; rx_pos = 0 }
      else record t { rx = drop t.rx_pos t.rx; rx_pos = 0 }

  unfoldable pub on_disconnect : Bytes → Action (T C) (Unit {0})
  on_disconnect payload = do x ← lift (read_disconnect payload); emit C (disconnected x.0 x.1)

  -- Behind the housekeeping and the key exchange messages.
  unfoldable pub deliver : Bytes → Action (T C) (Unit {0})
  deliver payload t =
      if up C t
      then (
        ok tt,
        record t { consecutive_peer_rekeys = 0; events = t.events ++ (packet payload ∷ []) },
      )
      else (err (protocol "unexpected message during handshake"), t)

  unfoldable pub dispatch : ℕ → Bytes → Action (T C) (Unit {0})
  dispatch id payload = state >>= λ t.
      if id == Msg.ignore || id == Msg.debug
      then done
      else if id == Msg.disconnect
      then on_disconnect payload
      else if id == Msg.kexinit
      then on_peer_kexinit C payload
      else if id == Msg.kex_ecdh_init && is_server t.role
      then on_ecdh_init C payload
      else if id == Msg.kex_ecdh_reply && not (is_server t.role)
      then on_ecdh_reply C payload
      else if id == Msg.newkeys
      then on_newkeys C
      else deliver payload

  unfoldable pub handle_packet : Bytes → Action (T C) (Unit {0})
  handle_packet [] t = (err (bad_packet "empty payload"), t)
  handle_packet (id ∷ body) t =
      if t.strict_kex
        && not (up C t)
        && (id == Msg.ignore || id == Msg.debug || id == Msg.unimplemented)
      then (err (protocol "unexpected message during strict KEX"), t)
      else dispatch id (id ∷ body) t

  -- What `drive` counts for a packet of so many bytes.
  unfoldable pub count_received : ℕ → T C → T C
  count_received consumed t = record t {
    rx_pos = t.rx_pos + consumed;
    rx_seq = (t.rx_seq + 1) % 2 ^ 32;
    rx_bytes_since_rekey = min (t.rx_bytes_since_rekey + consumed) (2 ^ 64 - 1);
    rx_packets_since_rekey = t.rx_packets_since_rekey + 1;
  }

  unfoldable pub check_epoch : Action (T C) (Unit {0})
  check_epoch t =
      if leb epoch_hard_packets t.rx_packets_since_rekey
      then (err (protocol "peer exceeded per-key-epoch packet limit without re-keying"), t)
      else (ok tt, t)

  -- Delayed compression at the client, behind USERAUTH_SUCCESS.
  unfoldable pub after_receive : Bytes → T C → T C
  after_receive payload t =
      if not (is_server t.role)
        && not t.comp_active
        && bytes_eq t.comp_in_name compression_zlib_openssh
        && starts_with_id Msg.userauth_success payload
      then activate_compression C t
      else t

  unfoldable pub rekey_if_due : T C → T C
  rekey_if_due t =
      if up C t
        && (leb t.rekey_bytes_limit t.rx_bytes_since_rekey
            || leb t.rekey_packets_limit t.rx_packets_since_rekey)
      then initiate_rekey C t
      else t

  -- What `drive` does with a packet once it is counted.
  unfoldable pub take_packet : Bytes → Action (T C) (Unit {0})
  take_packet payload = do
    check_epoch
    clear ← decompress_in payload
    handle_packet clear
    modify (after_receive clear)
    modify rekey_if_due

  unfoldable pub receive_packet : Bytes → ℕ → Action (T C) (Unit {0})
  receive_packet payload consumed = modify (count_received consumed) >> take_packet payload

  unfoldable pub opened : Action (T C) (Option (Bytes × ℕ))
  opened t =
      let x = open_packet C.primitives t.cipher_in t.rx_seq (drop t.rx_pos t.rx) in
      (x.0, record t { cipher_in = x.1 })

  unfoldable pub next_packet :
      Option (Bytes × ℕ) → Action (T C) (Unit {0}) → Action (T C) (Unit {0})
  next_packet none rest = modify compact_rx
  next_packet (some (payload, consumed)) rest = receive_packet payload consumed >> rest

  unfoldable pub identified :
      Option (PeerId × ℕ) → Action (T C) (Unit {0}) → Action (T C) (Unit {0})
  identified none rest = modify compact_rx
  identified (some (peer, consumed)) rest =
      modify
        (λ t. record t { peer_id = some peer.raw; rx_pos = t.rx_pos + consumed; phase = handshake })
      >> rest

  unfoldable pub packets : Action (T C) (Unit {0}) → Action (T C) (Unit {0})
  packets rest = opened >>= λ x. next_packet x rest

  unfoldable pub by_phase : Phase → Action (T C) (Unit {0}) → Action (T C) (Unit {0})
  by_phase need_peer_version rest t =
      (lift (parse_peer_id (drop t.rx_pos t.rx) (not (is_server t.role))) >>= λ x.
      identified x rest)
        t
  by_phase handshake rest t = packets rest t
  by_phase established rest t = packets rest t

  -- A round of the loop of `drive`.
  unfoldable pub round : Action (T C) (Unit {0}) → Action (T C) (Unit {0})
  round rest t = if t.closing then (ok tt, t) else by_phase t.phase rest t

  -- A round that goes on takes a byte or the peer's version, so that a round for each byte that is
  -- left and two more are enough.
  unfoldable pub drive : ℕ → Action (T C) (Unit {0})
  drive zero = done
  drive (suc fuel) = round (drive fuel)

  abbrev pub rounds : T C → ℕ
  rounds t = length t.rx + 2

  unfoldable pub on_input : Bytes → Action (T C) (Unit {0})
  on_input bytes t =
      if t.closing
      then (ok tt, t)
      else (let t' = record t { rx = t.rx ++ bytes } in drive (rounds t') t')
