-- ===== src/Transport/Send.antt =====
-- What the transport sends: packets, its KEXINIT, chaff, and the disconnect.
use ssh_bench.Common.{
  ℕ, zero, suc, ◌+◌, ◌-◌, ◌%◌, ◌^◌, min, Bool, true, false, ◌&&◌, ◌||◌, not, List, [], ◌∷◌, ◌++◌,
  Bytes, Option, none, some, leb, ◌==◌, bytes_eq, if◌then◌else◌, length,
}
use ssh_bench.Msg
use ssh_bench.Error.{ok, err, protocol}
use ssh_bench.Action.{Action, ◌>>◌, done}
use ssh_bench.Wire.Writer.{◌▸◌}
use ssh_bench.Wire.Writer
use ssh_bench.Cipher.{Cipher, seal_into}
use ssh_bench.Compress.{Compressor, compress, compress_rounds, new_compressor, new_decompressor}
use ssh_bench.Compress
use ssh_bench.Version.{local_id, local_id_line}
use ssh_bench.Algo.Names.{ciphers, compressions, compression_none, compression_zlib_openssh}
use ssh_bench.Algo.KexInit.{ours_with}
use ssh_bench.Hostkey.{HostKey}
use ssh_bench.Transport.Policy
use ssh_bench.Transport.Policy.{
  Role, Phase, epoch_hard_packets, rekey_bytes, rekey_packets, default_max_consecutive_peer_rekeys,
  chaff_enabled, chaff_len_bound, is_server,
}
use ssh_bench.Transport.State.{Crates, Transport, up}

-- Whether the first byte is this one.
unfoldable pub starts_with_id : ℕ → Bytes → Bool
starts_with_id id [] = false
starts_with_id id (b ∷ bs) = b == id

module _ (C : Crates) where
  abbrev pub T : Type 0
  T = Transport C

  unfoldable pub activate_compression : T → T
  activate_compression t = record t {
    comp_active = true;
    comp_out = new_compressor C.flate2 t.comp_out_name;
    comp_in = new_decompressor C.flate2 t.comp_in_name;
  }

  -- Compress, seal, and count.
  unfoldable pub seal_packet : Bytes → T → T
  seal_packet payload t =
      let z = compress C.flate2 (compress_rounds C.flate2 payload) t.comp_out payload in
      let x = seal_into C.primitives C.rng t.cipher_out t.tx_seq z.0 t.rng t.tx in
      record t {
        cipher_out = x.0;
        tx = x.1;
        rng = x.2;
        comp_out = z.1;
        tx_packets_since_rekey = t.tx_packets_since_rekey + 1;
        tx_seq = (t.tx_seq + 1) % 2 ^ 32;
        closing = leb epoch_hard_packets (t.tx_packets_since_rekey + 1);
      }

  -- Delayed compression at the server, behind USERAUTH_SUCCESS.
  unfoldable pub after_send : Bytes → T → T
  after_send payload t =
      if is_server t.role
        && not t.comp_active
        && bytes_eq t.comp_out_name compression_zlib_openssh
        && starts_with_id Msg.userauth_success payload
      then activate_compression t
      else t

  unfoldable pub write_packet : Bytes → T → T
  write_packet payload t = if t.closing then t else after_send payload (seal_packet payload t)

  unfoldable pub offered : Option (List Bytes) → List Bytes → List Bytes
  offered none default = default
  offered (some pref) default = pref

  unfoldable pub send_kexinit : T → T
  send_kexinit t =
      let seed = C.rng.fill_bytes 32 t.rng in
      let ki =
        ours_with C.primitives.shake128 C.with_sntrup761 seed.0 (is_server t.role)
          (offered t.offered_ciphers ciphers) (offered t.offered_compression compressions) in
      let sent = write_packet ki.payload (record t { rng = seed.1 }) in
      record sent { local_kexinit = ki.payload; kexinit_sent = true }

  -- The state before the first KEXINIT.
  unfoldable pub blank :
      Role
      → C.rng.State
      → Option (HostKey C.ed25519)
      → Option (List Bytes)
      → Option (List Bytes)
      → T
  blank role rng host_key offered_ciphers offered_compression = record {
    role = role;
    rng = rng;
    phase = Phase.need_peer_version;
    rx = [];
    rx_pos = 0;
    tx = local_id_line;
    tx_seq = 0;
    rx_seq = 0;
    cipher_out = Cipher.plain;
    cipher_in = Cipher.plain;
    comp_out = Compress.off;
    comp_in = Compress.Decompressor.off;
    comp_out_name = compression_none;
    comp_in_name = compression_none;
    comp_active = false;
    local_id = local_id;
    peer_id = none;
    local_kexinit = [];
    peer_kexinit = none;
    negotiated = none;
    kex_eph = none;
    pending = none;
    sent_newkeys = false;
    recv_newkeys = false;
    skip_guess = false;
    strict_kex = false;
    initial_kex_done = false;
    rekeying = false;
    kexinit_sent = false;
    tx_app_queue = [];
    bytes_since_rekey = 0;
    tx_packets_since_rekey = 0;
    rx_bytes_since_rekey = 0;
    rx_packets_since_rekey = 0;
    rekey_bytes_limit = rekey_bytes;
    rekey_packets_limit = rekey_packets;
    consecutive_peer_rekeys = 0;
    max_consecutive_peer_rekeys = default_max_consecutive_peer_rekeys;
    session_id = none;
    host_key = host_key;
    events = [];
    offered_ciphers = offered_ciphers;
    offered_compression = offered_compression;
    closing = false;
    obfuscation = Policy.off;
  }

  unfoldable pub start :
      Role
      → C.rng.State
      → Option (HostKey C.ed25519)
      → Option (List Bytes)
      → Option (List Bytes)
      → T
  start role rng host_key offered_ciphers offered_compression =
      send_kexinit (blank role rng host_key offered_ciphers offered_compression)

  unfoldable pub begin_rekey_round : T → T
  begin_rekey_round t = send_kexinit (record t {
    rekeying = true;
    sent_newkeys = false;
    recv_newkeys = false;
    peer_kexinit = none;
    negotiated = none;
    kex_eph = none;
    skip_guess = false;
  })

  unfoldable pub initiate_rekey : T → T
  initiate_rekey t = if up C t && not t.rekeying then begin_rekey_round t else t

  -- From the packet that was written on.
  unfoldable pub count_sent : Bytes → T → T
  count_sent payload t =
      let bytes = min (t.bytes_since_rekey + length payload) (2 ^ 64 - 1) in
      let counted = record t { bytes_since_rekey = bytes } in
      if leb t.rekey_bytes_limit bytes || leb t.rekey_packets_limit t.tx_packets_since_rekey
      then initiate_rekey counted
      else counted

  unfoldable pub send_packet : Bytes → Action T (Unit {0})
  send_packet payload t =
      if not (up C t)
      then (err (protocol "send before transport established"), t)
      else if t.rekeying
      then (ok tt, record t { tx_app_queue = t.tx_app_queue ++ (payload ∷ []) })
      else (ok tt, count_sent payload (write_packet payload t))

  unfoldable pub build_chaff : T → Bytes × T
  build_chaff t =
      let bound = chaff_len_bound t.obfuscation in
      let drawn = C.rng.next_u32 t.rng in
      let bytes = C.rng.fill_bytes (drawn.0 % (bound + 1)) drawn.1 in
      (
        Writer.into_bytes (Writer.new ▸ Writer.u8 Msg.ignore ▸ Writer.string bytes.0),
        record t { rng = bytes.1 },
      )

  unfoldable pub chaff_packet : Action T (Unit {0})
  chaff_packet t = let x = build_chaff t in send_packet x.0 x.1

  unfoldable pub send_chaff : Action T (Unit {0})
  send_chaff t = if not (up C t) then (ok tt, t) else chaff_packet t

  unfoldable pub chaff_packets : ℕ → Action T (Unit {0})
  chaff_packets zero = done
  chaff_packets (suc n) = chaff_packet >> chaff_packets n

  unfoldable pub send_chaff_burst : Action T (Unit {0})
  send_chaff_burst t =
      if not (up C t) || not (chaff_enabled t.obfuscation)
      then (ok tt, t)
      else (let drawn = C.rng.next_u32 t.rng in
          chaff_packets (drawn.0 % (t.obfuscation.max_chaff_per_flush + 1))
            (record t { rng = drawn.1 }))

  unfoldable pub disconnect : ℕ → Bytes → T → T
  disconnect reason description t =
      if t.closing
      then t
      else record (write_packet
          (Writer.into_bytes (
            Writer.new
            ▸ Writer.u8 Msg.disconnect
            ▸ Writer.u32 reason
            ▸ Writer.string description
            ▸ Writer.string []))
          t) { closing = true }
