-- ===== src/Transport/KeyExchange.antt =====
-- The key exchange of transport.rs: KEXINIT, KEX_ECDH_INIT, KEX_ECDH_REPLY and NEWKEYS.
use ssh_bench.Common.{
  ◌+◌, true, false, ◌&&◌, ◌||◌, not, List, [], ◌∷◌, ◌++◌, Bytes, Option, none, some, ltb,
  if◌then◌else◌,
}
use ssh_bench.Common.Text.{codes}
use ssh_bench.Msg
use ssh_bench.Error.{Result, ok, protocol}
use ssh_bench.Action.{Action, ◌>>=◌, ◌>>◌, state, modify, lift}
use ssh_bench.Kdf.{KexHash, SharedSecret}
use ssh_bench.Cipher.{Cipher}
use ssh_bench.Compress.{new_compressor, new_decompressor}
use ssh_bench.Algo.Names.{kex_strict_client, kex_strict_server}
use ssh_bench.Algo.KexInit.{KexInit}
use ssh_bench.Algo.KexInit
use ssh_bench.Algo.Negotiate.{Negotiated, contains, negotiate}
use ssh_bench.Hostkey.{parse_blob, verify, key_blob, sign_exchange_hash}
use ssh_bench.Transport.Event.{established, server_host_key}
use ssh_bench.Transport.Policy.{Role, Phase, hash_of, shared_secret, is_server}
use ssh_bench.Transport.State.{Crates, PendingKeys, up, emit}
use ssh_bench.Transport.Send.{T, write_packet, begin_rekey_round, disconnect}
use ssh_bench.Transport.Messages.{first_is, read_init, read_reply, init_message, reply_message}
use ssh_bench.Transport.Staging.{
  required, kex_kind, ephemeral, respond, complete, compute_exchange_hash, staged,
}

module _ (C : Crates) where
  -- The packets that were queued, in order.
  unfoldable pub write_all : List Bytes → T C → T C
  write_all [] t = t
  write_all (p ∷ ps) t = write_all ps (write_packet C p t)

  unfoldable pub establish : T C → T C
  establish t = if t.initial_kex_done then t else record t {
    initial_kex_done = true;
    phase = Phase.established;
    events = t.events ++ (established ∷ []);
  }

  unfoldable pub reset_round : T C → T C
  reset_round t = record t {
    rekeying = false;
    kexinit_sent = false;
    sent_newkeys = false;
    recv_newkeys = false;
    bytes_since_rekey = 0;
    tx_packets_since_rekey = 0;
    rx_bytes_since_rekey = 0;
    rx_packets_since_rekey = 0;
    tx_app_queue = [];
  }

  unfoldable pub complete_kex : T C → T C
  complete_kex t = write_all t.tx_app_queue (reset_round (establish (record t { pending = none })))

  unfoldable pub maybe_complete_kex : T C → T C
  maybe_complete_kex t = if t.sent_newkeys && t.recv_newkeys then complete_kex t else t

  unfoldable pub take_out : Option (PendingKeys C) → T C → T C
  take_out none t = t
  take_out (some p) t = record t {
    cipher_out = p.out;
    pending = some (record p { out = Cipher.plain });
  }

  -- What `send_newkeys` does behind the write.
  unfoldable pub switch_out : T C → T C
  switch_out t =
      let u = take_out t.pending t in
      record u {
        comp_out = if u.comp_active then new_compressor C.flate2 u.comp_out_name else u.comp_out;
        tx_seq = if u.strict_kex then 0 else u.tx_seq;
        sent_newkeys = true;
      }

  unfoldable pub send_newkeys : T C → T C
  send_newkeys t = maybe_complete_kex (switch_out (write_packet C (Msg.newkeys ∷ []) t))

  unfoldable pub switch_in : PendingKeys C → T C → T C
  switch_in p t = record t {
    cipher_in = p.inn;
    pending = some (record p { inn = Cipher.plain });
    comp_in = if t.comp_active then new_decompressor C.flate2 t.comp_in_name else t.comp_in;
    rx_seq = if t.strict_kex then 0 else t.rx_seq;
    recv_newkeys = true;
  }

  unfoldable pub on_newkeys : Action (T C) (Unit {0})
  on_newkeys = do
    t ← state
    p ← lift (required (protocol "NEWKEYS before key exchange") t.pending)
    modify (λ u. maybe_complete_kex (switch_in p u))

  unfoldable pub session_or : Option Bytes → Bytes → Bytes
  session_or none h = h
  session_or (some s) h = s

  unfoldable pub stage : Role → Negotiated → PendingKeys C → T C → T C
  stage Role.client n p t = record t {
    pending = some p;
    comp_out_name = n.comp_c2s;
    comp_in_name = n.comp_s2c;
  }
  stage Role.server n p t = record t {
    pending = some p;
    comp_out_name = n.comp_s2c;
    comp_in_name = n.comp_c2s;
  }

  -- Both `unwrap`s stand behind `compute_exchange_hash`, which wants the peer's KEXINIT, and
  -- that and what was negotiated are set together.
  unfoldable pub finish_kex : Bytes → SharedSecret → KexHash → Action (T C) (Unit {0})
  finish_kex h shared hash = do
    modify (λ t. record t { session_id = some (session_or t.session_id h) })
    t ← state
    n ← lift (required (protocol "unwrap on None") t.negotiated)
    p ← lift (staged C t.role n.cipher_c2s h shared (session_or t.session_id h) hash)
    modify (stage t.role n p)

  -- A draw of the generator that may fail.
  unfoldable pub draw : {A : Type 0} → (C.rng.State → Result A × C.rng.State) → Action (T C) A
  draw f t = let x = f t.rng in (x.0, record t { rng = x.1 })

  unfoldable pub answer_init : Bytes → Action (T C) (Unit {0})
  answer_init payload = do
    q_c ← lift (read_init payload)
    t ← state
    host_key ← lift (required (protocol "server without host key") t.host_key)
    let kind = kex_kind C t
    let host_blob = key_blob C.ed25519 host_key
    x ← draw (respond C kind q_c)
    let k = shared_secret kind x.1
    h ← lift (compute_exchange_hash C t q_c x.0 host_blob k (hash_of kind))
    modify (write_packet C (reply_message host_blob x.0 (sign_exchange_hash C.ed25519 host_key h)))
    finish_kex h k (hash_of kind)
    modify send_newkeys

  unfoldable pub skip_or : Action (T C) (Unit {0}) → Action (T C) (Unit {0})
  skip_or m t = if t.skip_guess then (ok tt, record t { skip_guess = false }) else m t

  unfoldable pub on_ecdh_init : Bytes → Action (T C) (Unit {0})
  on_ecdh_init payload = skip_or (answer_init payload)

  unfoldable pub accept_reply : Bytes → Action (T C) (Unit {0})
  accept_reply payload = do
    r ← lift (read_reply payload)
    t ← state
    modify (λ u. record u { kex_eph = none })
    eph ← lift (required (protocol "KEX_ECDH_REPLY before INIT") t.kex_eph)
    x ← lift (complete C eph r.1)
    let k = shared_secret x.2 x.1
    h ← lift (compute_exchange_hash C t x.0 r.1 r.0 k (hash_of x.2))
    host_pub ← lift (parse_blob C.ed25519 r.0)
    lift (verify C.ed25519 host_pub h r.2)
    emit C (server_host_key host_pub)
    finish_kex h k (hash_of x.2)
    modify send_newkeys

  unfoldable pub on_ecdh_reply : Bytes → Action (T C) (Unit {0})
  on_ecdh_reply payload = skip_or (accept_reply payload)

  unfoldable pub send_init : T C → T C
  send_init t =
      let x = ephemeral C (kex_kind C t) t.rng in
      record (write_packet C (init_message x.0.0) (record t { rng = x.1 })) { kex_eph = some x.0.1 }

  unfoldable pub peer_marker : Role → Bytes
  peer_marker Role.client = kex_strict_server
  peer_marker Role.server = kex_strict_client

  unfoldable pub negotiate_as : Role → KexInit → KexInit → Result Negotiated
  negotiate_as Role.client ours peer = negotiate ours peer
  negotiate_as Role.server ours peer = negotiate peer ours

  unfoldable pub latch : KexInit → Negotiated → T C → T C
  latch peer n t = record t {
    strict_kex =
        if t.initial_kex_done then t.strict_kex else contains peer.kex (peer_marker t.role);
    skip_guess =
        peer.first_kex_packet_follows
        && (not (first_is peer.kex n.kex) || not (first_is peer.host_key n.host_key));
    negotiated = some n;
    peer_kexinit = some peer;
  }

  unfoldable pub agree_kexinit : Bytes → Action (T C) (Unit {0})
  agree_kexinit payload = do
    peer ← lift (KexInit.parse payload)
    t ← state
    ours ← lift (KexInit.parse t.local_kexinit)
    n ← lift (negotiate_as t.role ours peer)
    modify (latch peer n)
    modify (if is_server t.role then (λ u. u) else send_init)

  unfoldable pub peer_rekey : Bytes → Action (T C) (Unit {0})
  peer_rekey payload t =
      let n = t.consecutive_peer_rekeys + 1 in
      let counted = record t { consecutive_peer_rekeys = n } in
      if ltb t.max_consecutive_peer_rekeys n
      then (ok tt, disconnect C Msg.reason_protocol_error (codes "re-key rate exceeded") counted)
      else agree_kexinit payload (begin_rekey_round C counted)

  unfoldable pub on_peer_kexinit : Bytes → Action (T C) (Unit {0})
  on_peer_kexinit payload t =
      if up C t && not t.kexinit_sent then peer_rekey payload t else agree_kexinit payload t
