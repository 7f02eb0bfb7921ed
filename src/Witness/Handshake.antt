-- ===== src/Witness/Handshake.antt =====
-- The theorems of the transport at concrete states.
use ssh_bench.Common.{
  ℕ, zero, suc, ◌+◌, ◌^◌, ◌<◌, ◌≡◌, refl, ◌⊎◌, Bool, true, false, List, [], ◌∷◌, ◌++◌, Bytes,
  Option, none, some, length, arith,
}
use ssh_bench.Common
use ssh_bench.Common.Text.{codes}
use ssh_bench.Error.{Result, ok, err, protocol}
use ssh_bench.Wire.Reader.{usize_mod}
use ssh_bench.Hostkey.{HostKey}
use ssh_bench.Cipher.{Cipher}
use ssh_bench.Algo.KexInit.{KexInit}
use ssh_bench.Algo.Negotiate.{Negotiated}
use ssh_bench.Algo.Names
use ssh_bench.Transport.Policy.{Role, Phase, established}
use ssh_bench.Transport.State.{Transport}
use ssh_bench.Transport.Send.{T, start, blank, write_packet, send_kexinit}
use ssh_bench.Transport.KeyExchange.{answer_init, accept_reply, send_newkeys}
use ssh_bench.Transport.Receive.{on_input, drive, rounds, take_packet, count_received}
use ssh_bench.Transport.Epochs.{Steps, stay, core, is_sealed}
use ssh_bench.Transport.EpochLaws.{is_some}
use ssh_bench.Transport.Calls.{Call, perform_all, perform_all-Steps}
use ssh_bench.Transport.Guarantees.{
  reached, reached_sealed, reached_fresh, session_id_fixed, sealed_packet,
}
use ssh_bench.Transport.Progress.{drive_ends}
use ssh_bench.Witness.Primitives.{crates, one_key}

abbrev host : HostKey one_key
host = record { signing = tt }

abbrev client : T crates
client = start crates Role.client 3 none none none

perform_all-Steps_example :
    Steps true (core crates client) (
      core crates
        (perform_all crates (Call.receive (1 ∷ []) ∷ Call.rekey ∷ Call.chaff ∷ []) client))
perform_all-Steps_example =
    perform_all-Steps crates (Call.receive (1 ∷ []) ∷ Call.rekey ∷ Call.chaff ∷ []) client

drive_ends_example :
    drive crates (7 + rounds crates client) client ≡ drive crates (rounds crates client) client
drive_ends_example = drive_ends crates 7 client

abbrev calls : List Call
calls = Call.receive (codes "SSH-2.0-x") ∷ Call.output ∷ Call.leave 11 (codes "bye") ∷ []

reached_sealed_example :
    ((reached crates Role.client 3 none none none calls).phase ≡ established
      → (is_sealed (reached crates Role.client 3 none none none calls).cipher_out ≡ true)
        × (is_some (reached crates Role.client 3 none none none calls).session_id ≡ true))
    × ((reached crates Role.client 3 none none none calls).sent_newkeys ≡ true
        → is_sealed (reached crates Role.client 3 none none none calls).cipher_out ≡ true)
reached_sealed_example = reached_sealed crates Role.client 3 none none none calls

abbrev server : T crates
server = start crates Role.server 5 (some host) none none

-- The server's identification and KEXINIT reach the client.
abbrev greeted : List Call
greeted = Call.receive server.tx ∷ []

greeted_strict :
    ((reached crates Role.client 3 none none none greeted).strict_kex ≡ true)
    × ((reached crates Role.client 3 none none none greeted).closing ≡ false)
unfolding start perform_all ssh_bench.Transport.Calls.perform on_input send_kexinit write_packet
    blank ssh_bench.Transport.Send.after_send ssh_bench.Transport.Policy.is_server
    ssh_bench.Transport.Send.seal_packet drive Common.bytes_eq Names.compression_none
    Names.compression_zlib_openssh ssh_bench.Cipher.seal_into ssh_bench.Packet.encode_plain_into
    ssh_bench.Version.local_id_line ssh_bench.Wire.BigEndian.to_be ssh_bench.Compress.compress
    ssh_bench.Algo.KexInit.ours_with ssh_bench.Wire.Writer.into_bytes ssh_bench.Wire.Writer.u32
    ssh_bench.Wire.Writer.boolean ssh_bench.Wire.Writer.name_list ssh_bench.Wire.Writer.write_names
    ssh_bench.Transport.Send.offered Names.compressions Names.macs Names.ciphers
    Names.hostkey_algorithms ssh_bench.Algo.KexInit.offered_kex Names.kex_algorithms
    ssh_bench.Wire.Writer.raw ssh_bench.Wire.Writer.u8 ssh_bench.Wire.Writer.new Common.take
    Common.replicate Names.kex_mlkem768_x25519 Names.kex_sntrup761_x25519 Names.kex_curve25519
    Names.kex_curve25519_libssh Names.kex_strict_server Names.hostkey_ed25519
    Names.cipher_chacha20_poly1305 Names.cipher_aes256_gcm ssh_bench.Packet.padding_len
    ssh_bench.Transport.Receive.round ssh_bench.Transport.Receive.by_phase ssh_bench.Action.◌>>=◌
    ssh_bench.Action.lift ssh_bench.Version.parse_peer_id Common.drop ssh_bench.Version.position
    ssh_bench.Version.is_id ssh_bench.Version.starts_with ssh_bench.Version.line_at
    ssh_bench.Transport.Receive.identified ssh_bench.Action.◌>>◌ ssh_bench.Action.modify
    ssh_bench.Transport.Receive.packets ssh_bench.Transport.Receive.opened
    ssh_bench.Cipher.open_packet ssh_bench.Packet.decode_plain ssh_bench.Wire.BigEndian.from_be_acc
    ssh_bench.Transport.Receive.next_packet ssh_bench.Transport.Receive.receive_packet
    ssh_bench.Transport.Receive.take_packet ssh_bench.Transport.Receive.check_epoch
    ssh_bench.Transport.Receive.count_received ssh_bench.Transport.Receive.decompress_in
    ssh_bench.Compress.decompress ssh_bench.Transport.Receive.handle_packet
    ssh_bench.Transport.Receive.dispatch ssh_bench.Action.state
    ssh_bench.Transport.KeyExchange.on_peer_kexinit ssh_bench.Transport.State.up
    ssh_bench.Transport.Policy.is_established ssh_bench.Transport.KeyExchange.agree_kexinit
    ssh_bench.Algo.KexInit.parse ssh_bench.Wire.Reader.u8 ssh_bench.Wire.Reader.take
    ssh_bench.Wire.Reader.new ssh_bench.Algo.KexInit.r_take16 ssh_bench.Wire.Reader.name_list
    ssh_bench.Wire.Reader.string ssh_bench.Wire.Reader.u32 ssh_bench.Wire.Writer.sum_lengths
    ssh_bench.Common.Text.is_ascii ssh_bench.Wire.Reader.count ssh_bench.Common.Text.is_utf8
    ssh_bench.Wire.Reader.boolean Names.kex_strict_client
    ssh_bench.Transport.KeyExchange.negotiate_as ssh_bench.Algo.Negotiate.negotiate
    ssh_bench.Error.◌>>=◌ ssh_bench.Algo.Negotiate.pick ssh_bench.Wire.Reader.split
    ssh_bench.Algo.Negotiate.contains ssh_bench.Transport.Receive.rekey_if_due
    ssh_bench.Transport.Receive.after_receive ssh_bench.Transport.KeyExchange.send_init
    ssh_bench.Transport.KeyExchange.latch ssh_bench.Transport.Receive.compact_rx
    ssh_bench.Transport.KeyExchange.peer_marker
greeted_strict = (refl, refl)

abbrev met : T crates
met = reached crates Role.client 3 none none none greeted

reached_fresh_example :
    ((write_packet crates (94 ∷ []) met).tx ≡ (sealed_packet crates (94 ∷ []) met).1)
    × (((write_packet crates (94 ∷ []) met).tx_seq ≡ met.tx_seq + 1)
        ⊎ ((write_packet crates (94 ∷ []) met).closing ≡ true))
    × (((count_received crates 28 met).rx_seq ≡ met.rx_seq + 1)
        ⊎ (take_packet crates (21 ∷ []) (count_received crates 28 met) ≡ (
          err (protocol "peer exceeded per-key-epoch packet limit without re-keying"),
          count_received crates 28 met,
        )))
reached_fresh_example =
    reached_fresh crates Role.client 3 none none none greeted met (94 ∷ []) (21 ∷ []) 28 stay
      greeted_strict.0 greeted_strict.1

-- A client that is up.
abbrev connected : T crates
connected = record client {
  phase = established;
  initial_kex_done = true;
  session_id = some (7 ∷ []);
}

abbrev later : List Call
later = Call.rekey ∷ Call.receive (1 ∷ 2 ∷ []) ∷ Call.leave 11 [] ∷ []

session_id_fixed_example : (perform_all crates later connected).session_id ≡ some (7 ∷ [])
unfolding start
session_id_fixed_example = session_id_fixed crates connected later (7 ∷ []) refl
