-- ===== src/Witness/Exchange.antt =====
-- A client and a server in the middle of their first exchange, and how it ends.
use ssh_bench.Common.{
  ℕ, ◌+◌, ◌^◌, ◌<◌, ◌≡◌, refl, true, false, List, [], ◌∷◌, Bytes, Option, none, some, length, arith,
}
use ssh_bench.Common
use ssh_bench.Common.Text.{codes}
use ssh_bench.Error.{Result, ok, err}
use ssh_bench.Hostkey.{HostKey}
use ssh_bench.Cipher.{Cipher}
use ssh_bench.Algo.KexInit.{KexInit}
use ssh_bench.Algo.Negotiate.{Negotiated}
use ssh_bench.Algo.Names.{kex_curve25519, hostkey_ed25519, cipher_aes256_gcm, compression_none}
use ssh_bench.Transport.Policy.{Role}
use ssh_bench.Transport.State.{Transport}
use ssh_bench.Transport.State
use ssh_bench.Transport.Send.{T, blank, write_packet}
use ssh_bench.Transport.Messages.{init_message}
use ssh_bench.Transport.KeyExchange.{answer_init, accept_reply, send_newkeys}
use ssh_bench.Transport.MirroredKeys.{IsCrates}
use ssh_bench.Transport.Handshake.{finished}
use ssh_bench.Transport.Agreement.{
  Mirrored, blob, agreed_hash, reply, MessagesFit, handshake_agrees,
}
use ssh_bench.Witness.Primitives.{
  crates, one_key, one_key-IsEd25519, padded-IsSha2, products-IsX25519, open_kem-IsMlkem768,
  open_ntru-IsSntrup761,
}

abbrev host : HostKey one_key
host = record { signing = tt }

-- The parsed lists play no part from here on.
abbrev kexinit_of : Bytes → KexInit
kexinit_of payload = record {
  payload = payload;
  kex = [];
  host_key = [];
  cipher_c2s = [];
  cipher_s2c = [];
  comp_c2s = [];
  comp_s2c = [];
  first_kex_packet_follows = false;
}

abbrev chosen : Negotiated
chosen = record {
  kex = kex_curve25519;
  host_key = hostkey_ed25519;
  cipher_c2s = cipher_aes256_gcm;
  cipher_s2c = cipher_aes256_gcm;
  comp_c2s = compression_none;
  comp_s2c = compression_none;
}

abbrev client : T crates
client = record (blank crates Role.client 3 none none none) {
  local_id = codes "c";
  peer_id = some (codes "s");
  local_kexinit = 20 ∷ 1 ∷ [];
  peer_kexinit = some (kexinit_of (20 ∷ 2 ∷ []));
  negotiated = some chosen;
  kex_eph = some (State.classical (record { secret = 3; public = 3 ∷ Common.replicate 31 0 }));
}

abbrev server : T crates
server = record (blank crates Role.server 5 (some host) none none) {
  local_id = codes "s";
  peer_id = some (codes "c");
  local_kexinit = 20 ∷ 2 ∷ [];
  peer_kexinit = some (kexinit_of (20 ∷ 1 ∷ []));
  negotiated = some chosen;
}

crates-IsCrates : IsCrates crates
crates-IsCrates = record {
  sha2 = padded-IsSha2;
  x25519 = products-IsX25519;
  mlkem768 = open_kem-IsMlkem768;
  sntrup761 = open_ntru-IsSntrup761;
  ed25519 = one_key-IsEd25519;
}

client-server-Mirrored : Mirrored crates client server 3 chosen host
unfolding blank ssh_bench.Transport.Staging.ephemeral ssh_bench.Transport.Staging.kex_kind
    ssh_bench.Transport.Staging.kind_or_classical ssh_bench.Transport.Policy.kind_of Common.bytes_eq
    kex_curve25519 ssh_bench.Algo.Names.kex_sntrup761_x25519
    ssh_bench.Algo.Names.kex_mlkem768_x25519 ssh_bench.Kex.generate
client-server-Mirrored = record {
  client = refl;
  server = refl;
  server_id = refl;
  client_id = refl;
  server_kexinit = kexinit_of (20 ∷ 2 ∷ []);
  client_kexinit = kexinit_of (20 ∷ 1 ∷ []);
  at_client = refl;
  at_server = refl;
  sent_by_server = refl;
  sent_by_client = refl;
  negotiated_client = refl;
  negotiated_server = refl;
  session = refl;
  host_key = refl;
  ephemeral = refl;
  client_waits = refl;
  server_waits = refl;
}

abbrev q_s : Bytes
q_s = 5 ∷ Common.replicate 31 0

abbrev shared : Bytes
shared = 15 ∷ Common.replicate 31 0

client-server-MessagesFit :
    MessagesFit crates client server 3 chosen host client-server-Mirrored q_s shared
unfolding blank ssh_bench.Transport.Staging.ephemeral ssh_bench.Transport.Staging.kex_kind
    ssh_bench.Transport.Staging.kind_or_classical ssh_bench.Transport.Policy.kind_of Common.bytes_eq
    kex_curve25519 ssh_bench.Algo.Names.kex_sntrup761_x25519
    ssh_bench.Algo.Names.kex_mlkem768_x25519 ssh_bench.Kex.generate Common.replicate init_message
    ssh_bench.Wire.Writer.into_bytes ssh_bench.Wire.Writer.string ssh_bench.Wire.Writer.u32
    ssh_bench.Wire.Writer.u8 ssh_bench.Wire.Writer.new ssh_bench.Wire.BigEndian.to_be
    ssh_bench.Hostkey.key_blob hostkey_ed25519 ssh_bench.Hostkey.sign_exchange_hash
    ssh_bench.Transport.Messages.reply_message
client-server-MessagesFit = record {
  blob_fits = omega arith;
  init_fits = omega arith;
  key_fits = omega arith;
  q_s_fits = omega arith;
  signature_fits = omega arith;
  reply_fits = omega arith;
}

handshake_agrees_example :
    (a b : Cipher) × (t' u' : T crates) × (answer_init crates
        (init_message (blob crates client server 3 chosen host client-server-Mirrored))
        server
      ≡ (ok tt, u'))
    × (u'
        ≡ send_newkeys crates (
            finished crates
              (write_packet crates
                (reply crates client server 3 chosen host client-server-Mirrored q_s shared)
                (record server { rng = 6 }))
              (agreed_hash crates client server 3 chosen host client-server-Mirrored q_s shared)
              chosen
              (record { out = b; inn = a })))
    × (accept_reply crates
          (reply crates client server 3 chosen host client-server-Mirrored q_s shared)
          client
        ≡ (ok tt, t'))
    × (t'.cipher_out ≡ a)
    × (u'.pending ≡ some (record { out = Cipher.plain; inn = a }))
    × (u'.cipher_out ≡ b)
    × (t'.pending ≡ some (record { out = Cipher.plain; inn = b }))
unfolding blank ssh_bench.Transport.Staging.respond ssh_bench.Transport.Staging.kex_kind
    ssh_bench.Transport.Staging.kind_or_classical ssh_bench.Transport.Policy.kind_of Common.bytes_eq
    kex_curve25519 ssh_bench.Algo.Names.kex_sntrup761_x25519
    ssh_bench.Algo.Names.kex_mlkem768_x25519 ssh_bench.Kex.Method.respond_classical
    ssh_bench.Error.◌>>=◌ ssh_bench.Kex.generate ssh_bench.Kex.agree
    ssh_bench.Transport.Staging.ephemeral Common.replicate ssh_bench.Kex.contributory
    ssh_bench.Cipher.key_len cipher_aes256_gcm ssh_bench.Algo.Names.cipher_chacha20_poly1305
    ssh_bench.Cipher.iv_len
handshake_agrees_example =
    handshake_agrees crates client server 3 chosen host client-server-Mirrored q_s shared
      crates-IsCrates 6 32 12 refl refl refl client-server-MessagesFit
