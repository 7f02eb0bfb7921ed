-- ===== src/Algo/KexInit.antt =====
-- `KexInit` of algo.rs: `SSH_MSG_KEXINIT`, built and parsed.
-- SHAKE-128 is the `sha3` crate's and a parameter; the seed that the random generator fills is an
-- argument.
use ssh_bench.Common.{ℕ, Bool, false, not, List, [], ◌∷◌, ◌++◌, Bytes, ◌==◌, if◌then◌else◌}
use ssh_bench.Msg
use ssh_bench.Error.{Result, ok, err, protocol}
use ssh_bench.Wire.Reader.{Read, pure, fail, ◌>>=◌, u8, u32, boolean, name_list}
use ssh_bench.Wire.Reader
use ssh_bench.Wire.Writer.{◌▸◌}
use ssh_bench.Wire.Writer
use ssh_bench.Algo.Names.{
  kex_algorithms, kex_strict_client, kex_strict_server, hostkey_algorithms, ciphers, macs,
  compressions,
}

pub record KexInit : Type 0 where
  pub payload : Bytes
  pub kex : List Bytes
  pub host_key : List Bytes
  pub cipher_c2s : List Bytes
  pub cipher_s2c : List Bytes
  pub comp_c2s : List Bytes
  pub comp_s2c : List Bytes
  pub first_kex_packet_follows : Bool

-- Our kex names with the strict-KEX marker of our role behind them.
unfoldable pub offered_kex : Bool → Bool → List Bytes
offered_kex sntrup761 is_server =
    kex_algorithms sntrup761 ++ (if is_server then kex_strict_server else kex_strict_client) ∷ []

-- The message, behind a cookie of 16 bytes.
unfoldable pub kexinit_payload : Bytes → List Bytes → List Bytes → List Bytes → Bytes
kexinit_payload cookie kex offered_ciphers offered_compressions = Writer.into_bytes (
    Writer.new
    ▸ Writer.u8 Msg.kexinit
    ▸ Writer.raw cookie
    ▸ Writer.name_list kex
    ▸ Writer.name_list hostkey_algorithms
    ▸ Writer.name_list offered_ciphers
    ▸ Writer.name_list offered_ciphers
    ▸ Writer.name_list macs
    ▸ Writer.name_list macs
    ▸ Writer.name_list offered_compressions
    ▸ Writer.name_list offered_compressions
    ▸ Writer.name_list []
    ▸ Writer.name_list []
    ▸ Writer.boolean false
    ▸ Writer.u32 0)

-- `KexInit::ours_with`; `shake128 s n` squeezes `n` bytes out of the digest of `s`.
unfoldable pub ours_with :
    (Bytes → ℕ → Bytes) → Bool → Bytes → Bool → List Bytes → List Bytes → KexInit
unfolding kexinit_payload
ours_with shake128 sntrup761 seed is_server offered_ciphers offered_compressions =
    let cookie = shake128 seed 16 in
    let kex = offered_kex sntrup761 is_server in
    record {
      payload = kexinit_payload cookie kex offered_ciphers offered_compressions;
      kex = kex;
      host_key = hostkey_algorithms;
      cipher_c2s = offered_ciphers;
      cipher_s2c = offered_ciphers;
      comp_c2s = offered_compressions;
      comp_s2c = offered_compressions;
      first_kex_packet_follows = false;
    }

unfoldable pub ours : (Bytes → ℕ → Bytes) → Bool → Bytes → Bool → KexInit
ours shake128 sntrup761 seed is_server =
    ours_with shake128 sntrup761 seed is_server ciphers compressions

-- `n` bytes, one by one.
unfoldable pub take_each : ℕ → Read Bytes
take_each = elim [ ℕ.zero ↦ pure [] | ℕ.suc (n → rest) ↦ (do b ← u8; bs ← rest; pure (b ∷ bs)) ]

unfoldable pub r_take16 : Read Bytes
unfolding take_each
r_take16 = take_each 16

unfoldable pub parse_body : Bytes → Read KexInit
parse_body payload = do
  _ ← r_take16
  kex ← name_list
  host_key ← name_list
  cipher_c2s ← name_list
  cipher_s2c ← name_list
  _ ← name_list
  _ ← name_list
  comp_c2s ← name_list
  comp_s2c ← name_list
  _ ← name_list
  _ ← name_list
  first_kex_packet_follows ← boolean
  _ ← u32
  pure (record {
    payload = payload;
    kex = kex;
    host_key = host_key;
    cipher_c2s = cipher_c2s;
    cipher_s2c = cipher_s2c;
    comp_c2s = comp_c2s;
    comp_s2c = comp_s2c;
    first_kex_packet_follows = first_kex_packet_follows;
  })

unfoldable pub parse_message : Bytes → Read KexInit
parse_message payload = do
  id ← u8
  if not (id == Msg.kexinit) then fail (protocol "expected SSH_MSG_KEXINIT") else parse_body payload

-- `KexInit::parse`
unfoldable pub parse : Bytes → Result KexInit
unfolding parse_message parse_body
parse payload = elim (parse_message payload (Reader.new payload)) [
  | ok (k, r) ↦ ok k
  | err e ↦ err e
]
