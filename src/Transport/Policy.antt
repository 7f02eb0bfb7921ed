-- ===== src/Transport/Policy.antt =====
-- The constants, the roles and phases, the obfuscation policy and the key exchange families of
-- transport.rs.
use ssh_bench.Common.{
  ℕ, Bool, true, false, ◌^◌, Option, none, some, Bytes, ltb, bytes_eq, if◌then◌else◌,
}
use ssh_bench.Kdf.{KexHash, SharedSecret}
use ssh_bench.Algo.Names.{kex_mlkem768_x25519, kex_sntrup761_x25519}

pub data Role : Type 0 where
  client server : Role

pub data Phase : Type 0 where
  need_peer_version handshake established : Phase

abbrev pub rekey_bytes : ℕ
rekey_bytes = 2 ^ 30

abbrev pub rekey_packets : ℕ
rekey_packets = 2 ^ 28

abbrev pub epoch_hard_packets : ℕ
epoch_hard_packets = 2 ^ 31

abbrev pub default_max_consecutive_peer_rekeys : ℕ
default_max_consecutive_peer_rekeys = 3

abbrev pub default_chaff_len : ℕ
default_chaff_len = 256

pub record Obfuscation : Type 0 where
  pub max_chunk : Option ℕ
  pub max_chaff_per_flush : ℕ
  pub max_chaff_len : ℕ

unfoldable pub off : Obfuscation
off = record { max_chunk = none; max_chaff_per_flush = 0; max_chaff_len = 0 }

unfoldable pub interactive : Obfuscation
interactive = record { max_chunk = some 256; max_chaff_per_flush = 2; max_chaff_len = 256 }

unfoldable pub chaff_enabled : Obfuscation → Bool
chaff_enabled o = ltb 0 o.max_chaff_per_flush

unfoldable pub chaff_len_bound : Obfuscation → ℕ
chaff_len_bound o = if ltb 0 o.max_chaff_len then o.max_chaff_len else default_chaff_len

pub data KexKind : Type 0 where
  classical mlkem sntrup : KexKind

-- `KexKind::of`; the flag is the build feature `sntrup761`.
unfoldable pub kind_of : Bool → Bytes → KexKind
kind_of sntrup761 name =
    let other = if bytes_eq name kex_mlkem768_x25519 then KexKind.mlkem else KexKind.classical in
    if sntrup761
    then (if bytes_eq name kex_sntrup761_x25519 then KexKind.sntrup else other)
    else other

-- `KexKind::hash`
unfoldable pub hash_of : KexKind → KexHash
hash_of KexKind.sntrup = KexHash.sha512
hash_of KexKind.classical = KexHash.sha256
hash_of KexKind.mlkem = KexHash.sha256

unfoldable pub string_encoded : KexKind → Bool
string_encoded KexKind.mlkem = true
string_encoded KexKind.sntrup = true
string_encoded KexKind.classical = false

unfoldable pub shared_secret : KexKind → Bytes → SharedSecret
shared_secret kind shared =
    if string_encoded kind then SharedSecret.string shared else SharedSecret.mpint shared

unfoldable pub is_server : Role → Bool
is_server Role.client = false
is_server Role.server = true

unfoldable pub is_established : Phase → Bool
is_established Phase.need_peer_version = false
is_established Phase.handshake = false
is_established Phase.established = true
