-- ===== src/Algo/Negotiate.antt =====
-- Negotiation of algo.rs: the first name on the client's list that the server also lists.
use Prim.Native.String.{String}
use ssh_bench.Common.{Bool, true, false, List, [], ◌∷◌, Bytes, bytes_eq, if◌then◌else◌}
use ssh_bench.Error.{Result, ok, err, no_common_algorithm, ◌>>=◌}
use ssh_bench.Algo.KexInit.{KexInit}

pub record Negotiated : Type 0 where
  pub kex : Bytes
  pub host_key : Bytes
  pub cipher_c2s : Bytes
  pub cipher_s2c : Bytes
  pub comp_c2s : Bytes
  pub comp_s2c : Bytes

-- `list.iter().any(|s| s == name)`
unfoldable pub contains : List Bytes → Bytes → Bool
contains [] name = false
contains (n ∷ ns) name = if bytes_eq n name then true else contains ns name

unfoldable pub pick : List Bytes → List Bytes → String → Result Bytes
pick [] server slot = err (no_common_algorithm slot)
pick (c ∷ client) server slot =
    let rest = pick client server slot in if contains server c then ok c else rest

unfoldable pub negotiate : KexInit → KexInit → Result Negotiated
negotiate client server = do
  kex ← pick client.kex server.kex "kex"
  host_key ← pick client.host_key server.host_key "host key"
  cipher_c2s ← pick client.cipher_c2s server.cipher_c2s "cipher c2s"
  cipher_s2c ← pick client.cipher_s2c server.cipher_s2c "cipher s2c"
  comp_c2s ← pick client.comp_c2s server.comp_c2s "compression c2s"
  comp_s2c ← pick client.comp_s2c server.comp_s2c "compression s2c"
  ok (record {
    kex = kex;
    host_key = host_key;
    cipher_c2s = cipher_c2s;
    cipher_s2c = cipher_s2c;
    comp_c2s = comp_c2s;
    comp_s2c = comp_s2c;
  })
