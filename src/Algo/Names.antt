-- ===== src/Algo/Names.antt =====
-- The algorithm names of algo.rs, mlkem.rs and sntrup.rs, and the lists that we offer.
-- `sntrup761` says whether the crate feature of that name is on.
use ssh_bench.Common.{Bool, List, [], ◌∷◌, Bytes, if◌then◌else◌}
use ssh_bench.Common.Text.{codes}

unfoldable pub kex_mlkem768_x25519 : Bytes
kex_mlkem768_x25519 = codes "mlkem768x25519-sha256"

unfoldable pub kex_sntrup761_x25519 : Bytes
kex_sntrup761_x25519 = codes "sntrup761x25519-sha512@openssh.com"

unfoldable pub kex_curve25519 : Bytes
kex_curve25519 = codes "curve25519-sha256"

unfoldable pub kex_curve25519_libssh : Bytes
kex_curve25519_libssh = codes "curve25519-sha256@libssh.org"

unfoldable pub hostkey_ed25519 : Bytes
hostkey_ed25519 = codes "ssh-ed25519"

unfoldable pub cipher_chacha20_poly1305 : Bytes
cipher_chacha20_poly1305 = codes "chacha20-poly1305@openssh.com"

unfoldable pub cipher_aes256_gcm : Bytes
cipher_aes256_gcm = codes "aes256-gcm@openssh.com"

unfoldable pub compression_none : Bytes
compression_none = codes "none"

unfoldable pub compression_zlib_openssh : Bytes
compression_zlib_openssh = codes "zlib@openssh.com"

unfoldable pub kex_strict_client : Bytes
kex_strict_client = codes "kex-strict-c-v00@openssh.com"

unfoldable pub kex_strict_server : Bytes
kex_strict_server = codes "kex-strict-s-v00@openssh.com"

unfoldable pub kex_algorithms : Bool → List Bytes
kex_algorithms sntrup761 =
    if sntrup761
    then kex_mlkem768_x25519 ∷ kex_sntrup761_x25519 ∷ kex_curve25519 ∷ kex_curve25519_libssh ∷ []
    else kex_mlkem768_x25519 ∷ kex_curve25519 ∷ kex_curve25519_libssh ∷ []

unfoldable pub hostkey_algorithms : List Bytes
hostkey_algorithms = hostkey_ed25519 ∷ []

unfoldable pub ciphers : List Bytes
ciphers = cipher_chacha20_poly1305 ∷ cipher_aes256_gcm ∷ []

unfoldable pub macs : List Bytes
macs = codes "hmac-sha2-256" ∷ []

unfoldable pub compressions : List Bytes
compressions = compression_none ∷ compression_zlib_openssh ∷ []
