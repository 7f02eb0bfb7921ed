-- ===== src/Witness/Crypto.antt =====
-- Key derivation, key exchange and ciphers at concrete inputs.
use ssh_bench.Common.{
  ℕ, zero, suc, ◌+◌, ◌^◌, ◌≤◌, ◌<◌, ◌≡◌, refl, [], ◌∷◌, ◌++◌, Bytes, Option, none, some, length,
  take, IsBytes, arith,
}
use ssh_bench.Common
use ssh_bench.Error.{ok}
use ssh_bench.Packet.{max_packet_length}
use ssh_bench.Kdf.{SharedSecret, ExchangeHashInput, hash_input, derive_key_with}
use ssh_bench.Kdf.Blocks.{blocks, derive_key_with-blocks}
use ssh_bench.Kdf.Transcript.{InputFits, content, hash_input_injective}
use ssh_bench.Kex.Method.{Agrees, classical, mlkem, sntrup, methods_agree}
use ssh_bench.Cipher.{Cipher, seal_into, open_packet, tag_len}
use ssh_bench.Cipher.RoundTrip.{open_packet-seal_into}
use ssh_bench.Cipher.Authentic.{Authentic, open_packet-Authentic}
use ssh_bench.Compress.{Decompressor, inflate, inflate_rounds, decompress}
use ssh_bench.Compress
use ssh_bench.Compress.Ends.{decompress_ends}
use ssh_bench.Witness.Primitives.{
  stored, stored-IsFlate2, counter, padded, products, products-IsX25519, open_kem,
  open_kem-IsMlkem768, open_ntru, open_ntru-IsSntrup761, clear, clear-IsPrimitives, fit, length-fit,
}

derive_key_with-blocks_example :
    (derive_key_with (fit 32) (1 ∷ []) (2 ∷ []) 67 (3 ∷ []) 64
      ≡ take 64 (blocks (fit 32) (1 ∷ []) (2 ∷ []) 67 (3 ∷ []) 1))
    × (length (derive_key_with (fit 32) (1 ∷ []) (2 ∷ []) 67 (3 ∷ []) 64) ≡ 64)
    × (64 < length (blocks (fit 32) (1 ∷ []) (2 ∷ []) 67 (3 ∷ []) 64))
unfolding blocks take Common.replicate
derive_key_with-blocks_example =
    derive_key_with-blocks (fit 32) (1 ∷ []) (2 ∷ []) 67 (3 ∷ [])
      (λ m. omega (arith, length-fit 32 m)) 64 1 (omega arith)

abbrev input : ExchangeHashInput
input = record {
  client_id = 1 ∷ [];
  server_id = 2 ∷ 2 ∷ [];
  client_kexinit = 3 ∷ [];
  server_kexinit = [];
  host_key_blob = 5 ∷ [];
  client_ephemeral = 6 ∷ [];
  server_ephemeral = 7 ∷ [];
  shared_secret = SharedSecret.mpint (0 ∷ 200 ∷ []);
}

input-InputFits : InputFits input
unfolding hash_input ssh_bench.Wire.Writer.as_slice ssh_bench.Wire.Writer.raw
    ssh_bench.Wire.Writer.string ssh_bench.Wire.Writer.u32 ssh_bench.Wire.Writer.new
    ssh_bench.Wire.BigEndian.to_be ssh_bench.Kdf.encode ssh_bench.Wire.Writer.into_bytes
    ssh_bench.Wire.Writer.mpint ssh_bench.Wire.Writer.strip_zeros ssh_bench.Wire.Writer.u8
input-InputFits = record {
  client_id = omega arith;
  server_id = omega arith;
  client_kexinit = omega arith;
  server_kexinit = omega arith;
  host_key_blob = omega arith;
  client_ephemeral = omega arith;
  server_ephemeral = omega arith;
  shared_secret = ((omega arith, (omega arith, tt)), omega arith);
  whole = omega arith;
}

hash_input_injective_example :
    (input.client_id ≡ input.client_id)
    × (input.server_id ≡ input.server_id)
    × (input.client_kexinit ≡ input.client_kexinit)
    × (input.server_kexinit ≡ input.server_kexinit)
    × (input.host_key_blob ≡ input.host_key_blob)
    × (input.client_ephemeral ≡ input.client_ephemeral)
    × (input.server_ephemeral ≡ input.server_ephemeral)
    × (content input.shared_secret ≡ content input.shared_secret)
hash_input_injective_example = hash_input_injective input input input-InputFits input-InputFits refl

methods_agree_example :
    Agrees (classical products)
    × Agrees (mlkem products padded open_kem)
    × Agrees (sntrup products padded open_ntru)
methods_agree_example =
    methods_agree products products-IsX25519 padded open_kem open_ntru open_kem-IsMlkem768
      open_ntru-IsSntrup761

abbrev chacha : Cipher
chacha = Cipher.chacha20_poly1305 (1 ∷ []) (2 ∷ [])

open_packet-seal_into_example :
    (s : Bytes) × ((seal_into clear counter chacha 3 (94 ∷ 1 ∷ []) 7 (9 ∷ [])).1 ≡ (9 ∷ []) ++ s)
    × (open_packet clear chacha 3 (s ++ 8 ∷ []) ≡ (
      ok (some (94 ∷ 1 ∷ [], length s)),
      (seal_into clear counter chacha 3 (94 ∷ 1 ∷ []) 7 (9 ∷ [])).0,
    ))
open_packet-seal_into_example =
    open_packet-seal_into clear-IsPrimitives counter chacha 3 (94 ∷ 1 ∷ []) 7 (9 ∷ []) (8 ∷ [])
      (omega arith)

-- The frame of the payload 94, with padding of 6 zeros and the toy tag.
abbrev frame : Bytes
frame =
    0 ∷ 0 ∷ 0 ∷ 8 ∷ 6 ∷ 94 ∷ 0 ∷ 0 ∷ 0 ∷ 0 ∷ 0 ∷ 0 ∷ 0 ∷ 0 ∷ 0 ∷ 8 ∷ 6 ∷ 94 ∷ 0 ∷ 0 ∷ 0 ∷ 0 ∷ 0 ∷ 0
    ∷ 0 ∷ 0 ∷ 0 ∷ 0 ∷ []

open_packet-Authentic_example :
    (28 ≤ length frame)
    × (28 ≤ 4 + max_packet_length + tag_len)
    × (9 ≤ 28)
    × Authentic clear chacha 0 frame 28
unfolding open_packet ssh_bench.Cipher.chacha_open ssh_bench.Cipher.out_of_range
    ssh_bench.Wire.BigEndian.from_be_acc ssh_bench.Cipher.length_cipher take
    ssh_bench.Cipher.chacha_checked Common.bytes_eq ssh_bench.Cipher.poly1305_tag Common.drop
    Common.replicate ssh_bench.Cipher.strip_padding ssh_bench.Cipher.payload_cipher
open_packet-Authentic_example = open_packet-Authentic clear chacha 0 frame (94 ∷ []) 28 refl

decompress_ends_example :
    ((extra capacity : ℕ)
      → inflate stored (extra + inflate_rounds stored (1 ∷ 2 ∷ [])) (1 ∷ 2 ∷ []) 0 [] capacity tt
        ≡ inflate stored (inflate_rounds stored (1 ∷ 2 ∷ [])) (1 ∷ 2 ∷ []) 0 [] capacity tt)
    × ((result : Bytes)
        → (decompress stored (Compress.Decompressor.zlib tt) (1 ∷ 2 ∷ [])).0 ≡ ok result
        → length result ≤ max_packet_length)
decompress_ends_example = decompress_ends stored stored-IsFlate2 (1 ∷ 2 ∷ []) tt
