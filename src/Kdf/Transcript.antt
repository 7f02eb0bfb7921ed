-- ===== src/Kdf/Transcript.antt =====
-- The exchange hash binds what both sides saw: its input determines every part.
use ssh_bench.Common.{
  ◌+◌, ◌^◌, ◌<◌, ◌≡◌, sym, ap, ◌∙◌, subst, List, [], ◌∷◌, ◌++◌, Bytes, length, IsBytes, arith,
}
use ssh_bench.Error.{Result, ok}
use ssh_bench.Wire.Reader.{usize_mod}
use ssh_bench.Wire.Reader
use ssh_bench.Wire.RoundTrip.{string_bytes, string-buf, new-buf}
use ssh_bench.Wire.Writer
use ssh_bench.Wire.Fields.{Field, write_all, read_all, kinds_of, AllFit, read_all-write_all}
use ssh_bench.Wire.Mpint.{mpint-buf, positive, length-positive, length-strip_zeros}
use ssh_bench.Kdf.{SharedSecret, ExchangeHashInput, encode, hash_input}

-- The bytes of `K` as they stand behind their length.
abbrev pub content : SharedSecret → Bytes
content (SharedSecret.mpint magnitude) = positive (Writer.strip_zeros magnitude)
content (SharedSecret.string bytes) = bytes

abbrev strings : ExchangeHashInput → List Field
strings i =
    Field.str i.client_id
    ∷ Field.str i.server_id
    ∷ Field.str i.client_kexinit
    ∷ Field.str i.server_kexinit
    ∷ Field.str i.host_key_blob
    ∷ Field.str i.client_ephemeral
    ∷ Field.str i.server_ephemeral
    ∷ []

abbrev parts : ExchangeHashInput → List Field
parts i = strings i ++ Field.str (content i.shared_secret) ∷ []

-- Lengths in the range of `u32`, and a magnitude of bytes.
abbrev pub SecretFits : SharedSecret → Type 0
SecretFits (SharedSecret.mpint m) = IsBytes m × (length m + 1 < 2 ^ 32)
SecretFits (SharedSecret.string bytes) = length bytes < 2 ^ 32

pub record InputFits (i : ExchangeHashInput) : Type 0 where
  pub client_id : length i.client_id < 2 ^ 32
  pub server_id : length i.server_id < 2 ^ 32
  pub client_kexinit : length i.client_kexinit < 2 ^ 32
  pub server_kexinit : length i.server_kexinit < 2 ^ 32
  pub host_key_blob : length i.host_key_blob < 2 ^ 32
  pub client_ephemeral : length i.client_ephemeral < 2 ^ 32
  pub server_ephemeral : length i.server_ephemeral < 2 ^ 32
  pub shared_secret : SecretFits i.shared_secret
  pub whole : length (hash_input i) < usize_mod

length-content : (s : SharedSecret) → SecretFits s → length (content s) < 2 ^ 32
length-content (SharedSecret.mpint m) (bytes, size) =
    omega (arith, length-positive (Writer.strip_zeros m), length-strip_zeros m)
length-content (SharedSecret.string bytes) size = size

encode-string_bytes : (s : SharedSecret) → SecretFits s → encode s ≡ string_bytes (content s)
unfolding encode Writer.into_bytes
encode-string_bytes (SharedSecret.mpint m) (bytes, size) =
    mpint-buf m Writer.new bytes size
    ∙ ap (λ t. t ++ string_bytes (positive (Writer.strip_zeros m))) new-buf
encode-string_bytes (SharedSecret.string bytes) size =
    string-buf bytes Writer.new size ∙ ap (λ t. t ++ string_bytes bytes) new-buf

parts-AllFit : (i : ExchangeHashInput) → InputFits i → AllFit (parts i)
parts-AllFit i h = (
  h.client_id,
  (
    h.server_id,
    (
      h.client_kexinit,
      (
        h.server_kexinit,
        (
          h.host_key_blob,
          (
            h.client_ephemeral,
            (h.server_ephemeral, (length-content i.shared_secret h.shared_secret, tt)),
          ),
        ),
      ),
    ),
  ),
)

-- The digest's input is the eight strings, one after the other.
hash_input-parts :
    (i : ExchangeHashInput)
    → InputFits i
    → hash_input i ≡ Writer.into_bytes (write_all (parts i) Writer.new)
unfolding hash_input Writer.as_slice Writer.into_bytes Writer.raw
hash_input-parts i h =
    ap (λ t. (write_all (strings i) Writer.new).buf ++ t)
      (encode-string_bytes i.shared_secret h.shared_secret)
    ∙ sym (
        string-buf (content i.shared_secret) (write_all (strings i) Writer.new)
          (length-content i.shared_secret h.shared_secret))

abbrev answer : List Field × Reader.Reader → Result (List Field × Reader.Reader)
answer x = ok x

-- Of two inputs whose lengths are in the range of the wire format: when the digest is given the
-- same bytes, then the identifications, KEXINITs, host key, and ephemeral values are the same,
-- and so are the bytes of the shared secret as they stand on the wire.
pub hash_input_injective :
    (i j : ExchangeHashInput)
    → InputFits i
    → InputFits j
    → hash_input i ≡ hash_input j
    → (i.client_id ≡ j.client_id)
      × (i.server_id ≡ j.server_id)
      × (i.client_kexinit ≡ j.client_kexinit)
      × (i.server_kexinit ≡ j.server_kexinit)
      × (i.host_key_blob ≡ j.host_key_blob)
      × (i.client_ephemeral ≡ j.client_ephemeral)
      × (i.server_ephemeral ≡ j.server_ephemeral)
      × (content i.shared_secret ≡ content j.shared_secret)
hash_input_injective i j hi hj same =
    let (r, ei, _) =
      read_all-write_all (parts i) (parts-AllFit i hi)
        (subst (λ t. length t < usize_mod) (hash_input-parts i hi) hi.whole) in
    let (r', ej, _) =
      read_all-write_all (parts j) (parts-AllFit j hj)
        (subst (λ t. length t < usize_mod) (hash_input-parts j hj) hj.whole) in
    let bytes = sym (hash_input-parts i hi) ∙ same ∙ hash_input-parts j hj in
    let both : answer (parts i, r) ≡ answer (parts j, r') =
      sym ei ∙ ap (λ t. read_all (kinds_of (parts i)) (Reader.new t)) bytes ∙ ej in
    (cc, cc, cc, cc, cc, cc, cc, cc)
