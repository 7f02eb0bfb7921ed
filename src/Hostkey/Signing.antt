-- ===== src/Hostkey/Signing.antt =====
-- What a server signs with its host key, a client that has the key verifies.
use ssh_bench.Common.{
  ◌^◌, ◌<◌, ◌≡◌, refl, ap, ◌∙◌, subst, [], ◌++◌, Bytes, bytes_eq, length, length-append,
  append_assoc, append-nil, arith,
}
use ssh_bench.Common.Text.{is_utf8}
use ssh_bench.Error.{ok}
use ssh_bench.Wire.BigEndian.{to_be}
use ssh_bench.Wire.Reader.{usize_mod}
use ssh_bench.Wire.Writer
use ssh_bench.Wire.Parsing.{Parses, Parses-new, pure-Parses, bind-Parses}
use ssh_bench.Wire.RoundTrip.{string_bytes, string-Parses, utf8-Parses, string-buf, new-buf}
use ssh_bench.Algo.Names.{hostkey_ed25519}
use ssh_bench.Auth.Keys.{Ed25519, IsEd25519}
use ssh_bench.Hostkey
use ssh_bench.Auth.RoundTrip.{length-string_bytes}

module _ (d : Ed25519) (laws : IsEd25519 d) where
  read_key-Parses :
      (k : Hostkey.HostPublicKey d)
      → Parses (Hostkey.read_key d) (string_bytes (d.as_bytes k.verifying)) k
  unfolding Hostkey.read_key Hostkey.key_of
  read_key-Parses k =
      subst (λ s. Parses (Hostkey.read_key d) s k)
        (append-nil (string_bytes (d.as_bytes k.verifying)))
        (bind-Parses _ _ _ [] _ k (string-Parses (d.as_bytes k.verifying) small)
          (simp (laws.length-as_bytes k.verifying, laws.from_as_bytes k.verifying) (pure-Parses k)))
    where
      small : length (d.as_bytes k.verifying) < 2 ^ 32
      small = omega (arith, laws.length-as_bytes k.verifying)

  read_blob-Parses :
      (k : Hostkey.HostPublicKey d)
      → Parses
          (Hostkey.read_blob d)
          (string_bytes hostkey_ed25519 ++ string_bytes (d.as_bytes k.verifying))
          k
  unfolding Hostkey.read_blob hostkey_ed25519 is_utf8 bytes_eq
  read_blob-Parses k =
      bind-Parses _ _ _ _ _ _ (utf8-Parses hostkey_ed25519 (omega arith) refl) (read_key-Parses k)

  hostkey-small : length hostkey_ed25519 < 2 ^ 32
  unfolding hostkey_ed25519
  hostkey-small = omega arith

  key-small : (k : Hostkey.HostPublicKey d) → length (d.as_bytes k.verifying) < 2 ^ 32
  key-small k = omega (arith, laws.length-as_bytes k.verifying)

  sign-small : (p : Hostkey.HostKey d) (m : Bytes) → length (d.sign p.signing m) < 2 ^ 32
  sign-small p m = omega (arith, laws.length-sign p.signing m)

  blob-bytes :
      (k : Hostkey.HostPublicKey d)
      → Hostkey.blob d k ≡ string_bytes hostkey_ed25519 ++ string_bytes (d.as_bytes k.verifying)
  blob-bytes k =
      unfold Hostkey.blob Hostkey.public_blob Writer.into_bytes in
      simp (string-buf, hostkey-small, key-small k, new-buf, append_assoc)

  -- A key is read back from its own blob.
  parse_blob-blob : (k : Hostkey.HostPublicKey d) → Hostkey.parse_blob d (Hostkey.blob d k) ≡ ok k
  unfolding hostkey_ed25519 to_be Hostkey.parse_blob
  parse_blob-blob k =
      let (r, e, _, _) = Parses-new _ _ _ (read_blob-Parses k) small in
      ap (Hostkey.parse_blob d) (blob-bytes k) ∙ rw (e, Hostkey.parse_blob) refl
    where
      small :
          length (string_bytes hostkey_ed25519 ++ string_bytes (d.as_bytes k.verifying)) < usize_mod
      small = simp length-append (
          omega (
            arith,
            length-string_bytes hostkey_ed25519 hostkey-small,
            length-string_bytes (d.as_bytes k.verifying) (key-small k),
          ))

  parse_key_blob :
      (p : Hostkey.HostKey d)
      → Hostkey.parse_blob d (Hostkey.key_blob d p) ≡ ok (Hostkey.public d p)
  unfolding Hostkey.key_blob Hostkey.public Hostkey.blob
  parse_key_blob p = parse_blob-blob (record { verifying = d.verifying_key p.signing })

  read_signature-Parses :
      (p : Hostkey.HostKey d) (m : Bytes)
      → Parses
          (Hostkey.read_signature d (Hostkey.public d p) m)
          (string_bytes hostkey_ed25519 ++ string_bytes (d.sign p.signing m))
          tt
  unfolding Hostkey.read_signature Hostkey.read_verified Hostkey.public hostkey_ed25519 is_utf8
      bytes_eq
  read_signature-Parses p m =
      bind-Parses _ _ _ _ _ _ (utf8-Parses hostkey_ed25519 (omega arith) refl) (
        subst (λ s. Parses (Hostkey.read_verified d (Hostkey.public d p) m) s tt)
          (append-nil (string_bytes (d.sign p.signing m)))
          (bind-Parses _ _ _ [] _ tt (string-Parses (d.sign p.signing m) (sign-small p m))
            (simp (laws.length-sign p.signing m, laws.verify-sign p.signing m) (pure-Parses tt))))

  sign_exchange_hash-bytes :
      (p : Hostkey.HostKey d) (m : Bytes)
      → Hostkey.sign_exchange_hash d p m
        ≡ string_bytes hostkey_ed25519 ++ string_bytes (d.sign p.signing m)
  sign_exchange_hash-bytes p m =
      unfold Hostkey.sign_exchange_hash Writer.into_bytes in
      simp (string-buf, hostkey-small, sign-small p m, new-buf, append_assoc)

  -- The client reads from the server's key blob the host's public key, and that key accepts the
  -- signature blob that the host makes of any exchange hash, for an `ed25519-dalek` whose keys have
  -- 32 bytes, whose signatures have 64 and which verifies what it signs.
  pub verify-sign_exchange_hash :
      (p : Hostkey.HostKey d) (m : Bytes)
      → (Hostkey.parse_blob d (Hostkey.key_blob d p) ≡ ok (Hostkey.public d p))
        × (Hostkey.verify d (Hostkey.public d p) m (Hostkey.sign_exchange_hash d p m) ≡ ok tt)
  unfolding hostkey_ed25519 to_be Hostkey.verify
  verify-sign_exchange_hash p m =
      let (r, e, _, _) = Parses-new _ _ _ (read_signature-Parses p m) small in
      (
        parse_key_blob p,
        ap (Hostkey.verify d (Hostkey.public d p) m) (sign_exchange_hash-bytes p m)
            ∙ rw (e, Hostkey.verify) refl,
      )
    where
      small : length (string_bytes hostkey_ed25519 ++ string_bytes (d.sign p.signing m)) < usize_mod
      small = simp length-append (
          omega (
            arith,
            length-string_bytes hostkey_ed25519 hostkey-small,
            length-string_bytes (d.sign p.signing m) (sign-small p m),
          ))
