-- ===== src/Auth/Signing.antt =====
-- Keys and signatures of auth.rs as blobs, over the documented behaviour of `ed25519-dalek`.
use ssh_bench.Common.{
  ◌^◌, ◌<◌, ◌≡◌, refl, ap, ◌∙◌, subst, [], ◌++◌, Bytes, bytes_eq, length, length-append,
  append_assoc, append-nil, arith,
}
use ssh_bench.Common.Text.{is_utf8}
use ssh_bench.Error.{ok}
use ssh_bench.Wire.BigEndian.{to_be}
use ssh_bench.Wire.Reader.{usize_mod}
use ssh_bench.Wire.Writer
use ssh_bench.Wire.Parsing.{Parses, Parses-new, pure-Parses, bind-Parses}
use ssh_bench.Wire.RoundTrip.{string_bytes, string-Parses, utf8-Parses, string-buf, new-buf}
use ssh_bench.Algo.Names.{hostkey_ed25519}
use ssh_bench.Auth.Keys
use ssh_bench.Auth.RoundTrip.{length-string_bytes}

module _ (d : Keys.Ed25519) (laws : Keys.IsEd25519 d) where
  read_key-Parses :
      (k : Keys.UserPublicKey d)
      → Parses (Keys.read_key d) (string_bytes (d.as_bytes k.verifying)) k
  unfolding Keys.read_key Keys.key_of
  read_key-Parses k =
      subst (λ s. Parses (Keys.read_key d) s k) (append-nil (string_bytes (d.as_bytes k.verifying)))
        (bind-Parses _ _ _ [] _ k (string-Parses (d.as_bytes k.verifying) small)
          (simp (laws.length-as_bytes k.verifying, laws.from_as_bytes k.verifying) (pure-Parses k)))
    where
      small : length (d.as_bytes k.verifying) < 2 ^ 32
      small = omega (arith, laws.length-as_bytes k.verifying)

  read_blob-Parses :
      (k : Keys.UserPublicKey d)
      → Parses
          (Keys.read_blob d)
          (string_bytes hostkey_ed25519 ++ string_bytes (d.as_bytes k.verifying))
          k
  unfolding Keys.read_blob hostkey_ed25519 is_utf8 bytes_eq
  read_blob-Parses k =
      bind-Parses _ _ _ _ _ _ (utf8-Parses hostkey_ed25519 (omega arith) refl) (read_key-Parses k)

  hostkey-small : length hostkey_ed25519 < 2 ^ 32
  unfolding hostkey_ed25519
  hostkey-small = omega arith

  key-small : (k : Keys.UserPublicKey d) → length (d.as_bytes k.verifying) < 2 ^ 32
  key-small k = omega (arith, laws.length-as_bytes k.verifying)

  sign-small : (p : Keys.UserKeypair d) (m : Bytes) → length (d.sign p.signing m) < 2 ^ 32
  sign-small p m = omega (arith, laws.length-sign p.signing m)

  blob-bytes :
      (k : Keys.UserPublicKey d)
      → Keys.blob d k ≡ string_bytes hostkey_ed25519 ++ string_bytes (d.as_bytes k.verifying)
  blob-bytes k =
      unfold Keys.blob Writer.into_bytes in
      simp (string-buf, hostkey-small, key-small k, new-buf, append_assoc)

  -- A key is read back from its own blob.
  pub parse_blob-blob : (k : Keys.UserPublicKey d) → Keys.parse_blob d (Keys.blob d k) ≡ ok k
  unfolding hostkey_ed25519 to_be Keys.parse_blob
  parse_blob-blob k =
      let (r, e, _, _) = Parses-new _ _ _ (read_blob-Parses k) small in
      ap (Keys.parse_blob d) (blob-bytes k) ∙ rw (e, Keys.parse_blob) refl
    where
      small :
          length (string_bytes hostkey_ed25519 ++ string_bytes (d.as_bytes k.verifying)) < usize_mod
      small = simp length-append (
          omega (
            arith,
            length-string_bytes hostkey_ed25519 hostkey-small,
            length-string_bytes (d.as_bytes k.verifying) (key-small k),
          ))

  read_signature-Parses :
      (p : Keys.UserKeypair d) (m : Bytes)
      → Parses
          (Keys.read_signature d (Keys.public d p) m)
          (string_bytes hostkey_ed25519 ++ string_bytes (d.sign p.signing m))
          tt
  unfolding Keys.read_signature Keys.read_verified Keys.public hostkey_ed25519 is_utf8 bytes_eq
  read_signature-Parses p m =
      bind-Parses _ _ _ _ _ _ (utf8-Parses hostkey_ed25519 (omega arith) refl) (
        subst (λ s. Parses (Keys.read_verified d (Keys.public d p) m) s tt)
          (append-nil (string_bytes (d.sign p.signing m)))
          (bind-Parses _ _ _ [] _ tt (string-Parses (d.sign p.signing m) (sign-small p m))
            (simp (laws.length-sign p.signing m, laws.verify-sign p.signing m) (pure-Parses tt))))

  sign_blob-bytes :
      (p : Keys.UserKeypair d) (m : Bytes)
      → Keys.sign_blob d p m ≡ string_bytes hostkey_ed25519 ++ string_bytes (d.sign p.signing m)
  sign_blob-bytes p m =
      unfold Keys.sign_blob Writer.into_bytes in
      simp (string-buf, hostkey-small, sign-small p m, new-buf, append_assoc)

  -- A public key blob is read back as the key it was built from, and that key accepts the signature
  -- blob that the keypair's `sign` makes of any data, for an `ed25519-dalek` whose keys have 32
  -- bytes, whose signatures have 64 and which verifies what it signs.
  pub verify-sign_blob :
      (p : Keys.UserKeypair d) (m : Bytes)
      → (Keys.parse_blob d (Keys.blob d (Keys.public d p)) ≡ ok (Keys.public d p))
        × (Keys.verify d (Keys.public d p) m (Keys.sign_blob d p m) ≡ ok tt)
  unfolding hostkey_ed25519 to_be Keys.verify
  verify-sign_blob p m =
      let (r, e, _, _) = Parses-new _ _ _ (read_signature-Parses p m) small in
      (
        parse_blob-blob (Keys.public d p),
        ap (Keys.verify d (Keys.public d p) m) (sign_blob-bytes p m) ∙ rw (e, Keys.verify) refl,
      )
    where
      small : length (string_bytes hostkey_ed25519 ++ string_bytes (d.sign p.signing m)) < usize_mod
      small = simp length-append (
          omega (
            arith,
            length-string_bytes hostkey_ed25519 hostkey-small,
            length-string_bytes (d.sign p.signing m) (sign-small p m),
          ))
