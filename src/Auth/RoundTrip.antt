-- ===== src/Auth/RoundTrip.antt =====
-- The server's parser on what the client's builders write, and keys and signatures as blobs.
use ssh_bench.Common.{
  ℕ, ◌^◌, ◌<◌, ◌≡◌, refl, ap, ◌∙◌, true, false, [], ◌∷◌, ◌++◌, Bytes, Option, none, some, bytes_eq,
  length, length-append, append_assoc, append-nil, arith,
}
use ssh_bench.Common.Text.{is_utf8}
use ssh_bench.Msg
use ssh_bench.Error.{ok}
use ssh_bench.Wire.BigEndian.{to_be, length-to_be}
use ssh_bench.Wire.Reader.{Read, pure, ◌>>=◌, usize_mod}
use ssh_bench.Wire.Reader
use ssh_bench.Wire.Writer
use ssh_bench.Wire.Parsing.{Parses, Parses-new, pure-Parses, bind-Parses}
use ssh_bench.Wire.RoundTrip.{
  string_bytes, bool_byte, u8-Parses, boolean-Parses, string-Parses, utf8-Parses, u8-buf,
  boolean-buf, string-buf, new-buf,
}
use ssh_bench.Auth.Messages.{
  method_none, method_password, method_publickey, password_request, publickey_request, is_some,
}
use ssh_bench.Auth.Request.{
  Method, none_method, password, publickey, read_request, read_method, read_password,
  read_publickey, read_signature, parse,
}

-- A text whose length fits its prefix.
pub record IsText (s : Bytes) : Type 0 where
  pub size : length s < 2 ^ 32
  pub encoded : is_utf8 s ≡ true

pub text-Parses : (s : Bytes) → IsText s → Parses Reader.utf8 (string_bytes s) s
text-Parses s h = utf8-Parses s h.size h.encoded

method_none-IsText : IsText method_none
unfolding method_none is_utf8
method_none-IsText = record { size = omega arith; encoded = refl }

method_password-IsText : IsText method_password
unfolding method_password is_utf8
method_password-IsText = record { size = omega arith; encoded = refl }

method_publickey-IsText : IsText method_publickey
unfolding method_publickey is_utf8
method_publickey-IsText = record { size = omega arith; encoded = refl }

-- A request is its number, user, service and method name, and what the method's bytes are.
request_bytes : Bytes → Bytes → Bytes → Bytes → Bytes
request_bytes user service name rest =
    (Msg.userauth_request ∷ [])
    ++ (string_bytes user ++ (string_bytes service ++ (string_bytes name ++ (rest ++ []))))

pub length-string_bytes : (s : Bytes) → length s < 2 ^ 32 → length (string_bytes s) < 2 ^ 33
length-string_bytes s h =
    omega (arith, length-append (to_be 4 (length s)) s, length-to_be 4 (length s))

read_request-Parses :
    (user service name rest : Bytes) (m : Method)
    → IsText user
    → IsText service
    → IsText name
    → Parses (read_method name) rest m
    → Parses read_request
        (request_bytes user service name rest)
        (record { user = user; service = service; method = m })
unfolding read_request request_bytes
read_request-Parses user service name rest m hu hs hn hm =
    bind-Parses _ _ _ _ _ _ (u8-Parses Msg.userauth_request) (
      bind-Parses _ _ _ _ _ _ (text-Parses user hu) (
        bind-Parses _ _ _ _ _ _ (text-Parses service hs) (
          bind-Parses _ _ _ _ _ _ (text-Parses name hn)
            (bind-Parses _ _ _ _ _ _ hm (pure-Parses _)))))

parse-request_bytes :
    (user service name rest : Bytes) (m : Method)
    → IsText user
    → IsText service
    → IsText name
    → length rest < 2 ^ 60
    → Parses (read_method name) rest m
    → parse (request_bytes user service name rest)
      ≡ ok (record { user = user; service = service; method = m })
unfolding to_be parse
parse-request_bytes user service name rest m hu hs hn hr hm =
    let (r, e, _, _) =
      Parses-new read_request _ _ (read_request-Parses user service name rest m hu hs hn hm)
        small in
    rw (e, parse)
  where
    small : length (request_bytes user service name rest) < usize_mod
    small =
        unfold request_bytes in
        simp length-append (
          omega (
            arith,
            length-string_bytes user hu.size,
            length-string_bytes service hs.size,
            length-string_bytes name hn.size,
          ))

read_password-Parses :
    (p : Bytes)
    → IsText p
    → Parses (read_method method_password) (0 ∷ string_bytes p ++ []) (password p)
unfolding read_method read_password method_none method_password method_publickey bytes_eq
read_password-Parses p hp =
    bind-Parses _ _ (0 ∷ []) (string_bytes p ++ []) false (password p) (boolean-Parses false)
      (bind-Parses _ _ (string_bytes p) [] p (password p) (text-Parses p hp) (pure-Parses _))

read_none-Parses : Parses (read_method method_none) [] none_method
unfolding read_method method_none bytes_eq
read_none-Parses = pure-Parses none_method

-- The signature's bytes, behind the flag that announces it, and their number.
abbrev signature_bytes : Option Bytes → Bytes
signature_bytes none = []
signature_bytes (some s) = string_bytes s

abbrev signature_size : Option Bytes → ℕ
signature_size none = 0
signature_size (some s) = length s

read_signature-Parses :
    (sig : Option Bytes)
    → signature_size sig < 2 ^ 32
    → Parses (read_signature (is_some sig)) (signature_bytes sig ++ []) sig
unfolding read_signature
read_signature-Parses none h = pure-Parses none
read_signature-Parses (some s) h =
    bind-Parses _ _ (string_bytes s) [] s (some s) (string-Parses s h) (pure-Parses _)

read_publickey-Parses :
    (algo blob : Bytes) (sig : Option Bytes)
    → IsText algo
    → length blob < 2 ^ 32
    → signature_size sig < 2 ^ 32
    → Parses
        (read_method method_publickey)
        ((bool_byte (is_some sig) ∷ [])
          ++ (string_bytes algo ++ (string_bytes blob ++ ((signature_bytes sig ++ []) ++ []))))
        (publickey algo blob sig)
unfolding read_method read_publickey method_none method_password method_publickey bytes_eq
read_publickey-Parses algo blob sig ha hb hs =
    bind-Parses _ _ _ _ _ _ (boolean-Parses (is_some sig)) (
      bind-Parses _ _ _ _ _ _ (text-Parses algo ha) (
        bind-Parses _ _ _ _ _ _ (string-Parses blob hb)
          (bind-Parses _ _ _ _ _ _ (read_signature-Parses sig hs) (pure-Parses _))))

-- The server's `AuthRequest::parse` reads from the client's `password_request` the user, service
-- and password that it was built from, for texts that fit their length prefix.
pub parse-password_request :
    (user service p : Bytes)
    → IsText user
    → IsText service
    → IsText p
    → parse (password_request user service p)
      ≡ ok (record { user = user; service = service; method = password p })
parse-password_request user service p hu hs hp =
    ap parse bytes
    ∙ parse-request_bytes user service method_password (0 ∷ string_bytes p ++ []) (password p) hu hs
        method_password-IsText small (read_password-Parses p hp)
  where
    small : length (0 ∷ string_bytes p ++ []) < 2 ^ 60
    small = simp append-nil (omega (arith, length-string_bytes p hp.size))

    bytes :
        password_request user service p
        ≡ request_bytes user service method_password (0 ∷ string_bytes p ++ [])
    bytes =
        unfold password_request Writer.into_bytes request_bytes in
        simp (
          string-buf, hu.size, hs.size, hp.size, method_password-IsText.size, boolean-buf, u8-buf,
          new-buf, append_assoc, append-nil,
        )

-- What a public-key request carries behind its method's name.
publickey_bytes : Bytes → Bytes → Option Bytes → Bytes
publickey_bytes algo blob sig =
    (bool_byte (is_some sig) ∷ [])
    ++ (string_bytes algo ++ (string_bytes blob ++ ((signature_bytes sig ++ []) ++ [])))

publickey_request-bytes :
    (user service algo blob : Bytes) (sig : Option Bytes)
    → IsText user
    → IsText service
    → IsText algo
    → length blob < 2 ^ 32
    → signature_size sig < 2 ^ 32
    → publickey_request user service algo blob sig
      ≡ request_bytes user service method_publickey (publickey_bytes algo blob sig)
unfolding publickey_request Writer.into_bytes request_bytes publickey_bytes
publickey_request-bytes user service algo blob none hu hs ha hb h = simp (
  string-buf, hu.size, hs.size, ha.size, hb, method_publickey-IsText.size, boolean-buf, u8-buf,
  new-buf, append_assoc, append-nil,
)
publickey_request-bytes user service algo blob (some s) hu hs ha hb h = simp (
  string-buf, hu.size, hs.size, ha.size, hb, h, method_publickey-IsText.size, boolean-buf, u8-buf,
  new-buf, append_assoc, append-nil,
)

length-signature_bytes :
    (sig : Option Bytes) → signature_size sig < 2 ^ 32 → length (signature_bytes sig) < 2 ^ 33
length-signature_bytes none h = omega arith
length-signature_bytes (some s) h = length-string_bytes s h

length-publickey_bytes :
    (algo blob : Bytes) (sig : Option Bytes)
    → length algo < 2 ^ 32
    → length blob < 2 ^ 32
    → signature_size sig < 2 ^ 32
    → length (publickey_bytes algo blob sig) < 2 ^ 60
unfolding to_be
length-publickey_bytes algo blob sig ha hb hs =
    unfold publickey_bytes in
    simp (length-append, append-nil)
      (omega (
        arith,
        length-string_bytes algo ha,
        length-string_bytes blob hb,
        length-signature_bytes sig hs,
      ))

-- The server's `AuthRequest::parse` reads from the client's `publickey_request` the user, service,
-- algorithm name, key and optional signature that it was built from, for texts, key and signature
-- that fit their length prefixes.
pub parse-publickey_request :
    (user service algo blob : Bytes) (sig : Option Bytes)
    → IsText user
    → IsText service
    → IsText algo
    → length blob < 2 ^ 32
    → signature_size sig < 2 ^ 32
    → parse (publickey_request user service algo blob sig)
      ≡ ok (record { user = user; service = service; method = publickey algo blob sig })
unfolding publickey_bytes
parse-publickey_request user service algo blob sig hu hs ha hb h =
    ap parse (publickey_request-bytes user service algo blob sig hu hs ha hb h)
    ∙ parse-request_bytes user service method_publickey (publickey_bytes algo blob sig)
        (publickey algo blob sig) hu hs method_publickey-IsText
        (length-publickey_bytes algo blob sig ha.size hb h)
        (read_publickey-Parses algo blob sig ha hb h)
