-- ===== src/Algo/RoundTrip.antt =====
-- `KexInit::parse` on what `KexInit::ours_with` builds.
use ssh_bench.Common.{
  ℕ, zero, suc, ◌^◌, ◌<◌, ◌≡◌, refl, subst, Bool, true, false, List, [], ◌∷◌, ◌++◌, Bytes, length,
  length-append, append_assoc, append-nil, inl, inr, ltb, leb, ◌==◌, ◌&&◌, arith,
}
use ssh_bench.Msg
use ssh_bench.Error.{ok}
use ssh_bench.Common.Text.{is_ascii}
use ssh_bench.Wire.BigEndian.{to_be, length-to_be}
use ssh_bench.Wire.Reader.{Read, pure, ◌>>=◌, count, usize_mod}
use ssh_bench.Wire.Reader
use ssh_bench.Wire.Writer.{◌▸◌}
use ssh_bench.Wire.Writer
use ssh_bench.Wire.Parsing.{Parses, Parses-new, pure-Parses, bind-Parses}
use ssh_bench.Wire.RoundTrip.{
  string_bytes, u8-Parses, boolean-Parses, u32-Parses, u8-buf, boolean-buf, u32-buf, raw-buf,
  new-buf,
}
use ssh_bench.Wire.Names.{AllNames, IsNameList, join, name_list-Parses, name_list-buf}
use ssh_bench.Algo.Names.{
  hostkey_algorithms, macs, kex_algorithms, kex_strict_client, kex_strict_server,
  kex_mlkem768_x25519, kex_sntrup761_x25519, kex_curve25519, kex_curve25519_libssh, hostkey_ed25519,
}
use ssh_bench.Algo.KexInit.{
  KexInit, kexinit_payload, ours_with, offered_kex, take_each, r_take16, parse_body, parse_message,
  parse,
}

take_each-Parses : (s : Bytes) (n : ℕ) → length s ≡ n → Parses (take_each n) s s
unfolding take_each
take_each-Parses [] zero e = pure-Parses []
take_each-Parses [] (suc n) e = absurd (omega arith)
take_each-Parses (b ∷ s) zero e = absurd (omega arith)
take_each-Parses (b ∷ s) (suc n) e =
    subst (λ t. Parses (take_each (suc n)) (b ∷ t) (b ∷ s)) (append-nil s)
      (bind-Parses _ _ (b ∷ []) (s ++ []) b (b ∷ s) (u8-Parses b)
        (bind-Parses _ _ s [] s (b ∷ s) (take_each-Parses s n (omega arith)) (pure-Parses (b ∷ s))))

-- A list of names that is written in full and read back.
pub record IsOffer (ns : List Bytes) : Type 0 where
  pub size : length (join ns) < 2 ^ 32
  pub well_formed : IsNameList ns

names_bytes : List Bytes → Bytes
names_bytes ns = string_bytes (join ns)

-- The bytes of the message.
payload_bytes : Bytes → List Bytes → List Bytes → List Bytes → Bytes
payload_bytes cookie kex cs comps =
    (Msg.kexinit ∷ [])
    ++ (cookie
        ++ (names_bytes kex
            ++ (names_bytes hostkey_algorithms
                ++ (names_bytes cs
                    ++ (names_bytes cs
                        ++ (names_bytes macs
                            ++ (names_bytes macs
                                ++ (names_bytes comps
                                    ++ (names_bytes comps
                                        ++ (names_bytes []
                                            ++ (names_bytes []
                                                ++ ((0 ∷ []) ++ (to_be 4 0 ++ [])))))))))))))

no_names : IsOffer []
no_names = record { size = omega arith; well_formed = (tt, omega arith, inl refl) }

payload-bytes :
    (cookie : Bytes) (kex cs comps : List Bytes)
    → IsOffer kex
    → IsOffer hostkey_algorithms
    → IsOffer cs
    → IsOffer macs
    → IsOffer comps
    → kexinit_payload cookie kex cs comps ≡ payload_bytes cookie kex cs comps
unfolding kexinit_payload Writer.into_bytes payload_bytes names_bytes
payload-bytes cookie kex cs comps hk hh hc hm hp = simp (
  u32-buf, boolean-buf, name_list-buf, hk.size, hh.size, hc.size, hm.size, hp.size, no_names.size,
  raw-buf, u8-buf, new-buf, append_assoc, append-nil,
)

names-Parses :
    {B : Type 0} (ns : List Bytes) (f : List Bytes → Read B) (t : Bytes) (b : B)
    → IsOffer ns
    → Parses (f ns) t b
    → Parses (Reader.name_list >>= f) (names_bytes ns ++ t) b
unfolding names_bytes
names-Parses ns f t b h k =
    bind-Parses Reader.name_list f (string_bytes (join ns)) t ns b
      (name_list-Parses ns h.well_formed h.size) k

-- What `parse` makes of the message with these lists.
abbrev parsed : Bytes → List Bytes → List Bytes → List Bytes → KexInit
parsed payload kex cs comps = record {
  payload = payload;
  kex = kex;
  host_key = hostkey_algorithms;
  cipher_c2s = cs;
  cipher_s2c = cs;
  comp_c2s = comps;
  comp_s2c = comps;
  first_kex_packet_follows = false;
}

parse_message-Parses :
    (payload cookie : Bytes) (kex cs comps : List Bytes)
    → length cookie ≡ 16
    → IsOffer kex
    → IsOffer hostkey_algorithms
    → IsOffer cs
    → IsOffer macs
    → IsOffer comps
    → Parses
        (parse_message payload)
        (payload_bytes cookie kex cs comps)
        (parsed payload kex cs comps)
unfolding parse_message parse_body payload_bytes r_take16
parse_message-Parses payload cookie kex cs comps hn hk hh hc hm hp =
    bind-Parses _ _ _ _ _ _ (u8-Parses Msg.kexinit) (
      bind-Parses _ _ _ _ _ _ (take_each-Parses cookie 16 hn) (
        names-Parses kex _ _ _ hk (
          names-Parses hostkey_algorithms _ _ _ hh (
            names-Parses cs _ _ _ hc (
              names-Parses cs _ _ _ hc (
                names-Parses macs _ _ _ hm (
                  names-Parses macs _ _ _ hm (
                    names-Parses comps _ _ _ hp (
                      names-Parses comps _ _ _ hp (
                        names-Parses [] _ _ _ no_names (
                          names-Parses [] _ _ _ no_names (
                            bind-Parses _ _ _ _ _ _ (boolean-Parses false) (
                              bind-Parses _ _ _ _ _ _ (u32-Parses 0 (omega arith))
                                (pure-Parses _))))))))))))))

length-names_bytes : (ns : List Bytes) → IsOffer ns → length (names_bytes ns) < 2 ^ 33
unfolding names_bytes
length-names_bytes ns h = omega (
  arith,
  h.size,
  length-append (to_be 4 (length (join ns))) (join ns),
  length-to_be 4 (length (join ns)),
)

length-payload_bytes :
    (cookie : Bytes) (kex cs comps : List Bytes)
    → length cookie ≡ 16
    → IsOffer kex
    → IsOffer hostkey_algorithms
    → IsOffer cs
    → IsOffer macs
    → IsOffer comps
    → length (payload_bytes cookie kex cs comps) < usize_mod
unfolding payload_bytes
length-payload_bytes cookie kex cs comps hn hk hh hc hm hp = simp length-append (
    omega (
      arith,
      length-names_bytes kex hk,
      length-names_bytes hostkey_algorithms hh,
      length-names_bytes cs hc,
      length-names_bytes macs hm,
      length-names_bytes comps hp,
      length-names_bytes [] no_names,
      length-to_be 4 0,
    ))

-- A test of `IsOffer` for lists that are written out.
all_names : List Bytes → Bool
all_names [] = true
all_names (n ∷ ns) = is_ascii n && count b',' n == 0 && all_names ns

all_names→AllNames : (ns : List Bytes) → all_names ns ≡ true → AllNames ns
unfolding all_names
all_names→AllNames [] h = tt
all_names→AllNames (n ∷ ns) h =
    (record { ascii = ground arith; no_comma = ground arith }, all_names→AllNames ns (ground arith))

unfoldable pub is_offer : List Bytes → Bool
unfolding all_names is_ascii count
is_offer ns =
    all_names ns
    && leb (length ns) 256
    && ltb 0 (length (join ns))
    && ltb (length (join ns)) (2 ^ 32)

pub is_offer→IsOffer : (ns : List Bytes) → is_offer ns ≡ true → IsOffer ns
unfolding is_offer
is_offer→IsOffer ns h = record {
  size = ground arith;
  well_formed = (all_names→AllNames ns (ground arith), ground arith, inr (ground arith));
}

hostkey_algorithms-IsOffer : IsOffer hostkey_algorithms
unfolding is_offer hostkey_algorithms hostkey_ed25519
hostkey_algorithms-IsOffer = is_offer→IsOffer _ refl

macs-IsOffer : IsOffer macs
unfolding is_offer macs
macs-IsOffer = is_offer→IsOffer _ refl

pub offered_kex-IsOffer : (sntrup761 is_server : Bool) → IsOffer (offered_kex sntrup761 is_server)
unfolding is_offer offered_kex kex_algorithms kex_strict_client kex_strict_server
    kex_mlkem768_x25519 kex_sntrup761_x25519 kex_curve25519 kex_curve25519_libssh
offered_kex-IsOffer true true = is_offer→IsOffer _ refl
offered_kex-IsOffer true false = is_offer→IsOffer _ refl
offered_kex-IsOffer false true = is_offer→IsOffer _ refl
offered_kex-IsOffer false false = is_offer→IsOffer _ refl

-- `KexInit::parse` on the payload of `KexInit::ours_with` gives back that very KEXINIT, for either
-- role and build, any seed, and any offered ciphers and compressions that are lists of at most 256
-- ASCII names without commas.
pub parse-ours_with :
    (shake128 : Bytes → ℕ → Bytes)
    → ((s : Bytes) (n : ℕ) → length (shake128 s n) ≡ n)
    → (sntrup761 : Bool) (seed : Bytes) (is_server : Bool) (cs comps : List Bytes) → IsOffer cs
    → IsOffer comps
    → let k = ours_with shake128 sntrup761 seed is_server cs comps in parse k.payload ≡ ok k
unfolding ours_with parse
parse-ours_with shake128 squeezes sntrup761 seed is_server cs comps hc hp =
    let cookie : Bytes = shake128 seed 16 in
    let kex : List Bytes = offered_kex sntrup761 is_server in
    let hk : IsOffer kex = offered_kex-IsOffer sntrup761 is_server in
    let hh = hostkey_algorithms-IsOffer in
    let hm = macs-IsOffer in
    let hn : length cookie ≡ 16 = squeezes seed 16 in
    let e : kexinit_payload cookie kex cs comps ≡ payload_bytes cookie kex cs comps =
      payload-bytes cookie kex cs comps hk hh hc hm hp in
    let (r, eq, _, _) =
      Parses-new (parse_message (payload_bytes cookie kex cs comps)) _ _
        (parse_message-Parses (payload_bytes cookie kex cs comps) cookie kex cs comps hn hk hh hc hm
          hp)
        (length-payload_bytes cookie kex cs comps hn hk hh hc hm hp) in
    rw e (rw (eq, parse))
