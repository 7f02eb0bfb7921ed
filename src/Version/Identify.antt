-- ===== src/Version/Identify.antt =====
-- What `parse_peer_id` finds.
use ssh_bench.Common.{
  ℕ, zero, suc, ◌+◌, ◌-◌, ◌≤◌, ◌<◌, ◌≡◌, refl, ap, ◌∙◌, Bool, true, false, not, List, [], ◌∷◌, ◌++◌,
  some, Bytes, ltb, if◌then◌else◌, length, drop, length-append, length-drop, append_assoc,
  drop-append, drop-drop, le→ltb, Option-cases, inl, inr, arith,
}
use ssh_bench.Error.{ok, err, bad_version}
use ssh_bench.Wire.Reader.{count}
use ssh_bench.Version.{PeerId, max_line, position, is_id, parse_loop, parse_peer_id}
use ssh_bench.Version.Lines.{
  strip_cr, position-append, position-lt, line_at-strip_cr, length-line_at,
}

-- One complete line at the front of the remaining bytes, in one round of the loop.
loop_line :
    (fuel : ℕ) (buf c t : Bytes) (allow : Bool) (start : ℕ)
    → drop start buf ≡ c ++ 0x0a ∷ t
    → count 0x0a c ≡ 0
    → length c < max_line
    → parse_loop (suc fuel) buf allow start ≡ (
        if is_id (strip_cr c)
        then ok (some (record { raw = strip_cr c }, start + length c + 1))
        else if not allow
        then err (bad_version "expected SSH identification string")
        else parse_loop fuel buf allow (start + length c + 1))
unfolding parse_loop
loop_line fuel buf c t allow start e h short =
    let found : position 0x0a (drop start buf) ≡ some (length c) =
      rw e (position-append 0x0a c t h) in
    let fits : ltb max_line (start + length c - start + 1) ≡ false = le→ltb _ _ (omega arith) in
    rw (found, parse_loop, fits, line_at-strip_cr buf c t start e)

-- Lines, each ended by LF.
abbrev pub lines_bytes : List Bytes → Bytes
lines_bytes [] = []
lines_bytes (c ∷ cs) = c ++ 0x0a ∷ lines_bytes cs

-- A line that the client skips: of legal length, and no identification.
pub record IsBanner (c : Bytes) : Type 0 where
  pub one_line : count 0x0a c ≡ 0
  pub short : length c < max_line
  pub no_id : is_id (strip_cr c) ≡ false

pub record IsIdLine (c : Bytes) : Type 0 where
  pub one_line : count 0x0a c ≡ 0
  pub short : length c < max_line
  pub has_id : is_id (strip_cr c) ≡ true

abbrev pub AllBanners : List Bytes → Type 0
AllBanners [] = Unit {0}
AllBanners (c ∷ cs) = IsBanner c × AllBanners cs

next_line :
    (buf c t : Bytes) (start : ℕ)
    → drop start buf ≡ c ++ 0x0a ∷ t
    → drop (start + length c + 1) buf ≡ t
next_line buf c t start e =
    let p : start + length c + 1 ≡ start + (length c + 1) = omega arith in
    rw (p, ← drop-drop start (length c + 1) buf, e) tail
  where
    tail : drop (length c + 1) (c ++ 0x0a ∷ t) ≡ t
    tail =
        let q : length c + 1 ≡ length (c ++ 0x0a ∷ []) =
          omega (arith, length-append c (0x0a ∷ [])) in
        rw (q, ← append_assoc c (0x0a ∷ []) t) (drop-append (c ++ 0x0a ∷ []) t)

loop_banners :
    (fuel : ℕ) (buf : Bytes) (cs : List Bytes) (t : Bytes) (start : ℕ)
    → drop start buf ≡ lines_bytes cs ++ t
    → AllBanners cs
    → parse_loop (length cs + fuel) buf true start
      ≡ parse_loop fuel buf true (start + length (lines_bytes cs))
loop_banners fuel buf [] t start e h =
    let p : 0 + fuel ≡ fuel = omega arith in let q : start + 0 ≡ start = omega arith in rw (p, q)
loop_banners fuel buf (c ∷ cs) t start e (hc, hs) =
    let e' : drop start buf ≡ c ++ 0x0a ∷ (lines_bytes cs ++ t) = e ∙ append_assoc c _ t in
    let p : suc (length cs) + fuel ≡ suc (length cs + fuel) = omega arith in
    let q : start + length c + 1 + length (lines_bytes cs)
        ≡ start + length (c ++ 0x0a ∷ lines_bytes cs) =
      omega (arith, length-append c (0x0a ∷ lines_bytes cs)) in
    rw p (
      loop_line (length cs + fuel) buf c (lines_bytes cs ++ t) true start e' hc.one_line hc.short
      ∙ rw hc.no_id
          (loop_banners fuel buf cs t (start + length c + 1) (next_line buf c _ start e') hs)
      ∙ ap (parse_loop fuel buf true) q)

length-lines_bytes : (cs : List Bytes) → length cs ≤ length (lines_bytes cs)
length-lines_bytes [] = omega arith
length-lines_bytes (c ∷ cs) =
    omega (arith, length-append c (0x0a ∷ lines_bytes cs), length-lines_bytes cs)

-- The loop of `parse_peer_id` behind the banner lines, with the rounds that are left.
pub parse_peer_id-banners :
    (cs : List Bytes) (t : Bytes)
    → AllBanners cs
    → (fuel : ℕ) × (parse_peer_id (lines_bytes cs ++ t) true
        ≡ parse_loop (suc fuel) (lines_bytes cs ++ t) true (length (lines_bytes cs)))
unfolding parse_peer_id drop
parse_peer_id-banners cs t h =
    let buf : Bytes = lines_bytes cs ++ t in
    let fuel : ℕ = length buf - length cs in
    let p : length buf + 1 ≡ length cs + suc fuel =
      omega (arith, length-append (lines_bytes cs) t, length-lines_bytes cs) in
    let q : 0 + length (lines_bytes cs) ≡ length (lines_bytes cs) = omega arith in
    (
      fuel,
      ap (λ k. parse_loop k buf true 0) p
          ∙ loop_banners (suc fuel) buf cs t 0 refl h
          ∙ ap (parse_loop (suc fuel) buf true) q,
    )

-- The client skips any number of banner lines, takes the identification line behind them without
-- its line end, and consumes the bytes up to and with its LF, whatever follows.
pub parse_peer_id_finds :
    (banners : List Bytes) (c rest : Bytes)
    → AllBanners banners
    → IsIdLine c
    → parse_peer_id (lines_bytes banners ++ (c ++ 0x0a ∷ rest)) true
      ≡ ok (some (record { raw = strip_cr c }, length (lines_bytes banners) + length c + 1))
parse_peer_id_finds banners c rest hb hc =
    let (fuel, e) = parse_peer_id-banners banners (c ++ 0x0a ∷ rest) hb in
    e
    ∙ loop_line fuel _ c rest true (length (lines_bytes banners))
        (drop-append (lines_bytes banners) (c ++ 0x0a ∷ rest)) hc.one_line hc.short
    ∙ rw hc.has_id

-- The server looks at the first line alone: an identification is taken, and any other complete
-- line of legal length is an error.
pub parse_peer_id_server :
    (c rest : Bytes)
    → count 0x0a c ≡ 0
    → length c < max_line
    → parse_peer_id (c ++ 0x0a ∷ rest) false ≡ (
        if is_id (strip_cr c)
        then ok (some (record { raw = strip_cr c }, length c + 1))
        else err (bad_version "expected SSH identification string"))
unfolding parse_peer_id drop
parse_peer_id_server c rest h short =
    let buf : Bytes = c ++ 0x0a ∷ rest in
    let p : length buf + 1 ≡ suc (length buf) = omega arith in
    let q : 0 + length c + 1 ≡ length c + 1 = omega arith in
    ap (λ k. parse_loop k buf false 0) p
    ∙ loop_line (length buf) buf c rest false 0 refl h short
    ∙ rw q

loop_sound :
    (fuel : ℕ) (buf : Bytes) (allow : Bool) (start : ℕ) (p : PeerId) (n : ℕ)
    → parse_loop fuel buf allow start ≡ ok (some (p, n))
    → (is_id p.raw ≡ true) × (length p.raw < max_line) × (n ≤ length buf)
unfolding parse_loop
loop_sound zero buf allow start p n e = cc
loop_sound (suc fuel) buf allow start p n e = elim (Option-cases (position 0x0a (drop start buf))) [
  | inl missing ↦ ground arith
  | inr (i, found) ↦ ground (
    arith,
    found,
    position-lt 0x0a (drop start buf) i found,
    length-drop start buf,
    length-line_at buf start i,
    loop_sound fuel buf allow (start + i + 1) p n,
  )
]

-- Whatever the bytes and the role: an accepted identification begins with `SSH-2.0-` or
-- `SSH-1.99-`, has less than 255 bytes, and what is consumed lies in the buffer.
pub parse_peer_id_sound :
    (buf : Bytes) (allow : Bool) (p : PeerId) (n : ℕ)
    → parse_peer_id buf allow ≡ ok (some (p, n))
    → (is_id p.raw ≡ true) × (length p.raw < max_line) × (n ≤ length buf)
unfolding parse_peer_id
parse_peer_id_sound buf allow p n e = loop_sound (length buf + 1) buf allow 0 p n e
