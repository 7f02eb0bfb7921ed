-- ===== src/Compress/Ends.antt =====
-- The loop of `decompress` ends, and what it returns is bounded.
use ssh_bench.Common.{
  ℕ, zero, suc, ◌+◌, ◌-◌, ◌*◌, ◌≤◌, ◌<◌, ◌≡◌, refl, ap, ◌∙◌, Bool, true, false, ◌&&◌, ◌||◌, [],
  ◌++◌, Option, none, some, Bytes, ltb, ◌==◌, if◌then◌else◌, length, drop, length-append,
  length-drop, arith,
}
use ssh_bench.Error.{SshError, Result, ok, err}
use ssh_bench.Packet.{max_packet_length}
use ssh_bench.Compress.{
  Flate2, IsFlate2, Inflated, grown, inflated, inflate, inflate_rounds, decompress,
}
use ssh_bench.Compress

-- The two tests at the end of a round, for what follows them.
tests-agree {ℓ} :
    {A : Type ℓ} (over stop : Bool) (u v r s : A)
    → (over ≡ false → stop ≡ false → r ≡ s)
    → (if over then u else if stop then v else r) ≡ (if over then u else if stop then v else s)
tests-agree true stop u v r s h = refl
tests-agree false true u v r s h = refl
tests-agree false false u v r s h = h refl refl

tests_bounded :
    {D : Type 0} (over stop : Bool) (f : SshError) (out : Bytes) (d : D) (r : Result Bytes × D)
    → (over ≡ false → length out ≤ max_packet_length)
    → ((result : Bytes) → r.0 ≡ ok result → length result ≤ max_packet_length)
    → (result : Bytes)
    → (if over then (err f, d) else if stop then (ok out, d) else r).0 ≡ ok result
    → length result ≤ max_packet_length
tests_bounded true stop f out d r fits rest result e = cc
tests_bounded false true f out d r fits rest result e =
    let a = fits refl in let n : length out ≡ length result = cc in omega arith
tests_bounded false false f out d r fits rest result e = rest result e

or_false : (a b : Bool) → (a || b) ≡ false → (a ≡ false) × (b ≡ false)
or_false true b h = cc
or_false false b h = (refl, h)

-- A round that does not stop has taken or made a byte.
progressed :
    (len consumed taken made : ℕ)
    → consumed ≤ len
    → (consumed < len → 0 < taken + made)
    → ((consumed + taken == len) && (made == 0)) ≡ false
    → 0 < taken + made
progressed len consumed (suc taken) made h input more = omega arith
progressed len consumed zero (suc made) h input more = omega arith
progressed len consumed zero zero h input more = ground arith

module _ (z : Flate2) where
  abbrev Rest : Type 0
  Rest = ℕ → Bytes → z.Decompress → Result Bytes × z.Decompress

  -- What is still to be taken and may still be made.
  abbrev left : Bytes → ℕ → Bytes → ℕ
  left payload consumed out = length payload - consumed + (max_packet_length - length out)

  module _ (payload : Bytes) (consumed : ℕ) (out : Bytes) (d : z.Decompress) where
    -- Two continuations that agree where the loop goes on agree behind a round.
    inflated-agree :
        (x : Inflated z.Decompress) (r s : Rest)
        → (x.stream_end ≡ false
            → length (out ++ x.produced) ≤ max_packet_length
            → ((consumed + x.consumed == length payload) && (length x.produced == 0)) ≡ false
            → r (consumed + x.consumed) (out ++ x.produced) x.stream
              ≡ s (consumed + x.consumed) (out ++ x.produced) x.stream)
        → inflated z payload consumed out d (some x) r
          ≡ inflated z payload consumed out d (some x) s
    unfolding inflated
    inflated-agree x r s agree =
        tests-agree (ltb max_packet_length (length (out ++ x.produced)))
          (x.stream_end || ((consumed + x.consumed == length payload) && (length x.produced == 0)))
          _ _ _ _
          (λ over stop.
            let e =
              or_false x.stream_end
                ((consumed + x.consumed == length payload) && (length x.produced == 0)) stop in
            agree e.0 (ground arith) e.1)

    round-agree :
        (y : Option (Inflated z.Decompress)) (r s : Rest)
        → ((x : Inflated z.Decompress)
            → y ≡ some x
            → x.stream_end ≡ false
            → length (out ++ x.produced) ≤ max_packet_length
            → ((consumed + x.consumed == length payload) && (length x.produced == 0)) ≡ false
            → r (consumed + x.consumed) (out ++ x.produced) x.stream
              ≡ s (consumed + x.consumed) (out ++ x.produced) x.stream)
        → inflated z payload consumed out d y r ≡ inflated z payload consumed out d y s
    unfolding inflated
    round-agree none r s agree = refl
    round-agree (some x) r s agree = inflated-agree x r s (agree x refl)

    inflated_bounded :
        (x : Option (Inflated z.Decompress)) (r : Rest)
        → ((c : ℕ) (o : Bytes) (e : z.Decompress) (result : Bytes)
            → (r c o e).0 ≡ ok result
            → length result ≤ max_packet_length)
        → (result : Bytes) → (inflated z payload consumed out d x r).0 ≡ ok result
        → length result ≤ max_packet_length
    unfolding inflated
    inflated_bounded none r bounded result e = cc
    inflated_bounded (some x) r bounded result e =
        tests_bounded (ltb max_packet_length (length (out ++ x.produced)))
          (x.stream_end || ((consumed + x.consumed == length payload) && (length x.produced == 0)))
          _ (out ++ x.produced) x.stream (r (consumed + x.consumed) (out ++ x.produced) x.stream)
          (λ over. ground arith) (bounded (consumed + x.consumed) (out ++ x.produced) x.stream)
          result e

  grown-le : (len capacity least : ℕ) → len ≤ capacity → len ≤ grown z len capacity least
  unfolding grown
  grown-le len capacity least h = ground arith

  grown-lt : (len capacity : ℕ) → len ≤ capacity → len < grown z len capacity 64
  unfolding grown
  grown-lt len capacity h = ground arith

  module _ (law : IsFlate2 z) where
    -- A round that goes on leaves less, and the positions stay in range.
    shrinks :
        (payload : Bytes) (consumed : ℕ) (out : Bytes) (capacity : ℕ) (d : z.Decompress)
        (x : Inflated z.Decompress)
        → z.decompress_vec d (drop consumed payload) (capacity - length out) ≡ some x
        → consumed ≤ length payload
        → length out < capacity
        → x.stream_end ≡ false
        → length (out ++ x.produced) ≤ max_packet_length
        → ((consumed + x.consumed == length payload) && (length x.produced == 0)) ≡ false
        → (left payload (consumed + x.consumed) (out ++ x.produced) < left payload consumed out)
          × (consumed + x.consumed ≤ length payload)
          × (length (out ++ x.produced) ≤ capacity)
    shrinks payload consumed out capacity d x e taken room end fits more =
        let input = length-drop consumed payload in
        let a = law.consumed_le d (drop consumed payload) (capacity - length out) x e in
        let b = law.produced_le d (drop consumed payload) (capacity - length out) x e in
        let c = law.progress d (drop consumed payload) (capacity - length out) x e end in
        let n = length-append out x.produced in
        let moved =
          progressed (length payload) consumed x.consumed (length x.produced) taken
            (λ h. c (omega arith) (omega arith)) more in
        (omega arith, omega arith, omega arith)

    -- A round more makes no difference when there are more rounds than bytes left.
    inflate-more :
        (fuel : ℕ) (payload : Bytes) (consumed : ℕ) (out : Bytes) (capacity : ℕ) (d : z.Decompress)
        → left payload consumed out < fuel
        → consumed ≤ length payload
        → length out ≤ max_packet_length
        → length out ≤ capacity
        → inflate z (suc fuel) payload consumed out capacity d
          ≡ inflate z fuel payload consumed out capacity d
    unfolding inflate
    inflate-more zero payload consumed out capacity d few taken made room = absurd (omega arith)
    inflate-more (suc fuel) payload consumed out capacity d few taken made room =
        let cap = grown z (length out) capacity 64 in
        let wide = grown-lt (length out) capacity room in
        round-agree payload consumed out d
          (z.decompress_vec d (drop consumed payload) (cap - length out)) _ _
          (λ x e end fits more.
            let a = shrinks payload consumed out cap d x e taken wide end fits more in
            inflate-more fuel payload (consumed + x.consumed) (out ++ x.produced) cap x.stream
              (omega arith) a.1 fits a.2)

  inflate_bounded :
      (fuel : ℕ) (payload : Bytes) (consumed : ℕ) (out : Bytes) (capacity : ℕ) (d : z.Decompress)
      (result : Bytes)
      → (inflate z fuel payload consumed out capacity d).0 ≡ ok result
      → length result ≤ max_packet_length
  unfolding inflate
  inflate_bounded zero payload consumed out capacity d result e = cc
  inflate_bounded (suc fuel) payload consumed out capacity d result e =
      inflated_bounded payload consumed out d _ _
        (λ c o d'. inflate_bounded fuel payload c o (grown z (length out) capacity 64) d') result e

-- With streams of `flate2` that keep their contract: the rounds that `decompress` gives to its loop
-- are enough, as any number of rounds more makes no difference to the result or to the stream; and
-- the payload that it makes of a compressed one is never longer than the packet limit.
pub decompress_ends :
    (z : Flate2)
    → IsFlate2 z
    → (payload : Bytes) (d : z.Decompress)
    → ((extra capacity : ℕ)
        → inflate z (extra + inflate_rounds z payload) payload 0 [] capacity d
          ≡ inflate z (inflate_rounds z payload) payload 0 [] capacity d)
      × ((result : Bytes)
          → (decompress z (Compress.Decompressor.zlib d) payload).0 ≡ ok result
          → length result ≤ max_packet_length)
unfolding decompress
decompress_ends z law payload d = (
  enough,
  λ result e.
      inflate_bounded z (inflate_rounds z payload) payload 0 [] (64 + length payload * 2) d result
        e,
)
  where
    enough :
        (n capacity : ℕ)
        → inflate z (n + inflate_rounds z payload) payload 0 [] capacity d
          ≡ inflate z (inflate_rounds z payload) payload 0 [] capacity d
    enough zero capacity = ap (λ m. inflate z m payload 0 [] capacity d) (omega arith)
    enough (suc n) capacity =
        let e : suc n + inflate_rounds z payload ≡ suc (n + inflate_rounds z payload) =
          omega arith in
        rw e (
          inflate-more z law (n + inflate_rounds z payload) payload 0 [] capacity d (omega arith)
            (omega arith) (omega arith) (omega arith)
          ∙ enough n capacity)
