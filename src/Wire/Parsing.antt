-- ===== src/Wire/Parsing.antt =====
-- What a `Reader` method reads off the front of the bytes that are left, as a relation that
-- composes along `do` blocks.
use ssh_bench.Common
use ssh_bench.Common.{
  ℕ, zero, suc, ◌+◌, ◌-◌, ◌≤◌, ◌<◌, ◌≡◌, refl, sym, ap, ◌∙◌, subst, Bool, true, false, List, [],
  ◌∷◌, ◌++◌, Bytes, length, length-append, append_assoc, append-nil, take-append, drop-append,
  drop-drop, drop, le→leb, arith,
}
use ssh_bench.Error.{ok}
use ssh_bench.Wire.Reader.{Reader, Read, pure, ◌>>=◌, new, take, is_empty, remaining, usize_mod}

-- `s` is what the reader has still to read, all of it.
pub record Ahead (r : Reader) (s : Bytes) : Type 0 where
  pub rest : drop r.pos r.buf ≡ s
  pub room : r.pos + length s ≡ length r.buf
  pub fits : length r.buf < usize_mod

-- `p` reads exactly `s` and returns `a`, whatever follows.
pub record Parses {A : Type 0} (p : Read A) (s : Bytes) (a : A) : Type 0 where
  pub run :
      (r : Reader) (rest : Bytes)
      → Ahead r (s ++ rest)
      → (r' : Reader) × (p r ≡ ok (a, r')) × Ahead r' rest

pub new-Ahead : (s : Bytes) → length s < usize_mod → Ahead (new s) s
unfolding new drop
new-Ahead s h = record { rest = refl; room = omega arith; fits = h }

pub pure-Parses : {A : Type 0} (a : A) → Parses (pure a) [] a
pure-Parses a = record { run = λ r rest h. (r, refl, h) }

pub bind-Parses :
    {A B : Type 0} (m : Read A) (f : A → Read B) (s t : Bytes) (a : A) (b : B)
    → Parses m s a
    → Parses (f a) t b
    → Parses (m >>= f) (s ++ t) b
bind-Parses {A} {B} m f s t a b hm hf = record { run = go }
  where
    go :
        (r : Reader) (rest : Bytes)
        → Ahead r ((s ++ t) ++ rest)
        → (r' : Reader) × ((m >>= f) r ≡ ok (b, r')) × Ahead r' rest
    go r rest h =
        let (r1, e1, h1) = hm.run r (t ++ rest) (subst (Ahead r) (append_assoc s t rest) h) in
        let (r2, e2, h2) = hf.run r1 rest h1 in (r2, rw (e1, ◌>>=◌) e2, h2)

pub take-Parses : (n : ℕ) (s : Bytes) → length s ≡ n → Parses (take n) s s
unfolding take
take-Parses n s e = record { run = go }
  where
    go :
        (r : Reader) (rest : Bytes)
        → Ahead r (s ++ rest)
        → (r' : Reader) × (take n r ≡ ok (s, r')) × Ahead r' rest
    go r rest h = (
      record r { pos = r.pos + n },
      ground (arith, length-append s rest, cut, size),
      record {
        rest = sym (drop-drop r.pos n r.buf) ∙ ap (drop n) h.rest ∙ rw (← e) (drop-append s rest);
        room = omega (arith, length-append s rest);
        fits = h.fits;
      },
    )
      where
        size : r.pos + n - r.pos ≡ n
        size = omega arith

        cut : Common.take n (drop r.pos r.buf) ≡ s
        cut = ap (Common.take n) h.rest ∙ rw (← e) (take-append s rest)

-- On a fresh reader over exactly those bytes: the value, with nothing left.
pub Parses-new :
    {A : Type 0} (p : Read A) (s : Bytes) (a : A)
    → Parses p s a
    → length s < usize_mod
    → (r' : Reader) × (p (new s) ≡ ok (a, r')) × (is_empty r' ≡ true) × (remaining r' ≡ [])
unfolding is_empty remaining
Parses-new p s a h fits =
    let (r', e, ahead) =
      h.run (new s) [] (subst (Ahead (new s)) (sym (append-nil s)) (new-Ahead s fits)) in
    (r', e, le→leb _ _ (omega (arith, ahead.room)), ahead.rest)
