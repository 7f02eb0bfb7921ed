-- ===== src/Kdf/Blocks.antt =====
-- `derive_key_with` against the blocks of RFC 4253, section 7.2.
use ssh_bench.Common.{
  ℕ, zero, suc, ◌+◌, ◌≤◌, ◌<◌, ◌≡◌, refl, sym, ap, ◌∙◌, Bool-cases, inl, inr, false, [], ◌∷◌, ◌++◌,
  Bytes, ltb, length, take, length-append, take-append_le, length-take, append_assoc, arith,
}
use ssh_bench.Kdf.{extend, derive_key_with}

module _ (digest : Bytes → Bytes) (k_enc h : Bytes) (letter : ℕ) (session_id : Bytes) where
  -- `K1 ‖ .. ‖ Kn` for `n + 1` blocks.
  unfoldable pub blocks : ℕ → Bytes
  blocks zero = digest (k_enc ++ h ++ (letter ∷ []) ++ session_id)
  blocks (suc n) = blocks n ++ digest (k_enc ++ h ++ blocks n)

  module _ (filled : (m : Bytes) → 0 < length (digest m)) where
    pub length-blocks-lt : (n : ℕ) → n < length (blocks n)
    unfolding blocks
    length-blocks-lt zero = filled _
    length-blocks-lt (suc n) = omega (
      arith,
      length-blocks-lt n,
      filled (k_enc ++ h ++ blocks n),
      length-append (blocks n) (digest (k_enc ++ h ++ blocks n)),
    )

    length-blocks_mono :
        (out_len m k : ℕ) → out_len ≤ length (blocks m) → out_len ≤ length (blocks (k + m))
    unfolding blocks
    length-blocks_mono out_len m zero reach = let e : zero + m ≡ m = omega arith in rw e reach
    length-blocks_mono out_len m (suc k) reach =
        let e : suc k + m ≡ suc (k + m) = omega arith in
        rw e (
          omega (
            arith,
            length-blocks_mono out_len m k reach,
            length-append (blocks (k + m)) (digest (k_enc ++ h ++ blocks (k + m))),
          ))

    longer :
        (n fuel out_len : ℕ)
        → out_len ≤ length (blocks n) + suc fuel
        → out_len ≤ length (blocks (suc n)) + fuel
    unfolding blocks
    longer n fuel out_len reach = omega (
      arith,
      length-append (blocks n) (digest (k_enc ++ h ++ blocks n)),
      filled (k_enc ++ h ++ blocks n),
    )

    next : (n : ℕ) → blocks n ++ digest ((k_enc ++ h) ++ blocks n) ≡ blocks (suc n)
    unfolding blocks
    next n = rw (append_assoc k_enc h (blocks n)) refl

    take-blocks :
        (out_len m k : ℕ)
        → out_len ≤ length (blocks m)
        → take out_len (blocks (k + m)) ≡ take out_len (blocks m)
    unfolding blocks
    take-blocks out_len m zero reach =
        let e : zero + m ≡ m = omega arith in ap (λ n. take out_len (blocks n)) e
    take-blocks out_len m (suc k) reach =
        let e : suc k + m ≡ suc (k + m) = omega arith in
        rw e (
          take-append_le out_len (blocks (k + m)) (digest (k_enc ++ h ++ blocks (k + m)))
            (length-blocks_mono out_len m k reach)
          ∙ take-blocks out_len m k reach)

    -- Two block counts that reach the length agree on it.
    take-blocks_agree :
        (out_len m n : ℕ)
        → out_len ≤ length (blocks m)
        → out_len ≤ length (blocks n)
        → take out_len (blocks m) ≡ take out_len (blocks n)
    take-blocks_agree out_len m n hm hn =
        let e : n + m ≡ m + n = omega arith in
        sym (take-blocks out_len m n hm)
        ∙ ap (λ k. take out_len (blocks k)) e
        ∙ take-blocks out_len n m hn

    extend-blocks :
        (fuel out_len n : ℕ)
        → out_len ≤ length (blocks n) + fuel
        → (m : ℕ) × (extend digest fuel (k_enc ++ h) out_len (blocks n) ≡ blocks m)
          × (out_len ≤ length (blocks m))
    unfolding extend
    extend-blocks zero out_len n reach = (n, refl, omega arith)
    extend-blocks (suc fuel) out_len n reach = elim (Bool-cases (ltb (length (blocks n)) out_len)) [
      | inl short ↦
          let (m, e, reached) = extend-blocks fuel out_len (suc n) (longer n fuel out_len reach) in
          (
            m,
            rw (short) (ap (λ t. extend digest fuel (k_enc ++ h) out_len t) (next n) ∙ e),
            reached,
          )
      | inr long ↦ (
        n,
        rw (long) refl,
        let stop : ltb (length (blocks n)) out_len ≡ false = long in ground arith,
      )
    ]

    -- For a digest that is never empty and any secret, hash, letter and session id: the derived
    -- key has the length asked for, and is the start of `K1 ‖ K2 ‖ ..` of RFC 4253, cut from any
    -- number of blocks that reaches that length; `out_len + 1` blocks do.
    pub derive_key_with-blocks :
        (out_len n : ℕ)
        → out_len ≤ length (blocks n)
        → (derive_key_with digest k_enc h letter session_id out_len ≡ take out_len (blocks n))
          × (length (derive_key_with digest k_enc h letter session_id out_len) ≡ out_len)
          × (out_len < length (blocks out_len))
    unfolding derive_key_with
    derive_key_with-blocks out_len n reach =
        let (m, e, reached) =
          extend-blocks out_len out_len zero (omega (arith, length-blocks-lt zero)) in
        let same : take out_len (extend digest out_len (k_enc ++ h) out_len (blocks zero))
            ≡ take out_len (blocks m) =
          ap (take out_len) e in
        let key = same ∙ take-blocks_agree out_len m n reached reach in
        (
          unfold blocks in key,
          unfold blocks in ap length key ∙ length-take out_len (blocks n) reach,
          length-blocks-lt out_len,
        )
