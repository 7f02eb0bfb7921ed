-- ===== src/Wire/Names.antt =====
-- A name-list is read back as it was written.
use ssh_bench.Common.{
  ℕ, suc, ◌+◌, ◌-◌, ◌%◌, ◌^◌, ◌≤◌, ◌<◌, ◌≡◌, ◌⊎◌, inl, inr, refl, sym, ap, ◌∙◌, subst, true, false,
  List, [], ◌∷◌, ◌++◌, Bytes, leb, lt→ltb, ◌==◌, length, length-append, append_assoc, append-nil,
  arith,
}
use ssh_bench.Common.Text.{is_ascii, ascii-is_utf8}
use ssh_bench.Wire.BigEndian.{to_be}
use ssh_bench.Wire.Reader.{
  Reader, Read, pure, ◌>>=◌, count, split, cons_head, names_of, max_name_list_entries,
}
use ssh_bench.Wire.Reader
use ssh_bench.Wire.Writer.{Writer, ◌▸◌, sum_lengths, write_names}
use ssh_bench.Wire.Writer
use ssh_bench.Wire.Parsing.{Parses, pure-Parses, bind-Parses}
use ssh_bench.Wire.RoundTrip.{string_bytes, string-Parses}

-- An ASCII name without a comma.
pub record IsName (n : Bytes) : Type 0 where
  pub ascii : is_ascii n ≡ true
  pub no_comma : count b',' n ≡ 0

abbrev pub AllNames : List Bytes → Type 0
AllNames [] = Unit {0}
AllNames (n ∷ ns) = IsName n × AllNames ns

-- Each name behind a comma, and the names with a comma between each two.
abbrev pub tail_bytes : List Bytes → Bytes
tail_bytes [] = []
tail_bytes (n ∷ ns) = b',' ∷ (n ++ tail_bytes ns)

abbrev pub join : List Bytes → Bytes
join [] = []
join (n ∷ ns) = n ++ tail_bytes ns

write_names-tail :
    (i : ℕ) (ns : List Bytes) (w : Writer) → (write_names (suc i) ns w).buf ≡ w.buf ++ tail_bytes ns
unfolding write_names
write_names-tail i [] w = sym (append-nil w.buf)
write_names-tail i (n ∷ ns) w =
    write_names-tail (suc i) ns _ ∙ rw (lt→ltb 0 (suc i) (omega arith)) (simp append_assoc)

write_names-join : (ns : List Bytes) (w : Writer) → (write_names 0 ns w).buf ≡ w.buf ++ join ns
write_names-join [] w = unfold write_names in sym (append-nil w.buf)
write_names-join (n ∷ ns) w = unfold write_names in (write_names-tail 0 ns _ ∙ simp append_assoc)

length-tail : (ns : List Bytes) → length (tail_bytes ns) ≡ sum_lengths ns + length ns
unfolding sum_lengths
length-tail [] = refl
length-tail (n ∷ ns) = omega (arith, length-append n (tail_bytes ns), length-tail ns)

pub length-join : (ns : List Bytes) → length (join ns) ≡ sum_lengths ns + (length ns - 1)
unfolding sum_lengths
length-join [] = refl
length-join (n ∷ ns) = omega (arith, length-append n (tail_bytes ns), length-tail ns)

pub name_list-buf :
    (ns : List Bytes) (w : Writer)
    → length (join ns) < 2 ^ 32
    → (Writer.name_list ns w).buf ≡ w.buf ++ string_bytes (join ns)
unfolding Writer.name_list Writer.u32
name_list-buf ns w h =
    let e : (sum_lengths ns + (length ns - 1)) % 2 ^ 32 ≡ length (join ns) =
      omega (arith, length-join ns) in
    rw e (write_names-join ns _ ∙ append_assoc w.buf (to_be 4 (length (join ns))) (join ns))

is_ascii-append : (a b : Bytes) → is_ascii a ≡ true → is_ascii b ≡ true → is_ascii (a ++ b) ≡ true
unfolding is_ascii
is_ascii-append [] b ha hb = hb
is_ascii-append (x ∷ a) b ha hb = ground (arith, is_ascii-append a b)

count-append : (c : ℕ) (a b : Bytes) → count c (a ++ b) ≡ count c a + count c b
unfolding count
count-append c [] b = omega arith
count-append c (x ∷ a) b = omega (arith, count-append c a b)

tail-is_ascii : (ns : List Bytes) → AllNames ns → is_ascii (tail_bytes ns) ≡ true
unfolding is_ascii
tail-is_ascii [] h = refl
tail-is_ascii (n ∷ ns) (hn, hs) = is_ascii-append n (tail_bytes ns) hn.ascii (tail-is_ascii ns hs)

count-tail : (ns : List Bytes) → AllNames ns → count b',' (tail_bytes ns) ≡ length ns
unfolding count
count-tail [] h = refl
count-tail (n ∷ ns) (hn, hs) =
    omega (arith, count-append b',' n (tail_bytes ns), count-tail ns hs, hn.no_comma)

split-append :
    (c : ℕ) (n rest x : Bytes) (xs : List Bytes)
    → count c n ≡ 0
    → split c rest ≡ x ∷ xs
    → split c (n ++ rest) ≡ (n ++ x) ∷ xs
unfolding split count
split-append c [] rest x xs h e = e
split-append c (b ∷ n) rest x xs h e = ground (arith, split-append c n rest x xs)

pub split-join :
    (n : Bytes) (ns : List Bytes) → IsName n → AllNames ns → split b',' (join (n ∷ ns)) ≡ n ∷ ns
unfolding split
split-join n [] hn hs =
    split-append b',' n [] [] [] hn.no_comma refl ∙ ap (λ t. t ∷ []) (append-nil n)
split-join n (m ∷ ms) hn (hm, hs) =
    split-append b',' n (tail_bytes (m ∷ ms)) [] (m ∷ ms) hn.no_comma
      (ap (◌∷◌ []) (split-join m ms hm hs))
    ∙ ap (λ t. t ∷ m ∷ ms) (append-nil n)

names_of-join :
    (n : Bytes) (ns : List Bytes)
    → IsName n
    → AllNames ns
    → length (n ∷ ns) ≤ max_name_list_entries
    → names_of (join (n ∷ ns)) ≡ pure (n ∷ ns)
unfolding names_of
names_of-join n ns hn hs h = rw (ascii, few, ascii-is_utf8 _ ascii, split-join n ns hn hs)
  where
    ascii : is_ascii (join (n ∷ ns)) ≡ true
    ascii = is_ascii-append n (tail_bytes ns) hn.ascii (tail-is_ascii ns hs)

    few : leb max_name_list_entries (count b',' (join (n ∷ ns))) ≡ false
    few = ground (arith, count-append b',' n (tail_bytes ns), count-tail ns hs, hn.no_comma)

-- What a list must be so that it is read back: at most 256 names, and not the single empty name,
-- whose bytes are those of the empty list.
abbrev pub IsNameList : List Bytes → Type 0
IsNameList ns =
    AllNames ns × (length ns ≤ max_name_list_entries) × ((ns ≡ []) ⊎ (0 < length (join ns)))

pub name_list-Parses :
    (ns : List Bytes)
    → IsNameList ns
    → length (join ns) < 2 ^ 32
    → Parses Reader.name_list (string_bytes (join ns)) ns
unfolding Reader.name_list to_be
name_list-Parses [] h size =
    bind-Parses _ _ (string_bytes []) [] [] [] (string-Parses [] size) (pure-Parses [])
name_list-Parses (n ∷ ns) (hs, few, inl e) size = cc
name_list-Parses (n ∷ ns) ((hn, hs), few, inr some_byte) size =
    subst (λ t. Parses Reader.name_list t (n ∷ ns)) (append-nil (string_bytes (join (n ∷ ns))))
      (bind-Parses _ _ (string_bytes (join (n ∷ ns))) [] (join (n ∷ ns)) (n ∷ ns)
        (string-Parses (join (n ∷ ns)) size)
        (rw (not_empty, names_of-join n ns hn hs few) (pure-Parses (n ∷ ns))))
  where
    not_empty : (length (join (n ∷ ns)) == 0) ≡ false
    not_empty = ground arith
