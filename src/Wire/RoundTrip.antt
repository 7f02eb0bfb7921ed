-- ===== src/Wire/RoundTrip.antt =====
-- What the writer appends, and that the reader reads it back.
use ssh_bench.Common.{
  ℕ, ◌%◌, ◌^◌, ◌<◌, ◌≡◌, refl, subst, Bool, true, false, [], ◌∷◌, ◌++◌, Bytes, if◌then◌else◌,
  length, append_assoc, append-nil, arith,
}
use ssh_bench.Common.Text.{is_utf8}
use ssh_bench.Wire.BigEndian.{from_be, to_be, length-to_be, from_be-to_be_4, from_be-to_be_8}
use ssh_bench.Wire.Reader.{Reader, Read, pure, ◌>>=◌}
use ssh_bench.Wire.Reader
use ssh_bench.Wire.Writer.{Writer, ◌▸◌}
use ssh_bench.Wire.Writer
use ssh_bench.Wire.Parsing.{Parses, pure-Parses, bind-Parses, take-Parses}

-- The bytes of a `string` and of a `boolean`.
abbrev pub string_bytes : Bytes → Bytes
string_bytes s = to_be 4 (length s) ++ s

abbrev pub bool_byte : Bool → ℕ
bool_byte b = if b then 1 else 0

-- A last read, whose result is computed from what was taken.
map-Parses :
    {A : Type 0} (n : ℕ) (f : Bytes → A) (s : Bytes)
    → length s ≡ n
    → Parses (Reader.take n >>= λ b. pure (f b)) s (f s)
map-Parses n f s e =
    subst (λ t. Parses (Reader.take n >>= λ b. pure (f b)) t (f s)) (append-nil s)
      (bind-Parses _ _ s [] s (f s) (take-Parses n s e) (pure-Parses (f s)))

pub u8-Parses : (v : ℕ) → Parses Reader.u8 (v ∷ []) v
unfolding Reader.u8
u8-Parses v = map-Parses 1 _ (v ∷ []) refl

pub boolean-Parses : (v : Bool) → Parses Reader.boolean (bool_byte v ∷ []) v
unfolding Reader.boolean
boolean-Parses true = bind-Parses _ _ (1 ∷ []) [] 1 true (u8-Parses 1) (pure-Parses true)
boolean-Parses false = bind-Parses _ _ (0 ∷ []) [] 0 false (u8-Parses 0) (pure-Parses false)

pub u32-Parses : (v : ℕ) → v < 2 ^ 32 → Parses Reader.u32 (to_be 4 v) v
unfolding Reader.u32
u32-Parses v h =
    subst (Parses Reader.u32 (to_be 4 v)) (from_be-to_be_4 v h)
      (map-Parses 4 from_be (to_be 4 v) (length-to_be 4 v))

pub u64-Parses : (v : ℕ) → v < 2 ^ 64 → Parses Reader.u64 (to_be 8 v) v
unfolding Reader.u64
u64-Parses v h =
    subst (Parses Reader.u64 (to_be 8 v)) (from_be-to_be_8 v h)
      (map-Parses 8 from_be (to_be 8 v) (length-to_be 8 v))

pub string-Parses : (s : Bytes) → length s < 2 ^ 32 → Parses Reader.string (string_bytes s) s
unfolding Reader.string
string-Parses s h =
    bind-Parses _ _ (to_be 4 (length s)) s (length s) s (u32-Parses (length s) h)
      (take-Parses (length s) s refl)

pub utf8-Parses :
    (s : Bytes) → length s < 2 ^ 32 → is_utf8 s ≡ true → Parses Reader.utf8 (string_bytes s) s
unfolding Reader.utf8
utf8-Parses s h u =
    subst (λ t. Parses Reader.utf8 t s) (append-nil (string_bytes s))
      (bind-Parses _ _ (string_bytes s) [] s s (string-Parses s h) (rw u (pure-Parses s)))

-- The writer's methods, as bytes behind what is there.
pub u8-buf : (v : ℕ) (w : Writer) → (Writer.u8 v w).buf ≡ w.buf ++ v ∷ []
unfolding Writer.u8
u8-buf v w = refl

pub boolean-buf : (v : Bool) (w : Writer) → (Writer.boolean v w).buf ≡ w.buf ++ bool_byte v ∷ []
unfolding Writer.boolean
boolean-buf v w = refl

pub u32-buf : (v : ℕ) (w : Writer) → (Writer.u32 v w).buf ≡ w.buf ++ to_be 4 v
unfolding Writer.u32
u32-buf v w = refl

pub u64-buf : (v : ℕ) (w : Writer) → (Writer.u64 v w).buf ≡ w.buf ++ to_be 8 v
unfolding Writer.u64
u64-buf v w = refl

pub raw-buf : (s : Bytes) (w : Writer) → (Writer.raw s w).buf ≡ w.buf ++ s
unfolding Writer.raw
raw-buf s w = refl

pub string-buf :
    (s : Bytes) (w : Writer) → length s < 2 ^ 32 → (Writer.string s w).buf ≡ w.buf ++ string_bytes s
unfolding Writer.string Writer.u32
string-buf s w h =
    let e : length s % 2 ^ 32 ≡ length s = omega arith in
    rw e (append_assoc w.buf (to_be 4 (length s)) s)

pub into_bytes-new : (w : Writer) → Writer.into_bytes w ≡ w.buf
unfolding Writer.into_bytes
into_bytes-new w = refl

pub new-buf : Writer.new.buf ≡ []
unfolding Writer.new
new-buf = refl
