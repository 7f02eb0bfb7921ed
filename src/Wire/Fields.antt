-- ===== src/Wire/Fields.antt =====
-- Every sequence of values that the writer appends, the reader reads back, one after the other.
use ssh_bench.Common.{
  ℕ, ◌^◌, ◌<◌, ◌≡◌, sym, ap, ◌∙◌, subst, Bool, true, List, [], ◌∷◌, ◌++◌, Bytes, length,
  append_assoc, append-nil,
}
use ssh_bench.Common.Text.{is_utf8}
use ssh_bench.Error.{ok}
use ssh_bench.Wire.BigEndian.{to_be}
use ssh_bench.Wire.Reader.{Reader, Read, pure, ◌>>=◌, usize_mod}
use ssh_bench.Wire.Reader
use ssh_bench.Wire.Writer.{Writer, ◌▸◌}
use ssh_bench.Wire.Writer
use ssh_bench.Wire.Parsing.{Parses, Parses-new, pure-Parses, bind-Parses}
use ssh_bench.Wire.RoundTrip.{
  string_bytes, bool_byte, u8-Parses, boolean-Parses, u32-Parses, u64-Parses, string-Parses,
  utf8-Parses, u8-buf, boolean-buf, u32-buf, u64-buf, string-buf, new-buf,
}
use ssh_bench.Wire.Names.{IsNameList, join, name_list-Parses, name_list-buf}

pub data Field : Type 0 where
  byte uint32 uint64 : ℕ → Field
  flag : Bool → Field
  str text : Bytes → Field
  names : List Bytes → Field

pub data Kind : Type 0 where
  byte uint32 uint64 flag str text names : Kind

abbrev pub kind_of : Field → Kind
kind_of (Field.byte v) = Kind.byte
kind_of (Field.uint32 v) = Kind.uint32
kind_of (Field.uint64 v) = Kind.uint64
kind_of (Field.flag v) = Kind.flag
kind_of (Field.str v) = Kind.str
kind_of (Field.text v) = Kind.text
kind_of (Field.names v) = Kind.names

abbrev pub kinds_of : List Field → List Kind
kinds_of [] = []
kinds_of (f ∷ fs) = kind_of f ∷ kinds_of fs

-- The writer's call for a value, and the reader's for a kind of value.
abbrev pub write : Field → Writer → Writer
write (Field.byte v) = Writer.u8 v
write (Field.uint32 v) = Writer.u32 v
write (Field.uint64 v) = Writer.u64 v
write (Field.flag v) = Writer.boolean v
write (Field.str v) = Writer.string v
write (Field.text v) = Writer.string v
write (Field.names v) = Writer.name_list v

abbrev pub read : Kind → Read Field
read Kind.byte = do v ← Reader.u8; pure (Field.byte v)
read Kind.uint32 = do v ← Reader.u32; pure (Field.uint32 v)
read Kind.uint64 = do v ← Reader.u64; pure (Field.uint64 v)
read Kind.flag = do v ← Reader.boolean; pure (Field.flag v)
read Kind.str = do v ← Reader.string; pure (Field.str v)
read Kind.text = do v ← Reader.utf8; pure (Field.text v)
read Kind.names = do v ← Reader.name_list; pure (Field.names v)

abbrev pub write_all : List Field → Writer → Writer
write_all [] w = w
write_all (f ∷ fs) w = write_all fs (write f w)

abbrev pub read_all : List Kind → Read (List Field)
read_all [] = pure []
read_all (k ∷ ks) = do v ← read k; vs ← read_all ks; pure (v ∷ vs)

-- Values in the range of their Rust type; a text is UTF-8.
abbrev pub Fits : Field → Type 0
Fits (Field.byte v) = v < 2 ^ 8
Fits (Field.uint32 v) = v < 2 ^ 32
Fits (Field.uint64 v) = v < 2 ^ 64
Fits (Field.flag v) = Unit {0}
Fits (Field.str v) = length v < 2 ^ 32
Fits (Field.text v) = (length v < 2 ^ 32) × (is_utf8 v ≡ true)
Fits (Field.names v) = (length (join v) < 2 ^ 32) × IsNameList v

abbrev pub AllFit : List Field → Type 0
AllFit [] = Unit {0}
AllFit (f ∷ fs) = Fits f × AllFit fs

abbrev pub bytes_of : Field → Bytes
bytes_of (Field.byte v) = v ∷ []
bytes_of (Field.uint32 v) = to_be 4 v
bytes_of (Field.uint64 v) = to_be 8 v
bytes_of (Field.flag v) = bool_byte v ∷ []
bytes_of (Field.str v) = string_bytes v
bytes_of (Field.text v) = string_bytes v
bytes_of (Field.names v) = string_bytes (join v)

abbrev pub all_bytes : List Field → Bytes
all_bytes [] = []
all_bytes (f ∷ fs) = bytes_of f ++ all_bytes fs

write-buf : (f : Field) (w : Writer) → Fits f → (write f w).buf ≡ w.buf ++ bytes_of f
write-buf (Field.byte v) w h = u8-buf v w
write-buf (Field.uint32 v) w h = u32-buf v w
write-buf (Field.uint64 v) w h = u64-buf v w
write-buf (Field.flag v) w h = boolean-buf v w
write-buf (Field.str v) w h = string-buf v w h
write-buf (Field.text v) w h = string-buf v w h.0
write-buf (Field.names v) w h = name_list-buf v w h.0

pub write_all-buf :
    (fs : List Field) (w : Writer) → AllFit fs → (write_all fs w).buf ≡ w.buf ++ all_bytes fs
write_all-buf [] w h = sym (append-nil w.buf)
write_all-buf (f ∷ fs) w (hf, hs) =
    write_all-buf fs (write f w) hs
    ∙ ap (λ t. t ++ all_bytes fs) (write-buf f w hf)
    ∙ append_assoc w.buf (bytes_of f) (all_bytes fs)

return-Parses :
    {A B : Type 0} (m : Read A) (f : A → B) (s : Bytes) (a : A)
    → Parses m s a
    → Parses (m >>= λ v. pure (f v)) s (f a)
return-Parses m f s a h =
    subst (λ t. Parses (m >>= λ v. pure (f v)) t (f a)) (append-nil s)
      (bind-Parses m _ s [] a (f a) h (pure-Parses (f a)))

read-Parses : (f : Field) → Fits f → Parses (read (kind_of f)) (bytes_of f) f
read-Parses (Field.byte v) h = return-Parses _ _ _ v (u8-Parses v)
read-Parses (Field.uint32 v) h = return-Parses _ _ _ v (u32-Parses v h)
read-Parses (Field.uint64 v) h = return-Parses _ _ _ v (u64-Parses v h)
read-Parses (Field.flag v) h = return-Parses _ _ _ v (boolean-Parses v)
read-Parses (Field.str v) h = return-Parses _ _ _ v (string-Parses v h)
read-Parses (Field.text v) h = return-Parses _ _ _ v (utf8-Parses v h.0 h.1)
read-Parses (Field.names v) h = return-Parses _ _ _ v (name_list-Parses v h.1 h.0)

pub read_all-Parses :
    (fs : List Field) → AllFit fs → Parses (read_all (kinds_of fs)) (all_bytes fs) fs
read_all-Parses [] h = pure-Parses []
read_all-Parses (f ∷ fs) (hf, hs) =
    bind-Parses (read (kind_of f)) _ (bytes_of f) (all_bytes fs) f (f ∷ fs) (read-Parses f hf)
      (return-Parses _ _ _ fs (read_all-Parses fs hs))

-- Any sequence of bytes, booleans, integers, strings, texts and name-lists in range, written by
-- the writer from empty, is read back in order by the reader, which then has nothing left.
pub read_all-write_all :
    (fs : List Field)
    → AllFit fs
    → length (Writer.into_bytes (write_all fs Writer.new)) < usize_mod
    → (r : Reader) × (read_all
          (kinds_of fs)
          (Reader.new (Writer.into_bytes (write_all fs Writer.new)))
        ≡ ok (fs, r))
      × (Reader.is_empty r ≡ true)
unfolding Writer.into_bytes
read_all-write_all fs h size =
    let e : (write_all fs Writer.new).buf ≡ all_bytes fs =
      write_all-buf fs Writer.new h ∙ ap (λ t. t ++ all_bytes fs) new-buf in
    let (r, eq, done, _) =
      Parses-new (read_all (kinds_of fs)) (all_bytes fs) fs (read_all-Parses fs h)
        (subst (λ t. length t < usize_mod) e size) in
    (r, subst (λ t. read_all (kinds_of fs) (Reader.new t) ≡ ok (fs, r)) (sym e) eq, done)
