-- ===== src/Transport/Messages.antt =====
-- The messages that transport.rs itself reads and writes.
use ssh_bench.Common.{ℕ, Bool, false, List, [], ◌∷◌, Bytes, bytes_eq}
use ssh_bench.Msg
use ssh_bench.Error.{Result, ok, err}
use ssh_bench.Wire.Reader.{Read, pure, ◌>>=◌, u8, u32, string, utf8}
use ssh_bench.Wire.Reader
use ssh_bench.Wire.Writer.{◌▸◌}
use ssh_bench.Wire.Writer

-- `list.first() == Some(name)`
unfoldable pub first_is : List Bytes → Bytes → Bool
first_is [] name = false
first_is (n ∷ ns) name = bytes_eq n name

unfoldable pub answer : {A : Type 0} → Result (A × Reader.Reader) → Result A
answer (ok (a, r)) = ok a
answer (err e) = err e

unfoldable pub init_blob : Read Bytes
init_blob = do _ ← u8; string

unfoldable pub read_init : Bytes → Result Bytes
read_init payload = answer (init_blob (Reader.new payload))

-- The host key blob, `Q_S` and the signature.
unfoldable pub reply_parts : Read (Bytes × Bytes × Bytes)
reply_parts = do
  _ ← u8
  host_blob ← string
  q_s ← string
  signature ← string
  pure (host_blob, q_s, signature)

unfoldable pub read_reply : Bytes → Result (Bytes × Bytes × Bytes)
read_reply payload = answer (reply_parts (Reader.new payload))

-- `r.utf8().unwrap_or("")`
unfoldable pub description_or_empty : Read Bytes
description_or_empty r = elim (utf8 r) [ ok x ↦ ok x | err e ↦ ok ([], r) ]

unfoldable pub disconnect_parts : Read (ℕ × Bytes)
disconnect_parts = do
  _ ← u8
  reason ← u32
  description ← description_or_empty
  pure (reason, description)

unfoldable pub read_disconnect : Bytes → Result (ℕ × Bytes)
read_disconnect payload = answer (disconnect_parts (Reader.new payload))

unfoldable pub init_message : Bytes → Bytes
init_message blob =
    Writer.into_bytes (Writer.new ▸ Writer.u8 Msg.kex_ecdh_init ▸ Writer.string blob)

unfoldable pub reply_message : Bytes → Bytes → Bytes → Bytes
reply_message host_blob q_s signature = Writer.into_bytes (
    Writer.new
    ▸ Writer.u8 Msg.kex_ecdh_reply
    ▸ Writer.string host_blob
    ▸ Writer.string q_s
    ▸ Writer.string signature)
