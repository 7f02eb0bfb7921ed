-- ===== src/Transport/MessageTrips.antt =====
-- The key exchange messages of transport.rs are read back as they were written.
use ssh_bench.Common.{
  ◌^◌, ◌<◌, ◌≡◌, ap, ◌∙◌, subst, [], ◌∷◌, ◌++◌, Bytes, length, append_assoc, append-nil,
}
use ssh_bench.Msg
use ssh_bench.Error.{ok}
use ssh_bench.Wire.Reader.{Reader, usize_mod}
use ssh_bench.Wire.Reader
use ssh_bench.Wire.Writer
use ssh_bench.Wire.Parsing.{Parses, Parses-new, bind-Parses, pure-Parses}
use ssh_bench.Wire.RoundTrip.{string_bytes, u8-Parses, string-Parses, u8-buf, string-buf, new-buf}
use ssh_bench.Transport.Messages.{
  answer, init_blob, read_init, reply_parts, read_reply, init_message, reply_message,
}

init_message-bytes :
    (blob : Bytes)
    → length blob < 2 ^ 32
    → init_message blob ≡ (Msg.kex_ecdh_init ∷ []) ++ string_bytes blob
unfolding init_message Writer.into_bytes
init_message-bytes blob h = simp (string-buf, h, u8-buf, new-buf, append_assoc)

init_blob-Parses :
    (blob : Bytes)
    → length blob < 2 ^ 32
    → Parses init_blob ((Msg.kex_ecdh_init ∷ []) ++ string_bytes blob) blob
unfolding init_blob
init_blob-Parses blob h =
    bind-Parses _ _ _ _ _ _ (u8-Parses Msg.kex_ecdh_init) (string-Parses blob h)

pub read_init-init_message :
    (blob : Bytes)
    → length blob < 2 ^ 32
    → length (init_message blob) < usize_mod
    → read_init (init_message blob) ≡ ok blob
unfolding read_init answer
read_init-init_message blob h size =
    let e = init_message-bytes blob h in
    let (r, parsed, _, _) =
      Parses-new _ _ _ (init_blob-Parses blob h) (subst (λ t. length t < usize_mod) e size) in
    ap (λ t. answer (init_blob (Reader.new t))) e ∙ ap answer parsed

reply_bytes : Bytes → Bytes → Bytes → Bytes
reply_bytes a b c =
    (Msg.kex_ecdh_reply ∷ []) ++ (string_bytes a ++ (string_bytes b ++ (string_bytes c ++ [])))

reply_message-bytes :
    (a b c : Bytes)
    → length a < 2 ^ 32
    → length b < 2 ^ 32
    → length c < 2 ^ 32
    → reply_message a b c ≡ reply_bytes a b c
unfolding reply_message reply_bytes Writer.into_bytes
reply_message-bytes a b c ha hb hc =
    simp (string-buf, ha, hb, hc, u8-buf, new-buf, append_assoc, append-nil)

reply_parts-Parses :
    (a b c : Bytes)
    → length a < 2 ^ 32
    → length b < 2 ^ 32
    → length c < 2 ^ 32
    → Parses reply_parts (reply_bytes a b c) (a, b, c)
unfolding reply_parts reply_bytes
reply_parts-Parses a b c ha hb hc = bind-Parses _ _ _ _ _ _ (u8-Parses Msg.kex_ecdh_reply) (
    bind-Parses _ _ _ _ _ _ (string-Parses a ha) (
      bind-Parses _ _ _ _ _ _ (string-Parses b hb)
        (bind-Parses _ _ _ _ _ _ (string-Parses c hc) (pure-Parses (a, b, c)))))

pub read_reply-reply_message :
    (a b c : Bytes)
    → length a < 2 ^ 32
    → length b < 2 ^ 32
    → length c < 2 ^ 32
    → length (reply_message a b c) < usize_mod
    → read_reply (reply_message a b c) ≡ ok (a, b, c)
unfolding read_reply answer
read_reply-reply_message a b c ha hb hc size =
    let e = reply_message-bytes a b c ha hb hc in
    let (r, parsed, _, _) =
      Parses-new _ _ _ (reply_parts-Parses a b c ha hb hc)
        (subst (λ t. length t < usize_mod) e size) in
    ap (λ t. answer (reply_parts (Reader.new t))) e ∙ ap answer parsed
