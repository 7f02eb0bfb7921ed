-- ===== src/Transport/Handshake.antt =====
-- KEX_ECDH_INIT at the server and KEX_ECDH_REPLY at the client, put together.
use ssh_bench.Common.{
  ◌≡◌, refl, sym, ap, ◌∙◌, subst, Bool, true, false, ◌&&◌, [], ◌∷◌, Bytes, Option, none, some,
  if◌then◌else◌,
}
use ssh_bench.Msg
use ssh_bench.Error.{SshError, ok}
use ssh_bench.Action.{bind-ok, then-ok, lift-ok, ◌>>=◌, ◌>>◌, lift, state, modify}
use ssh_bench.Kdf.{KexHash, SharedSecret}
use ssh_bench.Cipher.{Cipher}
use ssh_bench.Algo.Negotiate.{Negotiated}
use ssh_bench.Hostkey.{HostKey, key_blob, sign_exchange_hash}
use ssh_bench.Transport.Policy.{hash_of, shared_secret}
use ssh_bench.Transport.State.{Crates, PendingKeys}
use ssh_bench.Transport.Send.{T, seal_packet, after_send, activate_compression, write_packet}
use ssh_bench.Transport.Messages.{read_init, reply_message}
use ssh_bench.Transport.Staging.{required, kex_kind, respond, compute_exchange_hash, staged}
use ssh_bench.Transport.KeyExchange.{
  maybe_complete_kex, complete_kex, take_out, switch_out, send_newkeys, session_or, stage,
  finish_kex, draw, answer_init,
}

module _ (C : Crates) where
  -- What a write leaves of what the key exchange reads.
  pub record SameExchange (t u : T C) : Type 0 where
    pub role : t.role ≡ u.role
    pub negotiated : t.negotiated ≡ u.negotiated
    pub session_id : t.session_id ≡ u.session_id
    pub pending : t.pending ≡ u.pending
    pub recv_newkeys : t.recv_newkeys ≡ u.recv_newkeys

  after_send-same : (p : Bytes) (t : T C) → SameExchange (after_send C p t) t
  unfolding after_send activate_compression
  after_send-same p t = go _
    where
      go : (b : Bool) → SameExchange (if b then activate_compression C t else t) t
      go true = record {
        role = refl;
        negotiated = refl;
        session_id = refl;
        pending = refl;
        recv_newkeys = refl;
      }
      go false = record {
        role = refl;
        negotiated = refl;
        session_id = refl;
        pending = refl;
        recv_newkeys = refl;
      }

  pub write_packet-same : (p : Bytes) (t : T C) → SameExchange (write_packet C p t) t
  unfolding write_packet seal_packet
  write_packet-same p t = go t.closing
    where
      go : (b : Bool) → SameExchange (if b then t else after_send C p (seal_packet C p t)) t
      go true = record {
        role = refl;
        negotiated = refl;
        session_id = refl;
        pending = refl;
        recv_newkeys = refl;
      }
      go false =
          let s = after_send-same p (seal_packet C p t) in
          record {
            role = s.role;
            negotiated = s.negotiated;
            session_id = s.session_id;
            pending = s.pending;
            recv_newkeys = s.recv_newkeys;
          }

  Switched : PendingKeys C → T C → T C → Type 0
  Switched p u w =
      (u.cipher_out ≡ p.out)
      × (u.pending ≡ some (record { out = Cipher.plain; inn = p.inn }))
      × (u.recv_newkeys ≡ w.recv_newkeys)

  take_out-some :
      (p : PendingKeys C) (w : T C) (o : Option (PendingKeys C))
      → o ≡ some p
      → Switched p (take_out C o w) w
  unfolding Switched take_out
  take_out-some p w o e =
      subst
        (λ q.
          ((take_out C q w).cipher_out ≡ p.out)
          × ((take_out C q w).pending ≡ some (record { out = Cipher.plain; inn = p.inn }))
          × ((take_out C q w).recv_newkeys ≡ w.recv_newkeys))
        (sym e) (refl, refl, refl)

  switch_out-some :
      (p : PendingKeys C) (w : T C) → w.pending ≡ some p → Switched p (switch_out C w) w
  unfolding switch_out Switched
  switch_out-some p w e = take_out-some p w w.pending e

  maybe_complete_kex-waits : (w : T C) → w.recv_newkeys ≡ false → maybe_complete_kex C w ≡ w
  unfolding maybe_complete_kex
  maybe_complete_kex-waits w e = go w.sent_newkeys w.recv_newkeys e
    where
      go : (a b : Bool) → b ≡ false → (if a && b then complete_kex C w else w) ≡ w
      go true true e = cc
      go true false e = refl
      go false b e = refl

  -- Our NEWKEYS puts the staged cipher in place, and leaves the other staged.
  pub send_newkeys-switched :
      (t : T C) (p : PendingKeys C)
      → t.pending ≡ some p
      → t.recv_newkeys ≡ false
      → ((send_newkeys C t).cipher_out ≡ p.out)
        × ((send_newkeys C t).pending ≡ some (record { out = Cipher.plain; inn = p.inn }))
  unfolding send_newkeys Switched
  send_newkeys-switched t p ep er =
      let w = write_packet C (Msg.newkeys ∷ []) t in
      let s = write_packet-same (Msg.newkeys ∷ []) t in
      let (out, staged_in, recv) = switch_out-some p w (s.pending ∙ ep) in
      let e = maybe_complete_kex-waits (switch_out C w) (recv ∙ s.recv_newkeys ∙ er) in
      (ap (λ u. u.cipher_out) e ∙ out, ap (λ u. u.pending) e ∙ staged_in)

  -- `finish_kex` with keys that can be staged.
  finish_kex-staged :
      (h : Bytes) (k : SharedSecret) (hash : KexHash) (t : T C) (n : Negotiated) (p : PendingKeys C)
      → t.negotiated ≡ some n
      → staged C t.role n.cipher_c2s h k (session_or C t.session_id h) hash ≡ ok p
      → finish_kex C h k hash t
        ≡ (ok tt, stage C t.role n p (record t { session_id = some (session_or C t.session_id h) }))
  unfolding finish_kex ◌>>=◌ ◌>>◌ lift modify state required session_or
  finish_kex-staged h k hash t n p en ep = rw (en, ep) refl

  pub required-some {ℓ} :
      {A : Type ℓ} (e : SshError) (o : Option A) (a : A) → o ≡ some a → required e o ≡ ok a
  unfolding required
  required-some e none a h = cc
  required-some e (some b) a h = cc

  -- The state behind `finish_kex`.
  unfoldable pub finished : T C → Bytes → Negotiated → PendingKeys C → T C
  finished v h n p =
      stage C v.role n p (record v { session_id = some (session_or C v.session_id h) })

  -- `finish_kex` and NEWKEYS, on a state that a write or an event led to.
  pub close_exchange-ok :
      (h : Bytes) (k : SharedSecret) (hash : KexHash) (u v : T C) (n : Negotiated)
      (p : PendingKeys C)
      → SameExchange v u
      → u.negotiated ≡ some n
      → staged C u.role n.cipher_c2s h k (session_or C u.session_id h) hash ≡ ok p
      → (finish_kex C h k hash >> modify (send_newkeys C)) v
        ≡ (ok tt, send_newkeys C (finished v h n p))
  unfolding modify finished
  close_exchange-ok h k hash u v n p s en ep =
      let ep' : staged C v.role n.cipher_c2s h k (session_or C v.session_id h) hash ≡ ok p =
        rw (s.role, s.session_id) ep in
      then-ok _ _ _ _ (finish_kex-staged h k hash v n p (s.negotiated ∙ en) ep')

  -- The server's answer, when nothing in it fails: the reply is written, the keys are staged, and
  -- our NEWKEYS is sent.
  pub answer_init-ok :
      (payload q_c q_s shared h : Bytes) (u : T C) (rng : C.rng.State) (hk : HostKey C.ed25519)
      (n : Negotiated) (p : PendingKeys C)
      → read_init payload ≡ ok q_c
      → u.host_key ≡ some hk
      → respond C (kex_kind C u) q_c u.rng ≡ (ok (q_s, shared), rng)
      → compute_exchange_hash C u q_c q_s
          (key_blob C.ed25519 hk)
          (shared_secret (kex_kind C u) shared)
          (hash_of (kex_kind C u))
        ≡ ok h
      → u.negotiated ≡ some n
      → staged C u.role n.cipher_c2s h
          (shared_secret (kex_kind C u) shared)
          (session_or C u.session_id h)
          (hash_of (kex_kind C u))
        ≡ ok p
      → answer_init C payload u ≡ (
        ok tt,
        send_newkeys C (
            finished
              (write_packet C
                (reply_message (key_blob C.ed25519 hk) q_s (sign_exchange_hash C.ed25519 hk h))
                (record u { rng = rng }))
              h
              n
              p),
      )
  unfolding answer_init draw state modify
  answer_init-ok payload q_c q_s shared h u rng hk n p er ek ex eh en ep =
      bind-ok _ _ _ _ _ (lift-ok _ u q_c er)
      ∙ bind-ok _ _ _ _ _ refl
      ∙ bind-ok _ _ _ _ _ (lift-ok _ u hk (required-some _ u.host_key hk ek))
      ∙ bind-ok _ _ _ _ _ (ap (λ x. (x.0, record u { rng = x.1 })) ex)
      ∙ bind-ok _ _ _ _ _ (lift-ok _ _ h eh)
      ∙ then-ok _ _ _ _ refl
      ∙ close_exchange-ok h _ _ u _ n p (from_draw _ (write_packet-same _ (record u { rng = rng })))
          en ep
    where
      from_draw : (v : T C) → SameExchange v (record u { rng = rng }) → SameExchange v u
      from_draw v s = record {
        role = s.role;
        negotiated = s.negotiated;
        session_id = s.session_id;
        pending = s.pending;
        recv_newkeys = s.recv_newkeys;
      }
