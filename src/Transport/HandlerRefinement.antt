-- ===== src/Transport/HandlerRefinement.antt =====
-- The handlers of key exchange messages move the machine of Epochs by its steps.
use ssh_bench.Common.{◌≡◌, refl, Bool, true, false, Bytes, Option, none, some, if◌then◌else◌, subst}
use ssh_bench.Error.{Result, ok, err, protocol}
use ssh_bench.Action.{
  Action, bind_result, Keeps, bind-Keeps, then-Keeps, lift-Keeps, state-Keeps, modify-Keeps, lift,
  state, modify, ◌>>=◌, ◌>>◌,
}
use ssh_bench.Kdf.{KexHash, SharedSecret}
use ssh_bench.Algo.KexInit.{KexInit}
use ssh_bench.Algo.Negotiate.{Negotiated, contains}
use ssh_bench.Transport.Event.{Event}
use ssh_bench.Transport.Policy.{is_server}
use ssh_bench.Transport.State.{Crates, PendingKeys, emit}
use ssh_bench.Transport.Send.{T}
use ssh_bench.Transport.Staging.{required}
use ssh_bench.Transport.KeyExchange.{
  maybe_complete_kex, send_newkeys, switch_in, on_newkeys, finish_kex, draw, answer_init, skip_or,
  on_ecdh_init, accept_reply, on_ecdh_reply, send_init, latch, agree_kexinit, peer_rekey,
  on_peer_kexinit, peer_marker,
}
use ssh_bench.Transport.Epochs.{Core, Step, Steps, stay, further, core, is_sealed, staged_out}
use ssh_bench.Transport.Epochs
use ssh_bench.Transport.Refinement.{
  pick_result-From, write_packet-From, begin_rekey_round-From, disconnect-From,
}
use ssh_bench.Transport.KexRefinement.{
  F, Low, Finished, finish_kex-Finished, send_newkeys-From, maybe_complete_kex-From,
}

module _ (C : Crates) (io : Bool) (c : Core) where
  finish_send-Keeps :
      Low C io c
      → (h : Bytes) (k : SharedSecret) (hash : KexHash)
      → Keeps (F C io c) (finish_kex C h k hash >> modify (send_newkeys C))
  unfolding ◌>>◌ modify Finished
  finish_send-Keeps low h k hash = record {
    keeps = λ t f. go (finish_kex C h k hash t) (finish_kex-Finished C io c h k hash t f);
  }
    where
      go :
          (x : Result (Unit {0}) × T C)
          → Finished C io c x
          → F C io c (bind_result x (λ _. modify (send_newkeys C))).1
      go (ok u, t) (f, staged) = send_newkeys-From C io c low t staged f
      go (err e, t) f = f

  draw-Keeps : {A : Type 0} (f : C.rng.State → Result A × C.rng.State) → Keeps (F C io c) (draw C f)
  unfolding draw
  draw-Keeps f = record { keeps = λ t h. h }

  pub emit-Keeps : (e : Event C.ed25519) → Keeps (F C io c) (emit C e)
  unfolding emit
  emit-Keeps e = record { keeps = λ t h. h }

  answer_init-Keeps : Low C io c → (payload : Bytes) → Keeps (F C io c) (answer_init C payload)
  unfolding answer_init
  answer_init-Keeps low payload = bind-Keeps (lift-Keeps _) λ q_c. bind-Keeps state-Keeps λ t.
      bind-Keeps (lift-Keeps _) λ host_key. bind-Keeps (draw-Keeps _) λ x.
        bind-Keeps (lift-Keeps _) λ h.
          then-Keeps (modify-Keeps _ (λ u. write_packet-From C io c _ u))
            (finish_send-Keeps low _ _ _)

  accept_reply-Keeps : Low C io c → (payload : Bytes) → Keeps (F C io c) (accept_reply C payload)
  unfolding accept_reply
  accept_reply-Keeps low payload = bind-Keeps (lift-Keeps _) λ r. bind-Keeps state-Keeps λ t.
      then-Keeps (modify-Keeps _ (λ u h. h)) (
        bind-Keeps (lift-Keeps _) λ eph. bind-Keeps (lift-Keeps _) λ x.
          bind-Keeps (lift-Keeps _) λ h. bind-Keeps (lift-Keeps _) λ host_pub.
            then-Keeps (lift-Keeps _) (then-Keeps (emit-Keeps _) (finish_send-Keeps low _ _ _)))

  skip_or-Keeps :
      (m : Action (T C) (Unit {0})) → Keeps (F C io c) m → Keeps (F C io c) (skip_or C m)
  unfolding skip_or
  skip_or-Keeps m hm = record {
    keeps = λ t h. pick_result-From C io c t.skip_guess _ _ h (hm.keeps t h);
  }

  pub on_ecdh_init-Keeps :
      Low C io c → (payload : Bytes) → Keeps (F C io c) (on_ecdh_init C payload)
  unfolding on_ecdh_init
  on_ecdh_init-Keeps low payload = skip_or-Keeps _ (answer_init-Keeps low payload)

  pub on_ecdh_reply-Keeps :
      Low C io c → (payload : Bytes) → Keeps (F C io c) (on_ecdh_reply C payload)
  unfolding on_ecdh_reply
  on_ecdh_reply-Keeps low payload = skip_or-Keeps _ (accept_reply-Keeps low payload)

  switch_in-From :
      (p : PendingKeys C) (t : T C) → t.pending ≡ some p → F C io c t → F C io c (switch_in C p t)
  unfolding switch_in staged_out
  switch_in-From p t e h =
      subst
        (λ o. Steps io c (record (core C t) {
          rx_seq = if t.strict_kex then 0 else t.rx_seq;
          recv_newkeys = true;
          pending = staged_out C o;
        }))
        e (further h (Epochs.switch_in (core C t)))

  pub on_newkeys-Keeps : Low C io c → Keeps (F C io c) (on_newkeys C)
  unfolding on_newkeys ◌>>=◌ state lift modify required
  on_newkeys-Keeps low = record { keeps = λ t h. go t h t.pending refl }
    where
      go :
          (t : T C)
          → F C io c t
          → (o : Option (PendingKeys C)) → t.pending ≡ o
          → F C io c
              ((lift (required (protocol "NEWKEYS before key exchange") o) >>= λ p.
                  modify (λ u. maybe_complete_kex C (switch_in C p u)))
                t).1
      go t h none e = h
      go t h (some p) e =
          maybe_complete_kex-From C io c low (switch_in C p t) (switch_in-From p t e h)

  send_init-From : (t : T C) → F C io c t → F C io c (send_init C t)
  unfolding send_init
  send_init-From t h = write_packet-From C io c _ _ h

  latch-From :
      (peer : KexInit) (n : Negotiated) (t : T C) → F C io c t → F C io c (latch C peer n t)
  unfolding latch
  latch-From peer n t h = go t.initial_kex_done refl
    where
      go :
          (b : Bool)
          → t.initial_kex_done ≡ b
          → F C io c (record t {
            strict_kex = if b then t.strict_kex else contains peer.kex (peer_marker C t.role);
          })
      go true e = h
      go false e = further h (Epochs.latch (core C t) _ e)

  agree_kexinit-Keeps : (payload : Bytes) → Keeps (F C io c) (agree_kexinit C payload)
  unfolding agree_kexinit
  agree_kexinit-Keeps payload = bind-Keeps (lift-Keeps _) λ peer. bind-Keeps state-Keeps λ t.
      bind-Keeps (lift-Keeps _) λ ours. bind-Keeps (lift-Keeps _) λ n.
        then-Keeps (modify-Keeps _ (latch-From peer n)) (modify-Keeps _ (go (is_server t.role)))
    where
      go : (b : Bool) (u : T C) → F C io c u → F C io c ((if b then (λ v. v) else send_init C) u)
      go true u h = h
      go false u h = send_init-From u h

  peer_rekey-Keeps : (payload : Bytes) → Keeps (F C io c) (peer_rekey C payload)
  unfolding peer_rekey
  peer_rekey-Keeps payload = record {
    keeps = λ t h.
        pick_result-From C io c _ _ _ (disconnect-From C io c _ _ _ h)
          ((agree_kexinit-Keeps payload).keeps _ (begin_rekey_round-From C io c _ h));
  }

  pub on_peer_kexinit-Keeps : (payload : Bytes) → Keeps (F C io c) (on_peer_kexinit C payload)
  unfolding on_peer_kexinit
  on_peer_kexinit-Keeps payload = record {
    keeps = λ t h.
        pick_result-From C io c _ _ _ ((peer_rekey-Keeps payload).keeps t h)
          ((agree_kexinit-Keeps payload).keeps t h);
  }
