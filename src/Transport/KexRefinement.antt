-- ===== src/Transport/KexRefinement.antt =====
-- The key exchange of `Transport` moves the machine of Epochs by its steps.
use ssh_bench.Common.{
  ◌<◌, ◌≡◌, refl, Bool, true, false, List, [], ◌∷◌, ◌++◌, Bytes, Option, none, some, if◌then◌else◌,
  ◌&&◌, subst, ap, ◌∙◌,
}
use ssh_bench.Msg
use ssh_bench.Error.{Result, ok, err, protocol}
use ssh_bench.Action.{
  Action, Keeps, bind-Keeps, then-Keeps, done-Keeps, lift-Keeps, state-Keeps, modify-Keeps, lift,
  state, ◌>>=◌, ◌>>◌, modify,
}
use ssh_bench.Action
use ssh_bench.Kdf.{KexHash, SharedSecret}
use ssh_bench.Algo.Negotiate.{Negotiated}
use ssh_bench.Compress.{new_compressor}
use ssh_bench.Transport.Event.{Event}
use ssh_bench.Transport.Policy.{Role, established, epoch_hard_packets}
use ssh_bench.Transport.State.{Crates, PendingKeys}
use ssh_bench.Transport.Send.{T, seal_packet, after_send, activate_compression, write_packet}
use ssh_bench.Transport.Staging.{required, staged}
use ssh_bench.Transport.KeyExchange.{
  write_all, establish, reset_round, complete_kex, maybe_complete_kex, take_out, switch_out,
  send_newkeys, session_or, stage, finish_kex,
}
use ssh_bench.Transport.StagedKeys.{staged-sealed}
use ssh_bench.Transport.Epochs.{Core, Step, Steps, stay, further, core, is_sealed, staged_out}
use ssh_bench.Transport.Epochs
use ssh_bench.Transport.Refinement.{From, write_packet-From}

module _ (C : Crates) (io : Bool) (c : Core) where
  abbrev pub F : T C → Type 0
  F = From C io c

  -- The bound on the packets of an epoch holds wherever the steps lead.
  abbrev pub Low : Type 0
  Low = (t : T C) → F t → t.rx_packets_since_rekey < epoch_hard_packets

  write_all-From : (ps : List Bytes) (t : T C) → F t → F (write_all C ps t)
  unfolding write_all
  write_all-From [] t h = h
  write_all-From (p ∷ ps) t h = write_all-From ps _ (write_packet-From C io c p t h)

  complete_kex-From :
      Low → (t : T C) → t.sent_newkeys ≡ true → t.recv_newkeys ≡ true → F t → F (complete_kex C t)
  unfolding complete_kex reset_round establish staged_out
  complete_kex-From low t hs hr h = write_all-From t.tx_app_queue _ (go t.initial_kex_done refl)
    where
      go :
          (b : Bool)
          → t.initial_kex_done ≡ b
          → F (
              reset_round C (
                if b then record t { pending = none } else record t {
                  pending = none;
                  initial_kex_done = true;
                  phase = established;
                  events = t.events ++ (Event.established ∷ []);
                }))
      go true e = further h (Epochs.complete_again (core C t) hs hr e (low t h))
      go false e = further h (Epochs.complete_first (core C t) hs hr e (low t h))

  pub maybe_complete_kex-From : Low → (t : T C) → F t → F (maybe_complete_kex C t)
  unfolding maybe_complete_kex
  maybe_complete_kex-From low t h = go t.sent_newkeys t.recv_newkeys refl refl
    where
      go :
          (a b : Bool)
          → t.sent_newkeys ≡ a
          → t.recv_newkeys ≡ b
          → F (if a && b then complete_kex C t else t)
      go true true ea eb = complete_kex-From low t ea eb h
      go true false ea eb = h
      go false b ea eb = h

  -- A write leaves what is staged.
  after_send-pending : (p : Bytes) (t : T C) → (after_send C p t).pending ≡ t.pending
  unfolding after_send activate_compression
  after_send-pending p t = go _
    where
      go : (b : Bool) → (if b then activate_compression C t else t).pending ≡ t.pending
      go true = refl
      go false = refl

  write_packet-pending : (p : Bytes) (t : T C) → (write_packet C p t).pending ≡ t.pending
  unfolding write_packet seal_packet
  write_packet-pending p t = go t.closing
    where
      go : (b : Bool) → (if b then t else after_send C p (seal_packet C p t)).pending ≡ t.pending
      go true = refl
      go false = after_send-pending p (seal_packet C p t)

  -- The outbound switch, with what is staged as `o`.
  switched : Option (PendingKeys C) → T C → T C
  switched o t =
      let u = take_out C o t in
      record u {
        comp_out = if u.comp_active then new_compressor C.flate2 u.comp_out_name else u.comp_out;
        tx_seq = if u.strict_kex then 0 else u.tx_seq;
        sent_newkeys = true;
      }

  switched-From :
      (o : Option (PendingKeys C)) (t : T C)
      → t.pending ≡ o
      → staged_out C o ≡ some true
      → F t
      → F (switched o t)
  unfolding switched take_out staged_out is_sealed
  switched-From none t e q h = cc
  switched-From (some p) t e q h =
      let real : is_sealed p.out ≡ true = cc in
      let same : staged_out C t.pending ≡ some true = ap (staged_out C) e ∙ q in
      rw (real) (further h (Epochs.switch_out (core C t) same))

  pub send_newkeys-From :
      Low → (t : T C) → staged_out C t.pending ≡ some true → F t → F (send_newkeys C t)
  unfolding send_newkeys switch_out switched
  send_newkeys-From low t q h =
      let u = write_packet C (Msg.newkeys ∷ []) t in
      let e : u.pending ≡ t.pending = write_packet-pending (Msg.newkeys ∷ []) t in
      maybe_complete_kex-From low (switch_out C u) (
        switched-From u.pending u refl (ap (staged_out C) e ∙ q)
          (write_packet-From C io c (Msg.newkeys ∷ []) t h))

  -- What is known behind `finish_kex`: on success, real keys are staged.
  unfoldable pub Finished : Result (Unit {0}) × T C → Type 0
  Finished (ok u, t) = F t × (staged_out C t.pending ≡ some true)
  Finished (err e, t) = F t

  staged-Finished :
      (role : Role) (n : Negotiated) (r : Result (PendingKeys C)) (t : T C) (sid : Bytes)
      → ((p : PendingKeys C) → r ≡ ok p → is_sealed p.out ≡ true)
      → t.session_id ≡ some sid
      → F t
      → Finished ((lift r >>= λ p. modify (stage C role n p)) t)
  unfolding Action.◌>>=◌ lift modify stage staged_out Finished
  staged-Finished role n (err e) t sid hr hs h = h
  staged-Finished Role.client n (ok p) t sid hr hs h =
      rw (hr p refl) ((further h (Epochs.stage (core C t) sid hs), refl))
  staged-Finished Role.server n (ok p) t sid hr hs h =
      rw (hr p refl) ((further h (Epochs.stage (core C t) sid hs), refl))

  named-From :
      (h : Bytes) (t : T C) → F t → F (record t { session_id = some (session_or C t.session_id h) })
  unfolding session_or
  named-From h t f = go t.session_id refl
    where
      go :
          (o : Option Bytes)
          → t.session_id ≡ o
          → F (record t { session_id = some (session_or C o h) })
      go none e = further f (Epochs.name_session (core C t) h e)
      go (some s) e = subst (λ o. F (record t { session_id = o })) e f

  pub finish_kex-Finished :
      (h : Bytes) (k : SharedSecret) (hash : KexHash) (t : T C)
      → F t
      → Finished (finish_kex C h k hash t)
  unfolding finish_kex Action.◌>>=◌ Action.◌>>◌ lift modify state required Finished
  finish_kex-Finished h k hash t f = go t.negotiated
    where
      t1 : T C
      t1 = record t { session_id = some (session_or C t.session_id h) }

      go :
          (o : Option Negotiated)
          → Finished (
              (lift (required (protocol "unwrap on None") o) >>= λ n.
              lift (staged C t1.role n.cipher_c2s h k (session_or C t1.session_id h) hash) >>= λ p.
              modify (stage C t1.role n p))
                t1)
      go none = named-From h t f
      go (some n) =
          staged-Finished t1.role n _ t1 _
            (staged-sealed C t1.role n.cipher_c2s h k (session_or C t1.session_id h) hash) refl
            (named-From h t f)
