-- ===== src/Transport/Completion.antt =====
-- The client's completion of an exchange, and the keys that are staged behind it.
use ssh_bench.Common.{◌≡◌, refl, ◌∙◌, [], ◌∷◌, ◌++◌, Bytes, none, some}
use ssh_bench.Error.{SshError, Result, ok, err, protocol}
use ssh_bench.Error
use ssh_bench.Action.{bind-ok, then-ok, lift-ok, state, modify}
use ssh_bench.Kdf.{KexHash, SharedSecret, exchange_hash}
use ssh_bench.Algo.KexInit.{KexInit}
use ssh_bench.Algo.Negotiate.{Negotiated}
use ssh_bench.Hostkey.{HostPublicKey, parse_blob, verify}
use ssh_bench.Transport.Event.{server_host_key}
use ssh_bench.Transport.Policy.{Role, KexKind, hash_of, shared_secret}
use ssh_bench.Transport.State.{Crates, PendingKeys, KexEphemeral, emit}
use ssh_bench.Transport.Send.{T}
use ssh_bench.Transport.Messages.{read_reply}
use ssh_bench.Transport.Staging.{complete, hash_input_of, compute_exchange_hash, staged}
use ssh_bench.Transport.KeyExchange.{send_newkeys, session_or, stage, accept_reply}
use ssh_bench.Transport.Handshake.{required-some, finished, close_exchange-ok}

module _ (C : Crates) where
  -- The client's completion, when nothing in it fails.
  pub accept_reply-ok :
      (payload hb q_s sig q_c shared h : Bytes) (kind : KexKind) (t : T C) (eph : KexEphemeral C)
      (pub_key : HostPublicKey C.ed25519) (n : Negotiated) (p : PendingKeys C)
      → read_reply payload ≡ ok (hb, q_s, sig)
      → t.kex_eph ≡ some eph
      → complete C eph q_s ≡ ok (q_c, shared, kind)
      → compute_exchange_hash C t q_c q_s hb (shared_secret kind shared) (hash_of kind) ≡ ok h
      → parse_blob C.ed25519 hb ≡ ok pub_key
      → verify C.ed25519 pub_key h sig ≡ ok tt
      → t.negotiated ≡ some n
      → staged C t.role n.cipher_c2s h
          (shared_secret kind shared)
          (session_or C t.session_id h)
          (hash_of kind)
        ≡ ok p
      → accept_reply C payload t ≡ (
        ok tt,
        send_newkeys C (
            finished C
              (record t { kex_eph = none; events = t.events ++ (server_host_key pub_key ∷ []) })
              h
              n
              p),
      )
  unfolding accept_reply state modify emit
  accept_reply-ok payload hb q_s sig q_c shared h kind t eph pub_key n p er ee ec eh ek ev en ep =
      bind-ok _ _ _ _ _ (lift-ok _ t (hb, q_s, sig) er)
      ∙ bind-ok _ _ _ _ _ refl
      ∙ then-ok _ _ _ _ refl
      ∙ bind-ok _ _ _ _ _ (lift-ok _ _ eph (required-some C _ t.kex_eph eph ee))
      ∙ bind-ok _ _ _ _ _ (lift-ok _ _ (q_c, shared, kind) ec)
      ∙ bind-ok _ _ _ _ _ (lift-ok _ _ h eh)
      ∙ bind-ok _ _ _ _ _ (lift-ok _ _ pub_key ek)
      ∙ then-ok _ _ _ _ (lift-ok _ _ tt ev)
      ∙ then-ok _ _ _ _ refl
      ∙ close_exchange-ok C h _ _ t _ n p
          (record {
            role = refl;
            negotiated = refl;
            session_id = refl;
            pending = refl;
            recv_newkeys = refl;
          })
          en ep

  pub compute_exchange_hash-ok :
      (t : T C) (peer_id : Bytes) (peer : KexInit) (q_c q_s hb : Bytes) (k : SharedSecret)
      (hash : KexHash)
      → t.peer_id ≡ some peer_id
      → t.peer_kexinit ≡ some peer
      → compute_exchange_hash C t q_c q_s hb k hash
        ≡ ok (exchange_hash C.sha2 (hash_input_of C t peer_id peer q_c q_s hb k) hash)
  unfolding compute_exchange_hash Error.◌>>=◌
  compute_exchange_hash-ok t peer_id peer q_c q_s hb k hash ei ek =
      rw
        (
          required-some C (protocol "missing peer id") t.peer_id peer_id ei,
          required-some C (protocol "missing peer kexinit") t.peer_kexinit peer ek,
        )
        refl

  stage-fields :
      (r : Role) (n : Negotiated) (p : PendingKeys C) (v : T C)
      → ((stage C r n p v).pending ≡ some p) × ((stage C r n p v).recv_newkeys ≡ v.recv_newkeys)
  unfolding stage
  stage-fields Role.client n p v = (refl, refl)
  stage-fields Role.server n p v = (refl, refl)

  pub finished-fields :
      (v : T C) (h : Bytes) (n : Negotiated) (p : PendingKeys C)
      → ((finished C v h n p).pending ≡ some p)
        × ((finished C v h n p).recv_newkeys ≡ v.recv_newkeys)
  unfolding finished
  finished-fields v h n p =
      stage-fields v.role n p (record v { session_id = some (session_or C v.session_id h) })
