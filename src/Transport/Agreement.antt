-- ===== src/Transport/Agreement.antt =====
-- A client and a server that are in the same exchange end it with the same keys.
use ssh_bench.Common.{
  ℕ, ◌^◌, ◌<◌, ◌≡◌, refl, sym, ap, ◌∙◌, false, [], ◌∷◌, ◌++◌, Bytes, none, some, length,
}
use ssh_bench.Error.{Result, ok}
use ssh_bench.Wire.Reader.{usize_mod}
use ssh_bench.Kdf.{KexHash, SharedSecret, ExchangeHashInput, exchange_hash}
use ssh_bench.Cipher.{Cipher, key_len, iv_len}
use ssh_bench.Algo.KexInit.{KexInit}
use ssh_bench.Algo.Negotiate.{Negotiated}
use ssh_bench.Hostkey.{HostKey, key_blob, sign_exchange_hash, public}
use ssh_bench.Hostkey.Signing.{verify-sign_exchange_hash}
use ssh_bench.Transport.Event.{server_host_key}
use ssh_bench.Transport.Policy.{Role, hash_of, shared_secret}
use ssh_bench.Transport.State.{Crates, PendingKeys}
use ssh_bench.Transport.Send.{T, write_packet}
use ssh_bench.Transport.Messages.{init_message, reply_message}
use ssh_bench.Transport.Staging.{
  required, kex_kind, kind_or_classical, ephemeral, respond, complete, hash_input_of,
  compute_exchange_hash, staged,
}
use ssh_bench.Transport.Staging
use ssh_bench.Transport.KeyExchange.{send_newkeys, session_or, answer_init, accept_reply}
use ssh_bench.Transport.MessageTrips.{read_init-init_message, read_reply-reply_message}
use ssh_bench.Transport.MirroredKeys.{IsCrates, complete-respond, staged-mirrored}
use ssh_bench.Transport.Completion.{accept_reply-ok, compute_exchange_hash-ok, finished-fields}
use ssh_bench.Transport.Handshake.{
  finished, answer_init-ok, send_newkeys-switched, write_packet-same,
}

module _ (C : Crates) where
  -- A client `t` that has sent its blob from the generator's state `s`, and a server `u`: each
  -- knows the other's identification and KEXINIT, they negotiated the same and have the same
  -- session, and neither has had the other's NEWKEYS.
  pub record Mirrored (t u : T C) (s : C.rng.State) (n : Negotiated) (hk : HostKey C.ed25519)
      : Type 0 where
    pub client : t.role ≡ Role.client
    pub server : u.role ≡ Role.server
    pub server_id : t.peer_id ≡ some u.local_id
    pub client_id : u.peer_id ≡ some t.local_id
    pub server_kexinit : KexInit
    pub client_kexinit : KexInit
    pub at_client : t.peer_kexinit ≡ some server_kexinit
    pub at_server : u.peer_kexinit ≡ some client_kexinit
    pub sent_by_server : server_kexinit.payload ≡ u.local_kexinit
    pub sent_by_client : client_kexinit.payload ≡ t.local_kexinit
    pub negotiated_client : t.negotiated ≡ some n
    pub negotiated_server : u.negotiated ≡ some n
    pub session : t.session_id ≡ u.session_id
    pub host_key : u.host_key ≡ some hk
    pub ephemeral : t.kex_eph ≡ some (ephemeral C (kex_kind C t) s).0.1
    pub client_waits : t.recv_newkeys ≡ false
    pub server_waits : u.recv_newkeys ≡ false

  module _ (t u : T C) (s : C.rng.State) (n : Negotiated) (hk : HostKey C.ed25519)
      (m : Mirrored t u s n hk) where
    same_kind : kex_kind C u ≡ kex_kind C t
    unfolding kex_kind
    same_kind = ap (kind_or_classical C) (m.negotiated_server ∙ sym m.negotiated_client)

    -- Both hash the same.
    module _ (q_c q_s hb : Bytes) (k : SharedSecret) where
      unfoldable pub transcript : ExchangeHashInput
      transcript = record {
        client_id = t.local_id;
        server_id = u.local_id;
        client_kexinit = t.local_kexinit;
        server_kexinit = u.local_kexinit;
        host_key_blob = hb;
        client_ephemeral = q_c;
        server_ephemeral = q_s;
        shared_secret = k;
      }

      at_client-transcript : hash_input_of C t u.local_id m.server_kexinit q_c q_s hb k ≡ transcript
      unfolding hash_input_of transcript
      at_client-transcript = rw (m.client, m.sent_by_server) refl

      at_server-transcript : hash_input_of C u t.local_id m.client_kexinit q_c q_s hb k ≡ transcript
      unfolding hash_input_of transcript
      at_server-transcript = rw (m.server, m.sent_by_client) refl

      client_hash :
          (hash : KexHash)
          → compute_exchange_hash C t q_c q_s hb k hash ≡ ok (exchange_hash C.sha2 transcript hash)
      client_hash hash =
          compute_exchange_hash-ok C t u.local_id m.server_kexinit q_c q_s hb k hash m.server_id
            m.at_client
          ∙ ap (λ i. ok (exchange_hash C.sha2 i hash)) at_client-transcript

      server_hash :
          (hash : KexHash)
          → compute_exchange_hash C u q_c q_s hb k hash ≡ ok (exchange_hash C.sha2 transcript hash)
      server_hash hash =
          compute_exchange_hash-ok C u t.local_id m.client_kexinit q_c q_s hb k hash m.client_id
            m.at_server
          ∙ ap (λ i. ok (exchange_hash C.sha2 i hash)) at_server-transcript

    -- The client's blob, and what the two sides make of the server's `q_s` and the shared bytes.
    abbrev pub blob : Bytes
    blob = (Staging.ephemeral C (kex_kind C t) s).0.0

    module _ (q_s shared : Bytes) where
      abbrev pub secret : SharedSecret
      secret = shared_secret (kex_kind C t) shared

      abbrev pub agreed_hash : Bytes
      agreed_hash =
          exchange_hash C.sha2 (transcript blob q_s (key_blob C.ed25519 hk) secret)
            (hash_of (kex_kind C t))

      abbrev pub reply : Bytes
      reply =
          reply_message (key_blob C.ed25519 hk) q_s (sign_exchange_hash C.ed25519 hk agreed_hash)

      -- The messages fit the wire format.
      pub record MessagesFit : Type 0 where
        pub blob_fits : length blob < 2 ^ 32
        pub init_fits : length (init_message blob) < usize_mod
        pub key_fits : length (key_blob C.ed25519 hk) < 2 ^ 32
        pub q_s_fits : length q_s < 2 ^ 32
        pub signature_fits : length (sign_exchange_hash C.ed25519 hk agreed_hash) < 2 ^ 32
        pub reply_fits : length reply < usize_mod

      switched_after :
          (v : T C) (h : Bytes) (p : PendingKeys C)
          → v.recv_newkeys ≡ false
          → ((send_newkeys C (finished C v h n p)).cipher_out ≡ p.out)
            × ((send_newkeys C (finished C v h n p)).pending
                ≡ some (record { out = Cipher.plain; inn = p.inn }))
      switched_after v h p e =
          let f = finished-fields C v h n p in
          send_newkeys-switched C (finished C v h n p) p f.0 (f.1 ∙ e)

      -- The ciphers that a side stages.
      abbrev staged_by : Role → Result (PendingKeys C)
      staged_by role =
          staged C role n.cipher_c2s agreed_hash secret (session_or C t.session_id agreed_hash)
            (hash_of (kex_kind C t))

      server_staged :
          staged C u.role n.cipher_c2s agreed_hash
            (shared_secret (kex_kind C u) shared)
            (session_or C u.session_id agreed_hash)
            (hash_of (kex_kind C u))
          ≡ staged_by Role.server
      server_staged = rw (same_kind, m.server, sym m.session) refl

      server_answers :
          (rng : C.rng.State) (p : PendingKeys C)
          → respond C (kex_kind C t) blob u.rng ≡ (ok (q_s, shared), rng)
          → staged_by Role.server ≡ ok p
          → MessagesFit
          → answer_init C (init_message blob) u ≡ (
            ok tt,
            send_newkeys C
                (finished C (write_packet C reply (record u { rng = rng })) agreed_hash n p),
          )
      server_answers rng p er ep fit =
          answer_init-ok C (init_message blob) blob q_s shared agreed_hash u rng hk n p
            (read_init-init_message blob fit.blob_fits fit.init_fits) m.host_key
            (ap (λ q. respond C q blob u.rng) same_kind ∙ er)
            (ap
                (λ q.
                  compute_exchange_hash C u blob q_s (key_blob C.ed25519 hk)
                    (shared_secret q shared) (hash_of q))
                same_kind
              ∙ server_hash blob q_s (key_blob C.ed25519 hk) secret (hash_of (kex_kind C t)))
            m.negotiated_server (server_staged ∙ ep)

      client_accepts :
          (hc : IsCrates C) (rng : C.rng.State) (p : PendingKeys C)
          → respond C (kex_kind C t) blob u.rng ≡ (ok (q_s, shared), rng)
          → staged_by Role.client ≡ ok p
          → MessagesFit
          → accept_reply C reply t ≡ (
            ok tt,
            send_newkeys C (
                finished C
                  (record t {
                    kex_eph = none;
                    events = t.events ++ (server_host_key (public C.ed25519 hk) ∷ []);
                  })
                  agreed_hash
                  n
                  p),
          )
      client_accepts hc rng p er ep fit =
          let signed = verify-sign_exchange_hash C.ed25519 hc.ed25519 hk agreed_hash in
          accept_reply-ok C reply (key_blob C.ed25519 hk) q_s
            (sign_exchange_hash C.ed25519 hk agreed_hash) blob shared agreed_hash (kex_kind C t) t _
            (public C.ed25519 hk) n p
            (read_reply-reply_message (key_blob C.ed25519 hk) q_s _ fit.key_fits fit.q_s_fits
              fit.signature_fits fit.reply_fits)
            m.ephemeral (complete-respond C hc (kex_kind C t) s u.rng rng q_s shared er)
            (client_hash blob q_s (key_blob C.ed25519 hk) secret (hash_of (kex_kind C t))) signed.0
            signed.1 m.negotiated_client
            (ap
                (λ r.
                  staged C r n.cipher_c2s agreed_hash secret (session_or C t.session_id agreed_hash)
                    (hash_of (kex_kind C t)))
                m.client
              ∙ ep)

      -- With crates that keep their contracts, when the server's method answers the client's blob,
      -- the cipher is a known one, and the messages fit the wire format: the server's handler of
      -- KEX_ECDH_INIT succeeds and writes the reply, the client's handler of KEX_ECDH_REPLY
      -- accepts that reply, its signature included, and each of the two then seals with the
      -- cipher that the other has staged for opening.
      pub handshake_agrees :
          (hc : IsCrates C) (rng : C.rng.State) (kl il : ℕ)
          → respond C (kex_kind C t) blob u.rng ≡ (ok (q_s, shared), rng)
          → key_len n.cipher_c2s ≡ ok kl
          → iv_len n.cipher_c2s ≡ ok il
          → MessagesFit
          → (a b : Cipher) × (t' u' : T C) × (answer_init C (init_message blob) u ≡ (ok tt, u'))
            × (u'
                ≡ send_newkeys C (
                    finished C
                      (write_packet C reply (record u { rng = rng }))
                      agreed_hash
                      n
                      (record { out = b; inn = a })))
            × (accept_reply C reply t ≡ (ok tt, t'))
            × (t'.cipher_out ≡ a)
            × (u'.pending ≡ some (record { out = Cipher.plain; inn = a }))
            × (u'.cipher_out ≡ b)
            × (t'.pending ≡ some (record { out = Cipher.plain; inn = b }))
      handshake_agrees hc rng kl il er ek ei fit =
          let hash = hash_of (kex_kind C t) in
          let sid = session_or C t.session_id agreed_hash in
          let (a, b, staged_client, staged_server) =
            staged-mirrored C hc n.cipher_c2s agreed_hash secret sid hash kl il ek ei in
          let server_ok = server_answers rng (record { out = b; inn = a }) er staged_server fit in
          let client_ok =
            client_accepts hc rng (record { out = a; inn = b }) er staged_client fit in
          let sent = write_packet-same C reply (record u { rng = rng }) in
          let at_client =
            switched_after _ agreed_hash (record { out = a; inn = b }) m.client_waits in
          let at_server =
            switched_after (write_packet C reply (record u { rng = rng })) agreed_hash
              (record { out = b; inn = a }) (sent.recv_newkeys ∙ m.server_waits) in
          (
            a, b, _, _, server_ok, refl, client_ok, at_client.0, at_server.1, at_server.0,
            at_client.1,
          )
