-- ===== src/Kex/Method.antt =====
-- What the transport asks of a key exchange method, and that both sides come to the same `K`.
use ssh_bench.Common.{
  ◌≡◌, refl, sym, ap, ◌∙◌, true, ◌++◌, Bytes, ◌==◌, length, length-append, take_exact, drop_exact,
  arith,
}
use ssh_bench.Error.{SshError, Result, ok, err, kex, ◌>>=◌}
use ssh_bench.Rng.{Rng}
use ssh_bench.Kdf.{Sha2}
use ssh_bench.Kex.{X25519, IsX25519, EcdhKeypair, generate, agree, contributory}
use ssh_bench.Kex.MlKem.{Mlkem768, IsMlkem768}
use ssh_bench.Kex.MlKem
use ssh_bench.Kex.Sntrup.{Sntrup761, IsSntrup761}
use ssh_bench.Kex.Sntrup

-- The client's ephemeral, its blob and its completion; the server's answer and `K` in one shot.
pub record Method (r : Rng) : Type 1 where
  pub Client : Type 0
  pub generate : r.State → Client × r.State
  pub init : Client → Bytes
  pub agree : Client → Bytes → Result Bytes
  pub server_respond : Bytes → r.State → Result (Bytes × Bytes) × r.State

-- A refused exchange is one with a low-order point; one that is answered gives the client the
-- server's `K`.
abbrev pub Agreed : {A : Type 0} → (Bytes → Result Bytes) → Result (Bytes × Bytes) × A → Type 0
Agreed agree_client (ok (reply, k), s) = agree_client reply ≡ ok k
Agreed agree_client (err e, s) = e ≡ kex "non-contributory key exchange"

pub record Agrees {r : Rng} (m : Method r) : Type 0 where
  pub agrees :
      (s t : r.State)
      → Agreed (m.agree (m.generate s).0) (m.server_respond (m.init (m.generate s).0) t)

module _ {r : Rng} (x : X25519 r) where
  -- The arm `KexKind::Classical` of `on_ecdh_init`.
  unfoldable pub respond_classical : Bytes → r.State → Result (Bytes × Bytes) × r.State
  respond_classical q_c rng =
      let (server_kp, rng') = generate x rng in
      ((do shared ← agree x server_kp q_c; ok (server_kp.public, shared)), rng')

  abbrev pub classical : Method r
  classical = record {
    Client = EcdhKeypair x;
    generate = generate x;
    init = λ kp. kp.public;
    agree = agree x;
    server_respond = respond_classical;
  }

  module _ (d : Sha2) where
    abbrev pub mlkem : Mlkem768 → Method r
    mlkem m = record {
      Client = MlKem.HybridClient d x m;
      generate = MlKem.generate d x m;
      init = λ c. c.init;
      agree = MlKem.agree d x m;
      server_respond = MlKem.server_respond d x m;
    }

    abbrev pub sntrup : Sntrup761 → Method r
    sntrup n = record {
      Client = Sntrup.HybridClient d x n;
      generate = Sntrup.generate d x n;
      init = λ c. c.init;
      agree = Sntrup.agree d x n;
      server_respond = Sntrup.server_respond d x n;
    }

  module _ (hx : IsX25519 x) where
    -- Whether the point is refused is the same on both sides.
    agree-public_key :
        (a b : x.EphemeralSecret) (pa : Bytes)
        → agree x (record { secret = a; public = pa }) (x.public_key b)
          ≡ contributory x (x.diffie_hellman a (x.public_key b))
    unfolding agree
    agree-public_key a b pa =
        let e : (length (x.public_key b) == 32) ≡ true =
          let l = hx.length-public_key b in ground arith in
        rw e refl

    swap :
        (a b : x.EphemeralSecret)
        → contributory x (x.diffie_hellman b (x.public_key a))
          ≡ contributory x (x.diffie_hellman a (x.public_key b))
    swap a b = ap (contributory x) (hx.diffie_hellman_comm b a)

    contributory-err :
        (z : x.SharedSecret) (e : SshError)
        → contributory x z ≡ err e
        → e ≡ kex "non-contributory key exchange"
    unfolding contributory
    contributory-err z e h = ground arith

    -- Whichever way the server's half goes, for what it makes of the shared bytes (`f`) and what
    -- the client makes of them.
    finish :
        {A : Type 0} (z : Result Bytes) (f : Bytes → Bytes × Bytes) (g : Bytes → Result Bytes)
        (rng : A)
        → ((e : SshError) → z ≡ err e → e ≡ kex "non-contributory key exchange")
        → ((k : Bytes) → z ≡ ok k → g (f k).0 ≡ ok (f k).1)
        → Agreed g ((do k ← z; ok (f k)), rng)
    unfolding ◌>>=◌
    finish (err e) f g rng he hk = he e refl
    finish (ok k) f g rng he hk = hk k refl

    -- The client's half of a hybrid, on the server's second part.
    client_half :
        (a b : x.EphemeralSecret) (k : Bytes)
        → contributory x (x.diffie_hellman b (x.public_key a)) ≡ ok k
        → agree x (record { secret = a; public = x.public_key a }) (x.public_key b) ≡ ok k
    client_half a b k e = agree-public_key a b (x.public_key a) ∙ sym (swap a b) ∙ e

    pub classical_agrees : Agrees classical
    unfolding generate respond_classical
    classical_agrees = record {
      agrees = λ s t.
          let a = (x.random_from_rng s).0 in
          let b = (x.random_from_rng t).0 in
          let z = contributory x (x.diffie_hellman b (x.public_key a)) in
          rw (agree-public_key b a (x.public_key b)) (
            finish z (λ k. (x.public_key b, k))
              (agree x (record { secret = a; public = x.public_key a })) (x.random_from_rng t).1
              (contributory-err (x.diffie_hellman b (x.public_key a)))
              (λ k e. client_half a b k e));
    }

    module _ (d : Sha2) where
      pub mlkem_agrees : (m : Mlkem768) → IsMlkem768 m → Agrees (mlkem d m)
      unfolding generate MlKem.generate MlKem.server_respond MlKem.respond_key MlKem.respond_to
          MlKem.agree MlKem.decapsulated ◌>>=◌
      mlkem_agrees m hm = record {
        agrees = λ s t.
            let seed = (r.fill_bytes 64 s) in
            let decap = m.from_seed seed.0 in
            let a = (x.random_from_rng seed.1).0 in
            let ek = m.to_bytes (m.encapsulation_key decap) in
            let pa = x.public_key a in
            let draw = r.fill_bytes 32 t in
            let b = (x.random_from_rng draw.1).0 in
            let pb = x.public_key b in
            let c = m.encapsulate_deterministic (m.encapsulation_key decap) draw.0 in
            let lek : length ek ≡ 1184 = hm.length-to_bytes (m.encapsulation_key decap) in
            let lct : length (c.0) ≡ 1088 =
              hm.length-ciphertext (m.encapsulation_key decap) draw.0 in
            let right : (length (ek ++ pa) == 1216) ≡ true =
              ground (arith, length-append ek pa, hx.length-public_key a) in
            let right' : (length (c.0 ++ pb) == 1120) ≡ true =
              ground (arith, length-append c.0 pb, hx.length-public_key b) in
            rw
              (
                right,
                take_exact 1184 ek pa lek,
                drop_exact 1184 ek pa lek,
                hm.new-to_bytes (m.encapsulation_key decap),
                agree-public_key b a pb,
              )
              (finish (contributory x (x.diffie_hellman b pa))
                (λ k. (c.0 ++ pb, MlKem.combine d x m c.1 k))
                (MlKem.agree d x m (record {
                  decap = decap;
                  x25519 = record { secret = a; public = pa };
                  init = ek ++ pa;
                }))
                (x.random_from_rng draw.1).1 (contributory-err (x.diffie_hellman b pa))
                (λ k e.
                  rw
                    (
                      right',
                      take_exact 1088 c.0 pb lct,
                      drop_exact 1088 c.0 pb lct,
                      hm.decapsulate-encapsulate decap draw.0,
                      client_half a b k e,
                    )
                    refl));
      }

      pub sntrup_agrees : (n : Sntrup761) → IsSntrup761 n → Agrees (sntrup d n)
      unfolding generate Sntrup.generate Sntrup.server_respond Sntrup.respond_key Sntrup.respond_to
          Sntrup.agree Sntrup.ciphertext_of ◌>>=◌
      sntrup_agrees n hn = record {
        agrees = λ s t.
            let seed = r.fill_bytes 32 s in
            let key = n.generate_key_from_seed seed.0 in
            let a = (x.random_from_rng seed.1).0 in
            let ek = n.as_ref key.0 in
            let pa = x.public_key a in
            let draw = r.fill_bytes 32 t in
            let b = (x.random_from_rng draw.1).0 in
            let pb = x.public_key b in
            let c = n.encapsulate_deterministic key.0 draw.0 in
            let lek : length ek ≡ 1158 = hn.length-as_ref key.0 in
            let lct : length (c.0) ≡ 1039 = hn.length-ciphertext key.0 draw.0 in
            let right : (length (ek ++ pa) == 1190) ≡ true =
              ground (arith, length-append ek pa, hx.length-public_key a) in
            let right' : (length (c.0 ++ pb) == 1071) ≡ true =
              ground (arith, length-append c.0 pb, hx.length-public_key b) in
            rw
              (
                right,
                take_exact 1158 ek pa lek,
                drop_exact 1158 ek pa lek,
                hn.try_from-as_ref key.0,
                agree-public_key b a pb,
              )
              (finish (contributory x (x.diffie_hellman b pa))
                (λ k. (c.0 ++ pb, Sntrup.combine d x n c.1 k))
                (Sntrup.agree d x n (record {
                  decap = key.1;
                  x25519 = record { secret = a; public = pa };
                  init = ek ++ pa;
                }))
                (x.random_from_rng draw.1).1 (contributory-err (x.diffie_hellman b pa))
                (λ k e.
                  rw
                    (
                      right',
                      take_exact 1039 c.0 pb lct,
                      drop_exact 1039 c.0 pb lct,
                      hn.ciphertext_try_from_len c.0 lct,
                      hn.decapsulate-encapsulate seed.0 draw.0,
                      client_half a b k e,
                    )
                    refl));
      }

      -- For primitives that keep their contracts and any states of the two generators, in each of
      -- the three methods: the server's answer to the client's blob either is refused for a
      -- low-order point and for nothing else, or it gives the client the server's `K`.
      pub methods_agree :
          (m : Mlkem768) (n : Sntrup761)
          → IsMlkem768 m
          → IsSntrup761 n
          → Agrees classical × Agrees (mlkem d m) × Agrees (sntrup d n)
      methods_agree m n hm hn = (classical_agrees, mlkem_agrees m hm, sntrup_agrees n hn)
