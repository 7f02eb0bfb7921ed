-- ===== src/Server/Grants.antt =====
-- server.rs: what it takes for a decision on a request to authenticate someone.
use ssh_bench.Common.{
  ℕ, ◌≡◌, refl, ap, Bool, true, false, not, Bytes, Option, none, some, if◌then◌else◌,
}
use ssh_bench.Error.{Result, ok, err}
use ssh_bench.Auth.Messages
use ssh_bench.Auth.Request.{Method, none_method, password, publickey, unknown, AuthRequest}
use ssh_bench.Auth.Keys.{UserPublicKey}
use ssh_bench.Auth.Keys
use ssh_bench.Action.{Keeps, bind-Keeps, lift-Keeps, ◌>>=◌, ◌>>◌, state, modify, lift, bind_result}
use ssh_bench.Server.Ports.{Ports}
use ssh_bench.Server.State
use ssh_bench.Server.State.{ServerConnection}
use ssh_bench.Server.Preauth
use ssh_bench.Server.PreauthFrame.{IsAuthFrame, send_failure-Keeps, accept_service-Keeps}

-- What a public-key request has to show: a key that the policy allows, and a signature by it of
-- this session's id and this request.
pub record SignedBy (E : Ports) (s : ServerConnection E) (req : AuthRequest) (algo blob sig : Bytes)
    : Type 0 where
  pub key : UserPublicKey E.ed25519
  pub parsed : Keys.parse_blob E.ed25519 blob ≡ ok key
  pub allowed : (E.auth.is_authorized_key req.user key s.handler).0 ≡ true
  pub session_id : Bytes
  pub has_session : E.transport.session_id s.transport ≡ some session_id
  pub signed :
      Preauth.is_ok (
        Keys.verify E.ed25519 key
          (Messages.publickey_signed_data session_id req.user req.service algo blob)
          sig)
      ≡ true

-- The policy of the server approves of a request.
abbrev pub Approves : (E : Ports) → ServerConnection E → AuthRequest → Method → Type 0
Approves E s req none_method = (E.auth.allow_none req.user s.handler).0 ≡ true
Approves E s req (password p) = (E.auth.verify_password req.user p s.handler).0 ≡ true
Approves E s req (publickey algo blob none) = ⊥
Approves E s req (publickey algo blob (some sig)) = SignedBy E s req algo blob sig
Approves E s req (unknown name) = ⊥

module _ (E : Ports) where
  unfoldable pub NoAuth : ServerConnection E → Type 0
  NoAuth s = s.authenticated ≡ none

  pub NoAuth-IsAuthFrame : IsAuthFrame E NoAuth
  unfolding NoAuth
  NoAuth-IsAuthFrame = record {
    on_transport = λ s t h. h;
    on_handler = λ s t h. h;
    on_banner = λ s t h. h;
    on_event = λ s e a h. h;
  }

  pub no_user :
      {A : Type 0} (s : ServerConnection E) (u : Bytes)
      → s.authenticated ≡ none
      → s.authenticated ≡ some u
      → A
  no_user s u h k = cc

  failure-sound :
      {A : Type 0} (s : ServerConnection E) (u : Bytes)
      → s.authenticated ≡ none
      → (Preauth.send_failure E s).1.authenticated ≡ some u
      → A
  unfolding NoAuth
  failure-sound s u h k =
      no_user (Preauth.send_failure E s).1 u
        ((send_failure-Keeps E NoAuth NoAuth-IsAuthFrame λ t n e. e).keeps s h) k

  some-injective : (a b : Bytes) → some a ≡ some b → a ≡ b
  some-injective a b h = ap (λ o. elim o [ none ↦ a | some c ↦ c ]) h

  granted-user :
      (x : Result (Unit {0}) × ServerConnection E) (user u : Bytes)
      → x.1.authenticated ≡ none
      → (bind_result x (λ _.
          modify (λ s. record s { authenticated = some user })
          >> State.emit E (State.authenticated_event user))).1.authenticated
        ≡ some u
      → user ≡ u
  unfolding ◌>>◌ modify State.emit
  granted-user (ok _, s) user u h k = some-injective user u k
  granted-user (err e, s) user u h k = no_user s u h k

  finish_auth_sound :
      (s : ServerConnection E) (user u : Bytes) (g : Bool)
      → s.authenticated ≡ none
      → (Preauth.finish_auth E user g s).1.authenticated ≡ some u
      → (g ≡ true) × (user ≡ u)
  unfolding Preauth.finish_auth ◌>>◌ State.send State.call
  finish_auth_sound s user u false h k = failure-sound s u h k
  finish_auth_sound s user u true h k =
      (refl, granted-user (State.send E Messages.userauth_success s) user u h k)

  check_signature_sound :
      (s : ServerConnection E) (req : AuthRequest) (algo blob u : Bytes)
      (key : UserPublicKey E.ed25519) (sig : Option Bytes)
      → (h0 : E.auth.Handler) → s.authenticated ≡ none
      → Keys.parse_blob E.ed25519 blob ≡ ok key
      → (E.auth.is_authorized_key req.user key h0).0 ≡ true
      → (Preauth.check_signature E req algo blob key sig s).1.authenticated ≡ some u
      → (req.user ≡ u) × Approves E (record s { handler = h0 }) req (publickey algo blob sig)
  unfolding Preauth.check_signature ◌>>=◌ State.send State.call state lift Preauth.session_id_of
  check_signature_sound s req algo blob u key none h0 h hk ha k =
      no_user (State.send E (Messages.userauth_pk_ok algo blob) s).1 u h k
  check_signature_sound s req algo blob u key (some sig) h0 h hk ha k =
      go (E.transport.session_id s.transport) refl k
    where
      go :
          (o : Option Bytes)
          → E.transport.session_id s.transport ≡ o
          → (bind_result
              (Preauth.session_id_of E o, s)
              (λ id. Preauth.finish_auth E req.user (
                Preauth.is_ok (
                  Keys.verify E.ed25519 key
                    (Messages.publickey_signed_data id req.user req.service algo blob)
                    sig)))).1.authenticated
            ≡ some u
          → (req.user ≡ u) × SignedBy E (record s { handler = h0 }) req algo blob sig
      go none e k = no_user s u h k
      go (some id) e k =
          let (g, same) = finish_auth_sound s req.user u _ h k in
          (
            same,
            record {
              key = key;
              parsed = hk;
              allowed = ha;
              session_id = id;
              has_session = e;
              signed = g;
            },
          )

  authorize_sound :
      (s : ServerConnection E) (req : AuthRequest) (algo blob u : Bytes) (sig : Option Bytes)
      (r : Result (UserPublicKey E.ed25519))
      → s.authenticated ≡ none
      → Keys.parse_blob E.ed25519 blob ≡ r
      → (Preauth.authorize E req algo blob sig r s).1.authenticated ≡ some u
      → (req.user ≡ u) × Approves E s req (publickey algo blob sig)
  unfolding Preauth.authorize ◌>>=◌ Preauth.ask
  authorize_sound s req algo blob u sig (err e) h hk k = failure-sound s u h k
  authorize_sound s req algo blob u sig (ok key) h hk k =
      go (E.auth.is_authorized_key req.user key s.handler).0 refl k
    where
      asked : ServerConnection E
      asked = record s { handler = (E.auth.is_authorized_key req.user key s.handler).1 }

      go :
          (allowed : Bool)
          → (E.auth.is_authorized_key req.user key s.handler).0 ≡ allowed
          → ((if not allowed
                then Preauth.send_failure E
                else Preauth.check_signature E req algo blob key sig)
              asked).1.authenticated
            ≡ some u
          → (req.user ≡ u) × Approves E s req (publickey algo blob sig)
      go false e k = failure-sound asked u h k
      go true e k = check_signature_sound asked req algo blob u key sig s.handler h hk e k

  pub decide_sound :
      (s : ServerConnection E) (req : AuthRequest) (m : Method) (u : Bytes)
      → s.authenticated ≡ none
      → (Preauth.decide E req m s).1.authenticated ≡ some u
      → (req.user ≡ u) × Approves E s req m
  unfolding Preauth.decide Preauth.handle_publickey ◌>>=◌ Preauth.ask
  decide_sound s req none_method u h k =
      let (g, same) = finish_auth_sound _ req.user u _ h k in (same, g)
  decide_sound s req (password p) u h k =
      let (g, same) = finish_auth_sound _ req.user u _ h k in (same, g)
  decide_sound s req (publickey algo blob sig) u h k =
      authorize_sound s req algo blob u sig (Keys.parse_blob E.ed25519 blob) h refl k
  decide_sound s req (unknown name) u h k = failure-sound s u h k

  -- Counting a request is no part of what the policy looks at.
  pub Approves-counted :
      (s : ServerConnection E) (n : ℕ) (req : AuthRequest) (m : Method)
      → Approves E (record s { auth_requests = n }) req m
      → Approves E s req m
  Approves-counted s n req none_method a = a
  Approves-counted s n req (password p) a = a
  Approves-counted s n req (publickey algo blob none) a = a
  Approves-counted s n req (publickey algo blob (some sig)) a = record {
    key = a.key;
    parsed = a.parsed;
    allowed = a.allowed;
    session_id = a.session_id;
    has_session = a.has_session;
    signed = a.signed;
  }
  Approves-counted s n req (unknown name) a = a

  pub service-NoAuth : (p : Bytes) → Keeps NoAuth (Preauth.handle_service_request E p)
  unfolding Preauth.handle_service_request
  service-NoAuth p = bind-Keeps (lift-Keeps _) (accept_service-Keeps E NoAuth NoAuth-IsAuthFrame)
