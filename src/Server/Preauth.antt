-- ===== src/Server/Preauth.antt =====
-- server.rs before authentication: the service request and the authentication methods.
use ssh_bench.Common.{
  ◌+◌, ◌%◌, ◌^◌, Bool, true, false, not, [], ◌∷◌, Bytes, Option, none, some, ◌==◌, ltb, leb,
  bytes_eq, if◌then◌else◌,
}
use ssh_bench.Common.Text.{codes}
use ssh_bench.Msg
use ssh_bench.Error.{Result, ok, err, protocol}
use ssh_bench.Wire.Reader.{Reader, Read, pure}
use ssh_bench.Wire.Reader
use ssh_bench.Auth.Messages
use ssh_bench.Auth.Request.{Method, none_method, password, publickey, unknown, AuthRequest}
use ssh_bench.Auth.Request
use ssh_bench.Auth.Keys.{UserPublicKey, parse_blob, verify}
use ssh_bench.Action.{Action, ◌>>=◌, ◌>>◌, done, state, modify, lift}
use ssh_bench.Server.Ports.{Ports}
use ssh_bench.Server.State.{
  ServerConnection, authenticated_event, auth_exhausted, send, disconnect, emit,
}

-- A `Reader` method on the whole payload.
unfoldable pub read_all : {A : Type 0} → Read A → Bytes → Result A
read_all p payload = elim (p (Reader.new payload)) [ ok (a, r) ↦ ok a | err e ↦ err e ]

unfoldable pub read_service : Read Bytes
read_service = Reader.◌>>=◌ Reader.u8 (λ _. Reader.utf8)

unfoldable pub is_ok : {A : Type 0} → Result A → Bool
is_ok (ok a) = true
is_ok (err e) = false

module _ (E : Ports) where
  abbrev pub Server : Type 0
  Server = ServerConnection E

  -- A call of the policy, which may change its own state.
  unfoldable pub ask : {A : Type 0} → (E.auth.Handler → A × E.auth.Handler) → Action Server A
  ask q s = let x = q s.handler in (ok x.0, record s { handler = x.1 })

  unfoldable pub send_banner : Option Bytes → Action Server (Unit {0})
  send_banner none = done
  send_banner (some banner) = send E (Messages.userauth_banner banner)

  unfoldable pub banner_once : Bool → Action Server (Unit {0})
  unfolding send_banner
  banner_once sent =
      if sent
      then done
      else (modify (λ s. record s { banner_sent = true }) >> (ask E.auth.banner >>= send_banner))

  unfoldable pub accept_service : Bytes → Action Server (Unit {0})
  unfolding banner_once
  accept_service service =
      if not (bytes_eq service Messages.service_userauth)
      then disconnect E Msg.reason_protocol_error (codes "service not available")
      else do
        _ ← send E (Messages.service_accept Messages.service_userauth)
        s ← state
        banner_once s.banner_sent

  unfoldable pub handle_service_request : Bytes → Action Server (Unit {0})
  unfolding accept_service
  handle_service_request payload = lift (read_all read_service payload) >>= accept_service

  unfoldable pub send_failure : Action Server (Unit {0})
  send_failure = do
    _ ← modify (λ s. record s { auth_failures = (s.auth_failures + 1) % 2 ^ 32 })
    s ← state
    if leb (E.auth.max_auth_attempts s.handler) s.auth_failures
        then (disconnect E Msg.reason_no_more_auth_methods_available
              (codes "too many authentication failures")
            >> emit E auth_exhausted)
        else send E (Messages.userauth_failure (E.auth.methods s.handler) false)

  unfoldable pub finish_auth : Bytes → Bool → Action Server (Unit {0})
  unfolding send_failure
  finish_auth user granted =
      if granted
      then (send E Messages.userauth_success
          >> (modify (λ s. record s { authenticated = some user })
              >> emit E (authenticated_event user)))
      else send_failure

  unfoldable pub session_id_of : Option Bytes → Result Bytes
  session_id_of none = err (protocol "no session id")
  session_id_of (some id) = ok id

  unfoldable pub check_signature :
      AuthRequest
      → Bytes
      → Bytes
      → UserPublicKey E.ed25519
      → Option Bytes
      → Action Server (Unit {0})
  unfolding finish_auth session_id_of
  check_signature req key_algo key_blob key none =
      send E (Messages.userauth_pk_ok key_algo key_blob)
  check_signature req key_algo key_blob key (some sig) = do
    s ← state
    session_id ← lift (session_id_of (E.transport.session_id s.transport))
    finish_auth req.user (
        is_ok (
          verify E.ed25519 key
            (Messages.publickey_signed_data session_id req.user req.service key_algo key_blob) sig))

  unfoldable pub authorize :
      AuthRequest
      → Bytes
      → Bytes
      → Option Bytes
      → Result (UserPublicKey E.ed25519)
      → Action Server (Unit {0})
  unfolding check_signature send_failure
  authorize req key_algo key_blob signature (err e) = send_failure
  authorize req key_algo key_blob signature (ok key) = do
    allowed ← ask (E.auth.is_authorized_key req.user key)
    if not allowed then send_failure else check_signature req key_algo key_blob key signature

  unfoldable pub handle_publickey :
      AuthRequest → Bytes → Bytes → Option Bytes → Action Server (Unit {0})
  unfolding authorize
  handle_publickey req key_algo key_blob signature =
      authorize req key_algo key_blob signature (parse_blob E.ed25519 key_blob)

  unfoldable pub decide : AuthRequest → Method → Action Server (Unit {0})
  unfolding handle_publickey finish_auth
  decide req none_method = ask (E.auth.allow_none req.user) >>= finish_auth req.user
  decide req (password p) = ask (E.auth.verify_password req.user p) >>= finish_auth req.user
  decide req (publickey key_algo key_blob signature) =
      handle_publickey req key_algo key_blob signature
  decide req (unknown name) = finish_auth req.user false

  unfoldable pub handle_userauth : Bytes → Action Server (Unit {0})
  unfolding decide
  handle_userauth payload = do
    _ ← modify (λ s. record s { auth_requests = (s.auth_requests + 1) % 2 ^ 32 })
    s ← state
    if ltb (E.auth.max_auth_requests s.handler) s.auth_requests
        then (disconnect E Msg.reason_protocol_error (codes "too many authentication requests")
            >> emit E auth_exhausted)
        else (lift (Request.parse payload) >>= λ req. decide req req.method)

  unfoldable pub handle_preauth : Bytes → Action Server (Unit {0})
  unfolding handle_service_request handle_userauth
  handle_preauth [] = done
  handle_preauth (id ∷ rest) =
      if id == Msg.service_request
      then handle_service_request (id ∷ rest)
      else if id == Msg.userauth_request
      then handle_userauth (id ∷ rest)
      else done
