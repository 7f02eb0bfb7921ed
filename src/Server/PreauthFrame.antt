-- ===== src/Server/PreauthFrame.antt =====
-- What `handle_preauth` of server.rs leaves alone.
use ssh_bench.Common.{
  ℕ, ◌≡◌, refl, Bool, ◌==◌, ltb, leb, not, bytes_eq, true, false, [], ◌∷◌, ◌++◌, Bytes, Option,
  none, some,
}
use ssh_bench.Msg
use ssh_bench.Error.{Result, ok, err}
use ssh_bench.Auth.Messages
use ssh_bench.Auth.Request.{Method, none_method, password, publickey, unknown, AuthRequest}
use ssh_bench.Auth.Keys.{UserPublicKey}
use ssh_bench.Auth.Keys
use ssh_bench.Action.{
  Keeps, bind-Keeps, then-Keeps, lift-Keeps, done-Keeps, state-Keeps, modify-Keeps, if-Keeps,
}
use ssh_bench.Server.Ports.{Ports}
use ssh_bench.Server.State
use ssh_bench.Server.State.{
  ServerConnection, ServerEvent, authenticated_event, auth_exhausted, disconnect_event,
  exec_request, shell_request, subsystem_request, window_change, channel_data_event,
  channel_eof_event, channel_close_event,
}
use ssh_bench.Server.Preauth

-- The events that do not come from the connection protocol.
unfoldable pub is_auth_event : ServerEvent → Bool
is_auth_event (authenticated_event u) = true
is_auth_event (exec_request c b) = false
is_auth_event (shell_request c) = false
is_auth_event (subsystem_request c b) = false
is_auth_event (window_change c m n) = false
is_auth_event (channel_data_event c b) = false
is_auth_event (channel_eof_event c) = false
is_auth_event (channel_close_event c) = false
is_auth_event (disconnect_event n d) = true
is_auth_event auth_exhausted = true

-- A predicate that the parts of the state that authentication works on do not matter to.
pub record IsAuthFrame (E : Ports) (P : ServerConnection E → Type 0) : Type 0 where
  pub on_transport :
      (s : ServerConnection E) (t : E.transport.Transport) → P s → P (record s { transport = t })
  pub on_handler :
      (s : ServerConnection E) (h : E.auth.Handler) → P s → P (record s { handler = h })
  pub on_banner : (s : ServerConnection E) (b : Bool) → P s → P (record s { banner_sent = b })
  pub on_event :
      (s : ServerConnection E) (e : ServerEvent)
      → is_auth_event e ≡ true
      → P s
      → P (record s { events = s.events ++ (e ∷ []) })

module _ (E : Ports) (P : ServerConnection E → Type 0) (f : IsAuthFrame E P) where
  pub send-Keeps : (p : Bytes) → Keeps P (State.send E p)
  unfolding State.send State.call
  send-Keeps p = record { keeps = λ s h. f.on_transport s _ h }

  pub disconnect-Keeps : (n : ℕ) (d : Bytes) → Keeps P (State.disconnect E n d)
  unfolding State.disconnect
  disconnect-Keeps n d = record { keeps = λ s h. f.on_transport s _ h }

  pub emit-Keeps : (e : ServerEvent) → is_auth_event e ≡ true → Keeps P (State.emit E e)
  unfolding State.emit
  emit-Keeps e a = record { keeps = λ s h. f.on_event s e a h }

  pub ask-Keeps : {A : Type 0} (q : E.auth.Handler → A × E.auth.Handler) → Keeps P (Preauth.ask E q)
  unfolding Preauth.ask
  ask-Keeps q = record { keeps = λ s h. f.on_handler s _ h }

  send_banner-Keeps : (b : Option Bytes) → Keeps P (Preauth.send_banner E b)
  unfolding Preauth.send_banner
  send_banner-Keeps none = done-Keeps
  send_banner-Keeps (some b) = send-Keeps _

  pub accept_service-Keeps : (n : Bytes) → Keeps P (Preauth.accept_service E n)
  unfolding Preauth.accept_service Preauth.banner_once
  accept_service-Keeps n =
      if-Keeps (not (bytes_eq n Messages.service_userauth)) (disconnect-Keeps _ _) (
        bind-Keeps (send-Keeps _) λ _. bind-Keeps state-Keeps λ s.
          if-Keeps s.banner_sent done-Keeps (
            then-Keeps (modify-Keeps _ (λ s h. f.on_banner s _ h))
              (bind-Keeps (ask-Keeps _) send_banner-Keeps)))

  pub send_failure-Keeps :
      ((s : ServerConnection E) (n : ℕ) → P s → P (record s { auth_failures = n }))
      → Keeps P (Preauth.send_failure E)
  unfolding Preauth.send_failure is_auth_event
  send_failure-Keeps on_failures = bind-Keeps (modify-Keeps _ (λ s h. on_failures s _ h)) λ _.
      bind-Keeps state-Keeps λ s.
        if-Keeps (leb (E.auth.max_auth_attempts s.handler) s.auth_failures)
          (then-Keeps (disconnect-Keeps _ _) (emit-Keeps auth_exhausted refl)) (send-Keeps _)

module _ (E : Ports) (P : ServerConnection E → Type 0) (f : IsAuthFrame E P)
    (failure : Keeps P (Preauth.send_failure E))
    (on_grant : (s : ServerConnection E) (u : Option Bytes)
      → P s
      → P (record s { authenticated = u })) where
  finish_auth-Keeps : (u : Bytes) (g : Bool) → Keeps P (Preauth.finish_auth E u g)
  unfolding Preauth.finish_auth is_auth_event
  finish_auth-Keeps u g =
      if-Keeps g
        (then-Keeps (send-Keeps E P f _) (
          then-Keeps (modify-Keeps _ (λ s h. on_grant s _ h))
            (emit-Keeps E P f (authenticated_event u) refl)))
        failure

  check_signature-Keeps :
      (req : AuthRequest) (a b : Bytes) (k : UserPublicKey E.ed25519) (sig : Option Bytes)
      → Keeps P (Preauth.check_signature E req a b k sig)
  unfolding Preauth.check_signature
  check_signature-Keeps req a b k none = send-Keeps E P f _
  check_signature-Keeps req a b k (some sig) =
      bind-Keeps state-Keeps λ s. bind-Keeps (lift-Keeps _) λ id. finish_auth-Keeps req.user _

  authorize-Keeps :
      (req : AuthRequest) (a b : Bytes) (sig : Option Bytes) (r : Result (UserPublicKey E.ed25519))
      → Keeps P (Preauth.authorize E req a b sig r)
  unfolding Preauth.authorize
  authorize-Keeps req a b sig (err e) = failure
  authorize-Keeps req a b sig (ok k) =
      bind-Keeps (ask-Keeps E P f _)
        λ allowed. if-Keeps (not allowed) failure (check_signature-Keeps req a b k sig)

  pub decide-Keeps : (req : AuthRequest) (m : Method) → Keeps P (Preauth.decide E req m)
  unfolding Preauth.decide Preauth.handle_publickey
  decide-Keeps req none_method = bind-Keeps (ask-Keeps E P f _) (finish_auth-Keeps req.user)
  decide-Keeps req (password p) = bind-Keeps (ask-Keeps E P f _) (finish_auth-Keeps req.user)
  decide-Keeps req (publickey a b sig) = authorize-Keeps req a b sig (Keys.parse_blob E.ed25519 b)
  decide-Keeps req (unknown n) = finish_auth-Keeps req.user false

module _ (E : Ports) (P : ServerConnection E → Type 0) (f : IsAuthFrame E P) where
  pub handle_userauth-Keeps :
      ((s : ServerConnection E) (n : ℕ) → P s → P (record s { auth_requests = n }))
      → ((req : AuthRequest) → Keeps P (Preauth.decide E req req.method))
      → (p : Bytes) → Keeps P (Preauth.handle_userauth E p)
  unfolding Preauth.handle_userauth is_auth_event
  handle_userauth-Keeps on_requests deciding p =
      bind-Keeps (modify-Keeps _ (λ s h. on_requests s _ h)) λ _. bind-Keeps state-Keeps λ s.
        if-Keeps (ltb (E.auth.max_auth_requests s.handler) s.auth_requests)
          (then-Keeps (disconnect-Keeps E P f _ _) (emit-Keeps E P f auth_exhausted refl))
          (bind-Keeps (lift-Keeps _) deciding)

  pub handle_preauth-Keeps :
      ((p : Bytes) → Keeps P (Preauth.handle_userauth E p))
      → (p : Bytes) → Keeps P (Preauth.handle_preauth E p)
  unfolding Preauth.handle_preauth Preauth.handle_service_request
  handle_preauth-Keeps userauth [] = done-Keeps
  handle_preauth-Keeps userauth (id ∷ rest) =
      if-Keeps (id == Msg.service_request) (bind-Keeps (lift-Keeps _) (accept_service-Keeps E P f))
        (if-Keeps (id == Msg.userauth_request) (userauth _) done-Keeps)
