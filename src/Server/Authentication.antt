-- ===== src/Server/Authentication.antt =====
-- server.rs: who gets authenticated.
use ssh_bench.Common.{
  ℕ, ◌+◌, ◌%◌, ◌^◌, ◌≤◌, ◌≡◌, refl, Bool, true, false, ◌==◌, ltb, [], ◌∷◌, Bytes, none, some,
  if◌then◌else◌, arith,
}
use ssh_bench.Common.Text.{codes}
use ssh_bench.Msg
use ssh_bench.Error.{Result, ok, err}
use ssh_bench.Auth.Request.{Method, none_method, password, publickey, unknown, AuthRequest}
use ssh_bench.Auth.Request
use ssh_bench.Action.{◌>>=◌, ◌>>◌, state, done, modify, lift, bind_result}
use ssh_bench.Server.Ports.{Ports}
use ssh_bench.Server.State
use ssh_bench.Server.State.{ServerConnection}
use ssh_bench.Server.Preauth
use ssh_bench.Server.Grants.{
  Approves, NoAuth, no_user, decide_sound, Approves-counted, service-NoAuth,
}

-- A request in `payload` that the server may let `u` in for.
pub Admitted : (E : Ports) → ServerConnection E → Bytes → Bytes → Type 0
Admitted E s payload u =
    (req : AuthRequest) × (Request.parse payload ≡ ok req)
    × (req.user ≡ u)
    × Approves E s req req.method
    × (s.auth_requests + 1) % 2 ^ 32 ≤ E.auth.max_auth_requests s.handler

module _ (E : Ports) where
  parsed_sound :
      (s : ServerConnection E) (n : ℕ) (payload u : Bytes) (r : Result AuthRequest)
      → s.authenticated ≡ none
      → Request.parse payload ≡ r
      → (bind_result
          (r, record s { auth_requests = n })
          (λ req. Preauth.decide E req req.method)).1.authenticated
        ≡ some u
      → (req : AuthRequest) × (Request.parse payload ≡ ok req)
        × (req.user ≡ u)
        × Approves E s req req.method
  parsed_sound s n payload u (err e) h p k = no_user E s u h k
  parsed_sound s n payload u (ok req) h p k =
      let (same, a) = decide_sound E (record s { auth_requests = n }) req req.method u h k in
      (req, p, same, Approves-counted E s n req req.method a)

  handle_userauth_sound :
      (s : ServerConnection E) (payload u : Bytes)
      → s.authenticated ≡ none
      → (Preauth.handle_userauth E payload s).1.authenticated ≡ some u
      → Admitted E s payload u
  unfolding Preauth.handle_userauth ◌>>=◌ ◌>>◌ modify state lift State.disconnect State.emit
      Admitted
  handle_userauth_sound s payload u h k =
      go (ltb (E.auth.max_auth_requests s.handler) ((s.auth_requests + 1) % 2 ^ 32)) refl k
    where
      counted : ServerConnection E
      counted = record s { auth_requests = (s.auth_requests + 1) % 2 ^ 32 }

      go :
          (b : Bool)
          → ltb (E.auth.max_auth_requests s.handler) ((s.auth_requests + 1) % 2 ^ 32) ≡ b
          → ((if b
                then State.disconnect E Msg.reason_protocol_error
                    (codes "too many authentication requests")
                  >> State.emit E State.auth_exhausted
                else (lift (Request.parse payload) >>= λ req. Preauth.decide E req req.method))
              counted).1.authenticated
            ≡ some u
          → Admitted E s payload u
      go true e k = no_user E s u h k
      go false e k =
          let (req, p, same, a) = parsed_sound s _ payload u (Request.parse payload) h refl k in
          (req, p, same, a, ground (arith, e))

-- When a packet gets a client authenticated that was not, the packet is a user authentication
-- request, within the server's limit on their number, for that user, which the policy approves of:
-- it allows the user without proof, accepts the password, or authorizes the key, and then the
-- request carries a valid signature by that key of this session's id and this request.
pub handle_preauth_sound :
    (E : Ports) (s : ServerConnection E) (payload u : Bytes)
    → s.authenticated ≡ none
    → (Preauth.handle_preauth E payload s).1.authenticated ≡ some u
    → Admitted E s payload u
unfolding Preauth.handle_preauth done NoAuth
handle_preauth_sound E s [] u h k = no_user E s u h k
handle_preauth_sound E s (id ∷ rest) u h k =
    go (id == Msg.service_request) (id == Msg.userauth_request) k
  where
    go :
        (service userauth : Bool)
        → ((if service
              then Preauth.handle_service_request E (id ∷ rest)
              else if userauth
              then Preauth.handle_userauth E (id ∷ rest)
              else done)
            s).1.authenticated
          ≡ some u
        → Admitted E s (id ∷ rest) u
    go true c k =
        no_user E (Preauth.handle_service_request E (id ∷ rest) s).1 u
          ((service-NoAuth E (id ∷ rest)).keeps s h) k
    go false true k = handle_userauth_sound E s (id ∷ rest) u h k
    go false false k = no_user E s u h k
