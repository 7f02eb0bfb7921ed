-- ===== src/Server/Attempts.antt =====
-- server.rs: the caps on failed attempts and on requests before authentication.
use ssh_bench.Common.{
  ℕ, ◌+◌, ◌%◌, ◌^◌, ◌≤◌, ◌<◌, ◌≡◌, refl, Bool, true, false, Bool-cases, inl, inr, leb, ltb, List,
  [], ◌∷◌, ◌++◌, Bytes, Option, arith,
}
use ssh_bench.Auth.Request
use ssh_bench.Action.{Keeps, bind-Keeps, lift-Keeps, ◌>>=◌, ◌>>◌, state, modify}
use ssh_bench.Server.Ports.{Ports}
use ssh_bench.Server.State
use ssh_bench.Server.State.{
  ServerConnection, ServerEvent, authenticated_event, auth_exhausted, disconnect_event,
  exec_request, shell_request, subsystem_request, window_change, channel_data_event,
  channel_eof_event, channel_close_event,
}
use ssh_bench.Server.Preauth
use ssh_bench.Server.PreauthFrame.{IsAuthFrame, handle_preauth-Keeps, decide-Keeps}

-- The driver has been told that authentication is over.
unfoldable pub exhausted : List ServerEvent → Bool
exhausted [] = false
exhausted (auth_exhausted ∷ es) = true
exhausted (authenticated_event u ∷ es) = exhausted es
exhausted (exec_request c b ∷ es) = exhausted es
exhausted (shell_request c ∷ es) = exhausted es
exhausted (subsystem_request c b ∷ es) = exhausted es
exhausted (window_change c m n ∷ es) = exhausted es
exhausted (channel_data_event c b ∷ es) = exhausted es
exhausted (channel_eof_event c ∷ es) = exhausted es
exhausted (channel_close_event c ∷ es) = exhausted es
exhausted (disconnect_event n d ∷ es) = exhausted es

exhausted-grow : (es fs : List ServerEvent) → exhausted es ≡ true → exhausted (es ++ fs) ≡ true
unfolding exhausted
exhausted-grow [] fs h = absurd (ground (arith, h))
exhausted-grow (auth_exhausted ∷ es) fs h = refl
exhausted-grow (authenticated_event u ∷ es) fs h = exhausted-grow es fs h
exhausted-grow (exec_request c b ∷ es) fs h = exhausted-grow es fs h
exhausted-grow (shell_request c ∷ es) fs h = exhausted-grow es fs h
exhausted-grow (subsystem_request c b ∷ es) fs h = exhausted-grow es fs h
exhausted-grow (window_change c m n ∷ es) fs h = exhausted-grow es fs h
exhausted-grow (channel_data_event c b ∷ es) fs h = exhausted-grow es fs h
exhausted-grow (channel_eof_event c ∷ es) fs h = exhausted-grow es fs h
exhausted-grow (channel_close_event c ∷ es) fs h = exhausted-grow es fs h
exhausted-grow (disconnect_event n d ∷ es) fs h = exhausted-grow es fs h

exhausted_last : (es : List ServerEvent) → exhausted (es ++ (auth_exhausted ∷ [])) ≡ true
unfolding exhausted
exhausted_last [] = refl
exhausted_last (auth_exhausted ∷ es) = refl
exhausted_last (authenticated_event u ∷ es) = exhausted_last es
exhausted_last (exec_request c b ∷ es) = exhausted_last es
exhausted_last (shell_request c ∷ es) = exhausted_last es
exhausted_last (subsystem_request c b ∷ es) = exhausted_last es
exhausted_last (window_change c m n ∷ es) = exhausted_last es
exhausted_last (channel_data_event c b ∷ es) = exhausted_last es
exhausted_last (channel_eof_event c ∷ es) = exhausted_last es
exhausted_last (channel_close_event c ∷ es) = exhausted_last es
exhausted_last (disconnect_event n d ∷ es) = exhausted_last es

-- A counter at its cap has been reported.
pub record Capped (E : Ports) (attempts requests : ℕ) (s : ServerConnection E) : Type 0 where
  pub on_attempts : attempts ≤ s.auth_failures → exhausted s.events ≡ true
  pub on_requests : requests < s.auth_requests → exhausted s.events ≡ true

-- The policy's caps do not change.
pub record IsSteady (E : Ports) (attempts requests : ℕ) : Type 0 where
  pub attempts_fixed : (h : E.auth.Handler) → E.auth.max_auth_attempts h ≡ attempts
  pub requests_fixed : (h : E.auth.Handler) → E.auth.max_auth_requests h ≡ requests

module _ (E : Ports) (attempts requests : ℕ) (steady : IsSteady E attempts requests) where
  P : ServerConnection E → Type 0
  P = Capped E attempts requests

  frame : IsAuthFrame E P
  unfolding P
  frame = record {
    on_transport = λ s t h. record { on_attempts = h.on_attempts; on_requests = h.on_requests };
    on_handler = λ s t h. record { on_attempts = h.on_attempts; on_requests = h.on_requests };
    on_banner = λ s t h. record { on_attempts = h.on_attempts; on_requests = h.on_requests };
    on_event = λ s e a h. record {
      on_attempts = λ n. exhausted-grow s.events (e ∷ []) (h.on_attempts n);
      on_requests = λ n. exhausted-grow s.events (e ∷ []) (h.on_requests n);
    };
  }

  failure-Capped : Keeps P (Preauth.send_failure E)
  unfolding Preauth.send_failure ◌>>=◌ ◌>>◌ modify state P State.disconnect State.emit State.send
      State.call
  failure-Capped = record {
    keeps = λ s h.
        let n : ℕ = (s.auth_failures + 1) % 2 ^ 32 in
        elim (Bool-cases (leb (E.auth.max_auth_attempts s.handler) n)) [
          | inl full ↦ rw (full) (record {
            on_attempts = λ k. exhausted_last s.events;
            on_requests = λ k. exhausted_last s.events;
          })
          | inr room ↦ rw (room) (record {
            on_attempts = λ k. absurd (ground (arith, room, k, steady.attempts_fixed s.handler));
            on_requests = h.on_requests;
          })
        ];
  }

  grant-Capped :
      (s : ServerConnection E) (u : Option Bytes) → P s → P (record s { authenticated = u })
  unfolding P
  grant-Capped s u h = record { on_attempts = h.on_attempts; on_requests = h.on_requests }

  handle_userauth-Capped : (p : Bytes) → Keeps P (Preauth.handle_userauth E p)
  unfolding Preauth.handle_userauth ◌>>=◌ ◌>>◌ modify state P State.disconnect State.emit
  handle_userauth-Capped p = record {
    keeps = λ s h.
        let n : ℕ = (s.auth_requests + 1) % 2 ^ 32 in
        elim (Bool-cases (ltb (E.auth.max_auth_requests s.handler) n)) [
          | inl full ↦ rw (full) (record {
            on_attempts = λ k. exhausted_last s.events;
            on_requests = λ k. exhausted_last s.events;
          })
          | inr room ↦ rw (room) (
              (bind-Keeps (lift-Keeps (Request.parse p))
                  λ req. decide-Keeps E P frame failure-Capped grant-Capped req req.method).keeps
                (record s { auth_requests = n })
                (record {
                  on_attempts = h.on_attempts;
                  on_requests =
                      λ k. absurd (ground (arith, room, k, steady.requests_fixed s.handler));
                }))
        ];
  }

-- The packets in order, also behind one that is answered with an error.
unfoldable pub handle_all : (E : Ports) → List Bytes → ServerConnection E → ServerConnection E
handle_all E [] s = s
handle_all E (p ∷ ps) s = handle_all E ps (Preauth.handle_preauth E p s).1

handle_all-Capped :
    (E : Ports) (attempts requests : ℕ) (ps : List Bytes) (s : ServerConnection E)
    → IsSteady E attempts requests
    → Capped E attempts requests s
    → Capped E attempts requests (handle_all E ps s)
unfolding handle_all P
handle_all-Capped E attempts requests [] s steady h = h
handle_all-Capped E attempts requests (p ∷ ps) s steady h =
    handle_all-Capped E attempts requests ps (Preauth.handle_preauth E p s).1 steady (
      (handle_preauth-Keeps E (P E attempts requests steady) (frame E attempts requests steady)
          (handle_userauth-Capped E attempts requests steady) p).keeps
        s h)

-- Whatever packets a new server handles before authentication, for a policy whose caps are fixed
-- and whose cap on failed attempts is not zero: once the failures have reached that cap, or the
-- requests have passed theirs, the driver has been given the event that authentication is over.
pub exhaustion_reported :
    (E : Ports) (attempts requests : ℕ) (t : E.transport.Transport) (a : E.auth.Handler)
    (packets : List Bytes)
    → IsSteady E attempts requests
    → 0 < attempts
    → Capped E attempts requests (handle_all E packets (State.new E t a))
unfolding State.new
exhaustion_reported E attempts requests t a packets steady h =
    handle_all-Capped E attempts requests packets (State.new E t a) steady
      (record { on_attempts = λ k. absurd (omega arith); on_requests = λ k. absurd (omega arith) })
