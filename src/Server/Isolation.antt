-- ===== src/Server/Isolation.antt =====
-- server.rs: nothing of the connection protocol happens before a client is authenticated.
use ssh_bench.Common.{
  ℕ, zero, suc, ◌≡◌, refl, ap, ◌∙◌, subst, Bool, true, false, List, [], ◌∷◌, ◌++◌, Bytes, Option,
  none, some, if◌then◌else◌, arith,
}
use ssh_bench.Error.{Result}
use ssh_bench.Action.{Action, Keeps, bind-Keeps, then-Keeps, done-Keeps, ◌>>=◌, state}
use ssh_bench.Server.Ports.{Ports, Event, established, server_host_key, packet, disconnected}
use ssh_bench.Server.State
use ssh_bench.Server.State.{ServerConnection, ServerEvent, disconnect_event}
use ssh_bench.Server.Preauth
use ssh_bench.Server.Channels
use ssh_bench.Server.Pump
use ssh_bench.Server.PreauthFrame.{
  IsAuthFrame, is_auth_event, handle_preauth-Keeps, handle_userauth-Keeps, decide-Keeps,
  send_failure-Keeps,
}
use ssh_bench.Server.ConnectionFrame.{handle_connection-SameAuth}

-- Every event is one of authentication.
unfoldable pub all_auth : List ServerEvent → Bool
all_auth [] = true
all_auth (e ∷ es) = if is_auth_event e then all_auth es else false

all_auth-append :
    (es : List ServerEvent) (e : ServerEvent)
    → all_auth es ≡ true
    → is_auth_event e ≡ true
    → all_auth (es ++ (e ∷ [])) ≡ true
unfolding all_auth
all_auth-append [] e h k = rw (k) refl
all_auth-append (x ∷ es) e h k = ground (arith, all_auth-append es e, h, k)

-- No channel, no program, no reply owed, and no event of the connection protocol.
pub record Untouched (E : Ports) (s : ServerConnection E) : Type 0 where
  pub channel : s.channel ≡ none
  pub program_started : s.program_started ≡ false
  pub pending_reply : s.pending_reply ≡ false
  pub events : all_auth s.events ≡ true

Untouched-same :
    (E : Ports) (s s' : ServerConnection E)
    → s'.channel ≡ s.channel
    → s'.program_started ≡ s.program_started
    → s'.pending_reply ≡ s.pending_reply
    → s'.events ≡ s.events
    → Untouched E s
    → Untouched E s'
Untouched-same E s s' a b c d h = record {
  channel = a ∙ h.channel;
  program_started = b ∙ h.program_started;
  pending_reply = c ∙ h.pending_reply;
  events = ap all_auth d ∙ h.events;
}

Untouched-IsAuthFrame : (E : Ports) → IsAuthFrame E (Untouched E)
Untouched-IsAuthFrame E = record {
  on_transport = λ s t h. Untouched-same E s _ refl refl refl refl h;
  on_handler = λ s t h. Untouched-same E s _ refl refl refl refl h;
  on_banner = λ s t h. Untouched-same E s _ refl refl refl refl h;
  on_event = λ s e a h. record {
    channel = h.channel;
    program_started = h.program_started;
    pending_reply = h.pending_reply;
    events = all_auth-append s.events e h.events a;
  };
}

-- As long as no one is authenticated, all of it is untouched.
pub Guarded : (E : Ports) → ServerConnection E → Type 0
Guarded E s = s.authenticated ≡ none → Untouched E s

handle_preauth-Untouched :
    (E : Ports) (p : Bytes) → Keeps (Untouched E) (Preauth.handle_preauth E p)
handle_preauth-Untouched E = handle_preauth-Keeps E (Untouched E) frame (
    handle_userauth-Keeps E (Untouched E) frame
      (λ s n h. Untouched-same E s _ refl refl refl refl h)
      λ req.
        decide-Keeps E (Untouched E) frame
          (send_failure-Keeps E (Untouched E) frame
            λ s n h. Untouched-same E s _ refl refl refl refl h)
          (λ s u h. Untouched-same E s _ refl refl refl refl h) req req.method)
  where
    frame : IsAuthFrame E (Untouched E)
    frame = Untouched-IsAuthFrame E

handle_packet-Guarded : (E : Ports) (p : Bytes) → Keeps (Guarded E) (Pump.handle_packet E p)
unfolding Pump.handle_packet Pump.is_authenticated Guarded ◌>>=◌ state Pump.is_some
handle_packet-Guarded E p = record { keeps = λ s h. go s h s.authenticated refl }
  where
    go :
        (s : ServerConnection E)
        → Guarded E s
        → (o : Option Bytes) → s.authenticated ≡ o
        → Guarded E
            ((if Pump.is_some o then Channels.handle_connection E p else Preauth.handle_preauth E p)
              s).1
    go s h none e = λ _. (handle_preauth-Untouched E p).keeps s (h e)
    go s h (some u) e = λ n.
        let x : (Channels.handle_connection E p s).1.authenticated ≡ s.authenticated =
          (handle_connection-SameAuth E s p).authenticated in
        cc

call-Guarded :
    (E : Ports) {A : Type 0} (op : E.transport.Transport → Result A × E.transport.Transport)
    → Keeps (Guarded E) (State.call E op)
unfolding State.call Guarded
call-Guarded E op = record { keeps = λ s h n. (Untouched-IsAuthFrame E).on_transport s _ (h n) }

emit-Guarded :
    (E : Ports) (e : ServerEvent) → is_auth_event e ≡ true → Keeps (Guarded E) (State.emit E e)
unfolding State.emit Guarded
emit-Guarded E e a = record { keeps = λ s h n. (Untouched-IsAuthFrame E).on_event s e a (h n) }

handle_event-Guarded : (E : Ports) (e : Event E.ed25519) → Keeps (Guarded E) (Pump.handle_event E e)
unfolding Pump.handle_event is_auth_event
handle_event-Guarded E established = done-Keeps
handle_event-Guarded E (server_host_key k) = done-Keeps
handle_event-Guarded E (packet p) = handle_packet-Guarded E p
handle_event-Guarded E (disconnected n d) = emit-Guarded E (disconnect_event n d) refl

on_next-Guarded :
    (E : Ports) (e : Option (Event E.ed25519)) (rest : Action (ServerConnection E) (Unit {0}))
    → Keeps (Guarded E) rest
    → Keeps (Guarded E) (Pump.on_next E e rest)
unfolding Pump.on_next
on_next-Guarded E none rest h = done-Keeps
on_next-Guarded E (some e) rest h = then-Keeps (handle_event-Guarded E e) h

pump-Guarded : (E : Ports) (fuel : ℕ) → Keeps (Guarded E) (Pump.pump E fuel)
unfolding Pump.pump Pump.next_event
pump-Guarded E zero = done-Keeps
pump-Guarded E (suc fuel) =
    bind-Keeps (call-Guarded E _) λ e. on_next-Guarded E e (Pump.pump E fuel) (pump-Guarded E fuel)

on_input-Guarded : (E : Ports) (fuel : ℕ) (b : Bytes) → Keeps (Guarded E) (Pump.on_input E fuel b)
unfolding Pump.on_input
on_input-Guarded E fuel b = then-Keeps (call-Guarded E _) (pump-Guarded E fuel)

-- What a driver does with a connection that no event has come from yet: it passes on received
-- bytes, takes events off and sets whether terminals are granted.
pub data Call : Type 0 where
  on_input : (fuel : ℕ) → Bytes → Call
  set_allow_pty : Bool → Call
  poll_event : Call

abbrev pub perform : (E : Ports) → Call → ServerConnection E → ServerConnection E
perform E (on_input fuel b) s = (Pump.on_input E fuel b s).1
perform E (set_allow_pty b) s = record s { allow_pty = b }
perform E poll_event s = (State.poll_event E s).1

unfoldable pub perform_all : (E : Ports) → List Call → ServerConnection E → ServerConnection E
perform_all E [] s = s
perform_all E (c ∷ cs) s = perform_all E cs (perform E c s)

poll_event-Guarded :
    (E : Ports) (s : ServerConnection E) → Guarded E s → Guarded E (State.poll_event E s).1
unfolding State.poll_event State.pop_front Guarded all_auth
poll_event-Guarded E s h = go s.events refl
  where
    go : (es : List ServerEvent) → s.events ≡ es → Guarded E (State.pop_front E es s).1
    go [] e = h
    go (x ∷ rest) e = λ n. record {
      channel = (h n).channel;
      program_started = (h n).program_started;
      pending_reply = (h n).pending_reply;
      events = tail (subst (λ es. all_auth es ≡ true) e (h n).events);
    }
      where
        tail : all_auth (x ∷ rest) ≡ true → all_auth rest ≡ true
        tail a = ground (arith, a)

perform-Guarded :
    (E : Ports) (c : Call) (s : ServerConnection E) → Guarded E s → Guarded E (perform E c s)
unfolding Guarded
perform-Guarded E (on_input fuel b) s h = (on_input-Guarded E fuel b).keeps s h
perform-Guarded E (set_allow_pty b) s h = λ n. record {
  channel = (h n).channel;
  program_started = (h n).program_started;
  pending_reply = (h n).pending_reply;
  events = (h n).events;
}
perform-Guarded E poll_event s h = poll_event-Guarded E s h

perform_all-Guarded :
    (E : Ports) (cs : List Call) (s : ServerConnection E)
    → Guarded E s
    → Guarded E (perform_all E cs s)
unfolding perform_all
perform_all-Guarded E [] s h = h
perform_all-Guarded E (c ∷ cs) s h =
    perform_all-Guarded E cs (perform E c s) (perform-Guarded E c s h)

-- Whatever bytes a new server is given, in whatever pieces, and whatever the driver takes off it in
-- between: as long as no one is authenticated, it has no channel, has started no program, owes no
-- reply, and every event that it holds is one of authentication or the peer's disconnect.
pub no_connection_before_auth :
    (E : Ports) (t : E.transport.Transport) (a : E.auth.Handler) (cs : List Call)
    → (perform_all E cs (State.new E t a)).authenticated ≡ none
    → Untouched E (perform_all E cs (State.new E t a))
unfolding Guarded State.new all_auth
no_connection_before_auth E t a cs h =
    perform_all-Guarded E cs (State.new E t a)
      (λ _. record { channel = refl; program_started = refl; pending_reply = refl; events = refl })
      h
