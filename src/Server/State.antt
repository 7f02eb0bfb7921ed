-- ===== src/Server/State.antt =====
-- `ServerConnection` and `ServerEvent` of server.rs, and the calls its handlers are made of.
use ssh_bench.Common.{ℕ, Bool, true, false, List, [], ◌∷◌, ◌++◌, Bytes, Option, none, some}
use ssh_bench.Error.{Result, ok}
use ssh_bench.Connection.Channel.{Channel}
use ssh_bench.Action.{Action}
use ssh_bench.Server.Ports.{Ports}

pub data ServerEvent : Type 0 where
  authenticated_event : Bytes → ServerEvent
  exec_request : ℕ → Bytes → ServerEvent
  shell_request : ℕ → ServerEvent
  subsystem_request : ℕ → Bytes → ServerEvent
  window_change : ℕ → ℕ → ℕ → ServerEvent
  channel_data_event : ℕ → Bytes → ServerEvent
  channel_eof_event : ℕ → ServerEvent
  channel_close_event : ℕ → ServerEvent
  disconnect_event : ℕ → Bytes → ServerEvent
  auth_exhausted : ServerEvent

abbrev pub local_channel : ℕ
local_channel = 0

module _ (E : Ports) where
  pub record ServerConnection : Type 0 where
    pub transport : E.transport.Transport
    pub handler : E.auth.Handler
    pub authenticated : Option Bytes
    pub banner_sent : Bool
    pub channel : Option Channel
    pub pending_reply : Bool
    pub allow_pty : Bool
    pub auth_failures : ℕ
    pub auth_requests : ℕ
    pub program_started : Bool
    pub events : List ServerEvent

  unfoldable pub new : E.transport.Transport → E.auth.Handler → ServerConnection
  new transport handler = record {
    transport = transport;
    handler = handler;
    authenticated = none;
    banner_sent = false;
    channel = none;
    pending_reply = false;
    allow_pty = false;
    auth_failures = 0;
    auth_requests = 0;
    program_started = false;
    events = [];
  }

  -- A call of the transport.
  unfoldable pub call :
      {A : Type 0}
      → (E.transport.Transport → Result A × E.transport.Transport)
      → Action ServerConnection A
  call op s = let x = op s.transport in (x.0, record s { transport = x.1 })

  unfoldable pub send : Bytes → Action ServerConnection (Unit {0})
  unfolding call
  send p = call (E.transport.send_packet p)

  unfoldable pub disconnect : ℕ → Bytes → Action ServerConnection (Unit {0})
  disconnect reason description s =
      (ok tt, record s { transport = E.transport.disconnect reason description s.transport })

  -- `events.push_back`
  unfoldable pub emit : ServerEvent → Action ServerConnection (Unit {0})
  emit e s = (ok tt, record s { events = s.events ++ (e ∷ []) })

  -- `events.pop_front`
  unfoldable pub pop_front :
      List ServerEvent → ServerConnection → Option ServerEvent × ServerConnection
  pop_front [] s = (none, s)
  pop_front (e ∷ es) s = (some e, record s { events = es })

  unfoldable pub poll_event : ServerConnection → Option ServerEvent × ServerConnection
  unfolding pop_front
  poll_event s = pop_front s.events s

  unfoldable pub is_some_channel : Option Channel → Bool
  is_some_channel none = false
  is_some_channel (some ch) = true

  unfoldable pub remote_of : Option Channel → ℕ
  remote_of none = 0
  remote_of (some ch) = ch.remote_id

  unfoldable pub remote_id : ServerConnection → ℕ
  remote_id s = remote_of s.channel
