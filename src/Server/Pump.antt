-- ===== src/Server/Pump.antt =====
-- server.rs: what a connection does with the transport's events and with received bytes.
use ssh_bench.Common.{ℕ, zero, suc, Bool, true, false, Bytes, Option, none, some, if◌then◌else◌}
use ssh_bench.Error.{ok}
use ssh_bench.Action.{Action, ◌>>=◌, ◌>>◌, done, state}
use ssh_bench.Server.Ports.{Ports, Event, established, server_host_key, packet, disconnected}
use ssh_bench.Server.State.{ServerConnection, disconnect_event, call, emit}
use ssh_bench.Server.Preauth.{handle_preauth}
use ssh_bench.Server.Channels.{handle_connection}

unfoldable pub is_some : Option Bytes → Bool
is_some none = false
is_some (some u) = true

module _ (E : Ports) where
  abbrev pub Server : Type 0
  Server = ServerConnection E

  unfoldable pub is_authenticated : Server → Bool
  is_authenticated s = is_some s.authenticated

  unfoldable pub handle_packet : Bytes → Action Server (Unit {0})
  unfolding is_authenticated
  handle_packet payload = state >>= λ s.
      if is_authenticated s then handle_connection E payload else handle_preauth E payload

  unfoldable pub handle_event : Event E.ed25519 → Action Server (Unit {0})
  unfolding handle_packet
  handle_event established = done
  handle_event (server_host_key k) = done
  handle_event (packet payload) = handle_packet payload
  handle_event (disconnected reason description) = emit E (disconnect_event reason description)

  unfoldable pub next_event : Action Server (Option (Event E.ed25519))
  next_event = call E (λ t. let x = E.transport.poll_event t in (ok x.0, x.1))

  unfoldable pub on_next :
      Option (Event E.ed25519) → Action Server (Unit {0}) → Action Server (Unit {0})
  unfolding handle_event
  on_next none rest = done
  on_next (some e) rest = handle_event e >> rest

  -- The `while let` on the transport's events, for `fuel` of them at most.
  unfoldable pub pump : ℕ → Action Server (Unit {0})
  unfolding on_next next_event
  pump zero = done
  pump (suc fuel) = next_event >>= λ e. on_next e (pump fuel)

  unfoldable pub on_input : ℕ → Bytes → Action Server (Unit {0})
  unfolding pump
  on_input fuel bytes = call E (E.transport.receive bytes) >> pump fuel
