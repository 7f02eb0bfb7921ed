-- ===== src/Server/Delivery.antt =====
-- server.rs: the data that a client sends on its channel.
use ssh_bench.Common.{ℕ, ◌-◌, Bool, true, false, [], ◌∷◌, ◌++◌, Bytes, some, length}
use ssh_bench.Common.Text.{codes}
use ssh_bench.Msg
use ssh_bench.Wire.BigEndian.{to_be}
use ssh_bench.Wire.Reader
use ssh_bench.Wire.Writer
use ssh_bench.Wire.RoundTrip.{string_bytes}
use ssh_bench.Connection.Messages
use ssh_bench.Connection.Channel.{Channel}
use ssh_bench.Server.Ports.{Ports}
use ssh_bench.Server.State.{ServerConnection, channel_data_event, local_channel}
use ssh_bench.Server.State
use ssh_bench.Server.Fields
use ssh_bench.Server.Channels

data_bytes : ℕ → Bytes → Bytes
data_bytes recipient bytes = (Msg.channel_data ∷ []) ++ (to_be 4 recipient ++ string_bytes bytes)

-- What becomes of data on a channel, by whether it fits the window.
abbrev pub delivered :
    (E : Ports) → ServerConnection E → Channel → Bytes → Bool → ServerConnection E
delivered E s ch bytes true = record s {
  channel = some (record ch { local_window = ch.local_window - length bytes });
  events = s.events ++ (channel_data_event local_channel bytes ∷ []);
}
delivered E s ch bytes false = record s {
  channel = some ch;
  transport =
      E.transport.disconnect Msg.reason_protocol_error (codes "channel window exceeded")
        s.transport;
}
