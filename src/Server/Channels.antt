-- ===== src/Server/Channels.antt =====
-- server.rs after authentication: the messages of the connection protocol.
use ssh_bench.Common.{
  ℕ, ◌%◌, ◌^◌, Bool, true, false, not, [], ◌∷◌, Bytes, Option, none, some, ◌==◌, ltb, bytes_eq,
  if◌then◌else◌, length,
}
use ssh_bench.Common.Text.{codes}
use ssh_bench.Msg
use ssh_bench.Wire.Reader.{Reader}
use ssh_bench.Wire.Reader
use ssh_bench.Connection.Messages.{
  channel_session, unknown_channel_type, administratively_prohibited, min_remote_max_packet,
  channel_open_failure, channel_open_confirmation, channel_close,
}
use ssh_bench.Connection.Channel.{Channel, set_remote, consume_incoming, add_remote_window}
use ssh_bench.Connection.Channel
use ssh_bench.Action.{Action, ◌>>=◌, ◌>>◌, done, state, modify, lift}
use ssh_bench.Server.Ports.{Ports}
use ssh_bench.Server.State.{
  ServerConnection, channel_data_event, channel_eof_event, channel_close_event, local_channel, send,
  disconnect, emit, is_some_channel, remote_id,
}
use ssh_bench.Server.Fields.{OpenRequest, read_open, read_data, read_adjust, read_from}
use ssh_bench.Server.Output.{flush_channel}
use ssh_bench.Server.Requests.{handle_channel_request}

module _ (E : Ports) where
  abbrev pub Server : Type 0
  Server = ServerConnection E

  unfoldable pub refuse_open : ℕ → ℕ → Bytes → Action Server (Unit {0})
  refuse_open sender reason description = send E (channel_open_failure sender reason description)

  unfoldable pub open_channel : OpenRequest → Action Server (Unit {0})
  open_channel o =
      modify (λ s. record s {
        channel = some (set_remote o.sender o.window o.max_packet (Channel.new local_channel));
        program_started = false;
      })
      >> send E (channel_open_confirmation o.sender local_channel)

  unfoldable pub decide_open : OpenRequest → Action Server (Unit {0})
  unfolding refuse_open open_channel
  decide_open o = do
    s ← state
    if not (bytes_eq o.ch_type channel_session)
        then refuse_open o.sender unknown_channel_type (codes "only session channels are supported")
        else if is_some_channel E s.channel
        then refuse_open o.sender administratively_prohibited (codes "only one channel supported")
        else if ltb o.max_packet min_remote_max_packet
        then refuse_open o.sender administratively_prohibited
            (codes "maximum packet size too small")
        else open_channel o

  unfoldable pub handle_channel_open : Bytes → Action Server (Unit {0})
  unfolding decide_open
  handle_channel_open payload = lift (read_from read_open (Reader.new payload)) >>= decide_open

  -- Outcome of `consume_incoming` on the open channel.
  unfoldable pub deliver : Bytes → Channel × Bool → Action Server (Unit {0})
  deliver bytes (ch, fits) =
      if fits
      then (modify (λ s. record s { channel = some ch })
          >> emit E (channel_data_event local_channel bytes))
      else (modify (λ s. record s { channel = some ch })
          >> disconnect E Msg.reason_protocol_error (codes "channel window exceeded"))

  unfoldable pub receive_data : Bytes → Option Channel → Action Server (Unit {0})
  unfolding deliver
  receive_data bytes none = emit E (channel_data_event local_channel bytes)
  receive_data bytes (some ch) = deliver bytes (consume_incoming (length bytes % 2 ^ 32) ch)

  unfoldable pub handle_channel_data : Bytes → Action Server (Unit {0})
  unfolding receive_data
  handle_channel_data payload = lift (read_from read_data (Reader.new payload)) >>= λ bytes.
      state >>= λ s. receive_data bytes s.channel

  unfoldable pub widen : ℕ → Option Channel → Option Channel
  widen n none = none
  widen n (some ch) = some (add_remote_window n ch)

  unfoldable pub handle_window_adjust : Bytes → Action Server (Unit {0})
  unfolding widen
  handle_window_adjust payload = lift (read_from read_adjust (Reader.new payload)) >>= λ n.
      modify (λ s. record s { channel = widen n s.channel }) >> flush_channel E

  unfoldable pub answer_close : ℕ → Option Channel → Action Server (Unit {0})
  answer_close remote none = done
  answer_close remote (some ch) =
      if ch.sent_close
      then modify (λ s. record s { channel = some (record ch { recv_close = true }) })
      else (modify
            (λ s. record s { channel = some (record ch { recv_close = true; sent_close = true }) })
          >> send E (channel_close remote))

  unfoldable pub handle_channel_close : Action Server (Unit {0})
  unfolding answer_close
  handle_channel_close = state >>= λ s.
      answer_close (remote_id E s) s.channel
      >> (modify (λ s'. record s' { channel = none; program_started = false })
          >> emit E (channel_close_event local_channel))

  unfoldable pub handle_connection : Bytes → Action Server (Unit {0})
  unfolding handle_channel_open handle_channel_data handle_window_adjust handle_channel_close
  handle_connection [] = done
  handle_connection (id ∷ rest) =
      if id == Msg.channel_open
      then handle_channel_open (id ∷ rest)
      else if id == Msg.channel_request
      then handle_channel_request E (id ∷ rest)
      else if id == Msg.channel_data
      then handle_channel_data (id ∷ rest)
      else if id == Msg.channel_window_adjust
      then handle_window_adjust (id ∷ rest)
      else if id == Msg.channel_eof
      then emit E (channel_eof_event local_channel)
      else if id == Msg.channel_close
      then handle_channel_close
      else done
