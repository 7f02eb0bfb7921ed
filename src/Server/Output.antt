-- ===== src/Server/Output.antt =====
-- server.rs: the output of a channel's program on its way to the transport, and the calls of the
-- driver that cause it.
use ssh_bench.Common.{
  ℕ, Bool, true, false, not, ◌&&◌, List, [], ◌∷◌, Bytes, Option, none, some, ◌==◌, if◌then◌else◌,
}
use ssh_bench.Error.{ok}
use ssh_bench.Connection.Messages.{
  channel_window_adjust, channel_request_exit_status, channel_eof, channel_close, channel_success,
  channel_failure,
}
use ssh_bench.Connection.Channel.{
  Channel, enqueue_stdout, enqueue_stderr, request_close, drain_output, out_is_empty, ack_incoming,
  take_flushed_out,
}
use ssh_bench.Action.{Action, ◌>>=◌, ◌>>◌, done, lift, state, modify}
use ssh_bench.Server.Ports.{Ports}
use ssh_bench.Server.State.{ServerConnection, call, send, remote_id}

unfoldable pub unwrap_or_zero : Option ℕ → ℕ
unwrap_or_zero none = 0
unwrap_or_zero (some n) = n

-- `Option::filter` on the local id.
unfoldable pub channel_for : ℕ → Option Channel → Option Channel
channel_for id none = none
channel_for id (some ch) = if ch.local_id == id then some ch else none

unfoldable pub not_empty : List Bytes → Bool
not_empty [] = false
not_empty (p ∷ ps) = true

module _ (E : Ports) where
  abbrev pub Server : Type 0
  Server = ServerConnection E

  unfoldable pub set_channel : Channel → Action Server (Unit {0})
  set_channel ch = modify (λ s. record s { channel = some ch })

  -- The messages in order, up to the first that is refused.
  unfoldable pub send_all : List Bytes → Action Server (Unit {0})
  send_all [] = done
  send_all (p ∷ ps) = send E p >> send_all ps

  unfoldable pub chaff_burst : Bool → Action Server (Unit {0})
  chaff_burst sent_any = if sent_any then call E E.transport.send_chaff_burst else done

  unfoldable pub finish_close : Channel → Action Server (Unit {0})
  finish_close ch =
      if out_is_empty ch && (ch.want_close && not ch.sent_close)
      then (set_channel (record ch { sent_eof = true; sent_close = true })
          >> (send E (channel_request_exit_status ch.remote_id (unwrap_or_zero ch.exit_status))
              >> (send E (channel_eof ch.remote_id) >> send E (channel_close ch.remote_id))))
      else done

  unfoldable pub flush_drained : Channel × List Bytes → Action Server (Unit {0})
  unfolding send_all chaff_burst finish_close
  flush_drained (ch, messages) =
      set_channel ch >> (send_all messages >> (chaff_burst (not_empty messages) >> finish_close ch))

  unfoldable pub flush : Option Channel → Option ℕ → Action Server (Unit {0})
  unfolding flush_drained
  flush none max_chunk = done
  flush (some ch) max_chunk = flush_drained (drain_output max_chunk ch)

  unfoldable pub flush_channel : Action Server (Unit {0})
  unfolding flush
  flush_channel = state >>= λ s. flush s.channel (E.transport.max_chunk s.transport)

  -- `if let Some(ch) = self.channel_for(channel)`
  unfoldable pub on_channel : (Channel → Channel) → Option Channel → Action Server (Unit {0})
  on_channel f none = done
  on_channel f (some ch) = set_channel (f ch)

  unfoldable pub channel_stdout : ℕ → Bytes → Action Server (Unit {0})
  unfolding on_channel flush_channel
  channel_stdout channel bytes = do
    s ← state
    _ ← on_channel (enqueue_stdout bytes) (channel_for channel s.channel)
    flush_channel

  unfoldable pub channel_stderr : ℕ → Bytes → Action Server (Unit {0})
  unfolding on_channel flush_channel
  channel_stderr channel bytes = do
    s ← state
    _ ← on_channel (enqueue_stderr bytes) (channel_for channel s.channel)
    flush_channel

  unfoldable pub channel_exit : ℕ → ℕ → Action Server (Unit {0})
  unfolding on_channel flush_channel
  channel_exit channel status = do
    s ← state
    _ ←
        on_channel (λ ch. request_close (record ch { exit_status = some status }))
          (channel_for channel s.channel)
    flush_channel

  unfoldable pub send_adjust : ℕ → Option ℕ → Action Server (Unit {0})
  send_adjust remote none = done
  send_adjust remote (some add) = send E (channel_window_adjust remote add)

  unfoldable pub consumed : ℕ → Option Channel → Action Server (Unit {0})
  unfolding send_adjust
  consumed len none = done
  consumed len (some ch) =
      let x = ack_incoming len ch in set_channel x.0 >> send_adjust ch.remote_id x.1

  unfoldable pub channel_consumed : ℕ → ℕ → Action Server (Unit {0})
  unfolding consumed
  channel_consumed channel len = state >>= λ s. consumed len (channel_for channel s.channel)

  unfoldable pub flushed : Option Channel → Action Server ℕ
  flushed none = lift (ok 0)
  flushed (some ch) = let x = take_flushed_out ch in set_channel x.0 >> lift (ok x.1)

  unfoldable pub take_flushed_output : ℕ → Action Server ℕ
  unfolding flushed
  take_flushed_output channel = state >>= λ s. flushed (channel_for channel s.channel)

  -- `core::mem::take(&mut self.pending_reply)`
  unfoldable pub take_pending : Action Server Bool
  take_pending = do
    s ← state
    _ ← modify (λ s'. record s' { pending_reply = false })
    lift (ok s.pending_reply)

  unfoldable pub accept_channel : ℕ → Action Server (Unit {0})
  unfolding take_pending
  accept_channel channel = do
    pending ← take_pending
    s ← state
    if pending then send E (channel_success (remote_id E s)) else done

  unfoldable pub reject_channel : ℕ → Action Server (Unit {0})
  unfolding take_pending
  reject_channel channel = do
    pending ← take_pending
    s ← state
    if pending then send E (channel_failure (remote_id E s)) else done
