-- ===== src/Server/Requests.antt =====
-- server.rs: `handle_channel_request`.
use ssh_bench.Common.{
  ℕ, Bool, true, false, ◌&&◌, Bytes, Option, none, some, bytes_eq, if◌then◌else◌,
}
use ssh_bench.Wire.Reader.{Reader, Read, utf8}
use ssh_bench.Wire.Reader
use ssh_bench.Connection.Messages.{PtyInfo, channel_success, channel_failure}
use ssh_bench.Connection.Channel.{Channel, set_pty, update_pty_size}
use ssh_bench.Action.{Action, ◌>>=◌, ◌>>◌, done, state, modify, lift}
use ssh_bench.Server.Ports.{Ports}
use ssh_bench.Server.State.{
  ServerConnection, ServerEvent, exec_request, shell_request, subsystem_request, window_change,
  local_channel, send, emit, is_some_channel, remote_id,
}
use ssh_bench.Server.Fields.{
  request_exec, request_shell, request_subsystem, request_env, request_pty, request_window,
  is_program, read_header, read_pty, read_size, read_from,
}

unfoldable pub resize : (ℕ × ℕ × ℕ × ℕ) → Option Channel → Option Channel × Bool
resize size none = (none, false)
resize (cols, rows, width_px, height_px) (some ch) =
    let x = update_pty_size cols rows width_px height_px ch in (some x.0, x.1)

module _ (E : Ports) where
  abbrev pub Server : Type 0
  Server = ServerConnection E

  unfoldable pub reply : Bool → Bool → Action Server (Unit {0})
  reply want_reply success =
      if want_reply
      then (state >>= λ s.
          send E
            (if success then channel_success (remote_id E s) else channel_failure (remote_id E s)))
      else done

  unfoldable pub start_program : Bool → ServerEvent → Action Server (Unit {0})
  start_program want_reply event =
      modify (λ s. record s { pending_reply = want_reply; program_started = true }) >> emit E event

  unfoldable pub grant_pty : Bool → PtyInfo → Option Channel → Action Server (Unit {0})
  grant_pty granted pty none = done
  grant_pty granted pty (some ch) =
      if granted then modify (λ s. record s { channel = some (set_pty pty ch) }) else done

  unfoldable pub handle_pty : Bool → PtyInfo → Action Server (Unit {0})
  unfolding grant_pty reply
  handle_pty want_reply pty = do
    s ← state
    _ ← grant_pty (s.allow_pty && is_some_channel E s.channel) pty s.channel
    reply want_reply (s.allow_pty && is_some_channel E s.channel)

  unfoldable pub apply_size :
      Bool → (ℕ × ℕ × ℕ × ℕ) → Option Channel × Bool → Action Server (Unit {0})
  unfolding reply
  apply_size want_reply (cols, rows, width_px, height_px) (channel, applied) =
      modify (λ s. record s { channel = channel })
      >> ((if applied then emit E (window_change local_channel cols rows) else done)
          >> reply want_reply applied)

  unfoldable pub handle_window_change : Bool → (ℕ × ℕ × ℕ × ℕ) → Action Server (Unit {0})
  unfolding apply_size
  handle_window_change want_reply size =
      state >>= λ s. apply_size want_reply size (resize size s.channel)

  unfoldable pub dispatch : Bytes → Bool → Reader → Action Server (Unit {0})
  unfolding start_program handle_pty handle_window_change reply
  dispatch request want_reply r =
      if bytes_eq request request_exec
      then (lift (read_from utf8 r) >>= λ command.
          start_program want_reply (exec_request local_channel command))
      else if bytes_eq request request_shell
      then start_program want_reply (shell_request local_channel)
      else if bytes_eq request request_subsystem
      then (lift (read_from utf8 r) >>= λ name.
          start_program want_reply (subsystem_request local_channel name))
      else if bytes_eq request request_env
      then reply want_reply true
      else if bytes_eq request request_pty
      then (lift (read_from read_pty r) >>= handle_pty want_reply)
      else if bytes_eq request request_window
      then (lift (read_from read_size r) >>= handle_window_change want_reply)
      else reply want_reply false

  unfoldable pub one_program : (Bytes × Bool) × Reader → Action Server (Unit {0})
  unfolding dispatch
  one_program ((request, want_reply), r) = do
    s ← state
    if is_program request && s.program_started
        then reply want_reply false
        else dispatch request want_reply r

  unfoldable pub handle_channel_request : Bytes → Action Server (Unit {0})
  unfolding one_program
  handle_channel_request payload = lift (read_header (Reader.new payload)) >>= one_program
