-- ===== src/Connection/Messages.antt =====
-- The constants and the message builders of connection.rs. `recipient` is the peer's channel id.
use ssh_bench.Common.{ℕ, ◌*◌, ◌+◌, ◌==◌, Bool, false, [], ◌∷◌, Bytes, if◌then◌else◌, length}
use ssh_bench.Common.Text.{codes}
use ssh_bench.Msg
use ssh_bench.Wire.Writer.{◌▸◌, new, with_capacity, into_bytes, u8, u32, boolean, string}

abbrev pub default_window : ℕ
default_window = 1024 * 1024

abbrev pub max_packet : ℕ
max_packet = 32768

abbrev pub min_remote_max_packet : ℕ
min_remote_max_packet = 256

unfoldable pub channel_session : Bytes
channel_session = codes "session"

abbrev pub administratively_prohibited : ℕ
administratively_prohibited = 1

abbrev pub unknown_channel_type : ℕ
unknown_channel_type = 3

pub record PtyInfo : Type 0 where
  pub term : Bytes
  pub cols : ℕ
  pub rows : ℕ
  pub width_px : ℕ
  pub height_px : ℕ
  pub modes : Bytes

unfoldable pub channel_open_session : ℕ → Bytes
channel_open_session sender_channel = into_bytes (
    new
    ▸ u8 Msg.channel_open
    ▸ string channel_session
    ▸ u32 sender_channel
    ▸ u32 default_window
    ▸ u32 max_packet)

unfoldable pub channel_open_confirmation : ℕ → ℕ → Bytes
channel_open_confirmation recipient sender = into_bytes (
    new
    ▸ u8 Msg.channel_open_confirmation
    ▸ u32 recipient
    ▸ u32 sender
    ▸ u32 default_window
    ▸ u32 max_packet)

unfoldable pub channel_open_failure : ℕ → ℕ → Bytes → Bytes
channel_open_failure recipient reason description = into_bytes (
    new ▸ u8 Msg.channel_open_failure ▸ u32 recipient ▸ u32 reason ▸ string description ▸ string [])

unfoldable pub channel_request_exec : ℕ → Bool → Bytes → Bytes
channel_request_exec recipient want_reply command = into_bytes (
    new
    ▸ u8 Msg.channel_request
    ▸ u32 recipient
    ▸ string (codes "exec")
    ▸ boolean want_reply
    ▸ string command)

unfoldable pub channel_request_shell : ℕ → Bool → Bytes
channel_request_shell recipient want_reply =
    into_bytes
      (new ▸ u8 Msg.channel_request ▸ u32 recipient ▸ string (codes "shell") ▸ boolean want_reply)

unfoldable pub channel_request_pty : ℕ → Bool → PtyInfo → Bytes
channel_request_pty recipient want_reply pty = into_bytes (
    new
    ▸ u8 Msg.channel_request
    ▸ u32 recipient
    ▸ string (codes "pty-req")
    ▸ boolean want_reply
    ▸ string pty.term
    ▸ u32 pty.cols
    ▸ u32 pty.rows
    ▸ u32 pty.width_px
    ▸ u32 pty.height_px
    ▸ string (if length pty.modes == 0 then 0 ∷ [] else pty.modes))

unfoldable pub channel_request_window_change : ℕ → ℕ → ℕ → ℕ → ℕ → Bytes
channel_request_window_change recipient cols rows width_px height_px = into_bytes (
    new
    ▸ u8 Msg.channel_request
    ▸ u32 recipient
    ▸ string (codes "window-change")
    ▸ boolean false
    ▸ u32 cols
    ▸ u32 rows
    ▸ u32 width_px
    ▸ u32 height_px)

unfoldable pub channel_request_exit_status : ℕ → ℕ → Bytes
channel_request_exit_status recipient status = into_bytes (
    new
    ▸ u8 Msg.channel_request
    ▸ u32 recipient
    ▸ string (codes "exit-status")
    ▸ boolean false
    ▸ u32 status)

unfoldable pub channel_success : ℕ → Bytes
channel_success recipient = into_bytes (new ▸ u8 Msg.channel_success ▸ u32 recipient)

unfoldable pub channel_failure : ℕ → Bytes
channel_failure recipient = into_bytes (new ▸ u8 Msg.channel_failure ▸ u32 recipient)

abbrev pub channel_data_overhead : ℕ
channel_data_overhead = 1 + 4 + 4

abbrev pub channel_extended_data_overhead : ℕ
channel_extended_data_overhead = 1 + 4 + 4 + 4

unfoldable pub channel_data : ℕ → Bytes → Bytes
channel_data recipient bytes = into_bytes (
    with_capacity (channel_data_overhead + length bytes)
    ▸ u8 Msg.channel_data
    ▸ u32 recipient
    ▸ string bytes)

unfoldable pub channel_extended_data : ℕ → ℕ → Bytes → Bytes
channel_extended_data recipient data_type bytes = into_bytes (
    with_capacity (channel_extended_data_overhead + length bytes)
    ▸ u8 Msg.channel_extended_data
    ▸ u32 recipient
    ▸ u32 data_type
    ▸ string bytes)

unfoldable pub channel_window_adjust : ℕ → ℕ → Bytes
channel_window_adjust recipient bytes_to_add =
    into_bytes (new ▸ u8 Msg.channel_window_adjust ▸ u32 recipient ▸ u32 bytes_to_add)

unfoldable pub channel_eof : ℕ → Bytes
channel_eof recipient = into_bytes (new ▸ u8 Msg.channel_eof ▸ u32 recipient)

unfoldable pub channel_close : ℕ → Bytes
channel_close recipient = into_bytes (new ▸ u8 Msg.channel_close ▸ u32 recipient)
