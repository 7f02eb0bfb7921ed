-- ===== src/Server/Fields.antt =====
-- The fields of the messages that server.rs reads, in the order it reads them.
use ssh_bench.Common.{ℕ, ◌^◌, ◌-◌, Bool, ◌||◌, Bytes, ltb, bytes_eq, if◌then◌else◌}
use ssh_bench.Common.Text.{codes}
use ssh_bench.Error.{Result, ok, err}
use ssh_bench.Wire.Reader.{Reader, Read, pure, ◌>>=◌, u8, u32, utf8, boolean, string}
use ssh_bench.Connection.Messages.{PtyInfo}

-- `u16::try_from(n).unwrap_or(u16::MAX)`
unfoldable pub clamp_u16 : ℕ → ℕ
clamp_u16 n = if ltb n (2 ^ 16) then n else 2 ^ 16 - 1

unfoldable pub request_exec : Bytes
request_exec = codes "exec"

unfoldable pub request_shell : Bytes
request_shell = codes "shell"

unfoldable pub request_subsystem : Bytes
request_subsystem = codes "subsystem"

unfoldable pub request_env : Bytes
request_env = codes "env"

unfoldable pub request_pty : Bytes
request_pty = codes "pty-req"

unfoldable pub request_window : Bytes
request_window = codes "window-change"

unfoldable pub is_program : Bytes → Bool
is_program request =
    bytes_eq request request_exec
    || (bytes_eq request request_shell || bytes_eq request request_subsystem)

unfoldable pub read_header : Read (Bytes × Bool)
read_header = do _ ← u8; _ ← u32; request ← utf8; want_reply ← boolean; pure (request, want_reply)

unfoldable pub read_pty : Read PtyInfo
read_pty = do
  term ← utf8
  cols ← u32
  rows ← u32
  width_px ← u32
  height_px ← u32
  modes ← string
  pure (record {
    term = term;
    cols = clamp_u16 cols;
    rows = clamp_u16 rows;
    width_px = width_px;
    height_px = height_px;
    modes = modes;
  })

unfoldable pub read_size : Read (ℕ × ℕ × ℕ × ℕ)
read_size = do
  cols ← u32
  rows ← u32
  width_px ← u32
  height_px ← u32
  pure (clamp_u16 cols, clamp_u16 rows, width_px, height_px)

-- A `Reader` method on what a reader has left.
unfoldable pub read_from : {A : Type 0} → Read A → Reader → Result A
read_from p r = elim (p r) [ ok (a, r') ↦ ok a | err e ↦ err e ]

pub record OpenRequest : Type 0 where
  pub ch_type : Bytes
  pub sender : ℕ
  pub window : ℕ
  pub max_packet : ℕ

unfoldable pub read_open : Read OpenRequest
read_open = do
  _ ← u8
  ch_type ← utf8
  sender ← u32
  window ← u32
  max_packet ← u32
  pure (record { ch_type = ch_type; sender = sender; window = window; max_packet = max_packet })

unfoldable pub read_data : Read Bytes
read_data = do _ ← u8; _ ← u32; string

unfoldable pub read_adjust : Read ℕ
read_adjust = do _ ← u8; _ ← u32; u32
