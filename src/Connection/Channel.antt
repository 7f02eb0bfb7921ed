-- ===== src/Connection/Channel.antt =====
-- `Channel` of connection.rs: the state of one channel. `drain_output` returns what it hands to
-- `emit`, in order. Counters of bytes flushed (u64) do not come near their limit.
use ssh_bench.Common.{
  ℕ, zero, suc, ◌+◌, ◌-◌, ◌^◌, ◌/◌, min, max, Bool, true, false, ◌&&◌, ◌||◌, List, [], ◌∷◌, ◌++◌,
  Option, none, some, Bytes, ltb, leb, ◌==◌, if◌then◌else◌, length, take, drop,
}
use ssh_bench.Msg
use ssh_bench.Connection.Messages.{PtyInfo, default_window, channel_data, channel_extended_data}

pub record OutItem : Type 0 where
  pub ext : Bool
  pub buf : Bytes
  pub sent : ℕ

pub record Channel : Type 0 where
  pub local_id : ℕ
  pub remote_id : ℕ
  pub local_window : ℕ
  pub remote_window : ℕ
  pub remote_max_packet : ℕ
  pub unacked : ℕ
  pub flushed_out : ℕ
  pub out : List OutItem
  pub sent_eof : Bool
  pub sent_close : Bool
  pub recv_close : Bool
  pub exit_status : Option ℕ
  pub want_close : Bool
  pub want_eof : Bool
  pub pty : Option PtyInfo

abbrev pub u32_max : ℕ
u32_max = 2 ^ 32 - 1

-- `u32::saturating_add`
abbrev pub saturating_add : ℕ → ℕ → ℕ
saturating_add a b = min (a + b) u32_max

unfoldable pub new : ℕ → Channel
new local_id = record {
  local_id = local_id;
  remote_id = 0;
  local_window = default_window;
  remote_window = 0;
  remote_max_packet = 0;
  unacked = 0;
  flushed_out = 0;
  out = [];
  sent_eof = false;
  sent_close = false;
  recv_close = false;
  exit_status = none;
  want_close = false;
  want_eof = false;
  pty = none;
}

unfoldable pub set_pty : PtyInfo → Channel → Channel
set_pty pty ch = record ch { pty = some pty }

unfoldable pub update_pty_size : ℕ → ℕ → ℕ → ℕ → Channel → Channel × Bool
update_pty_size cols rows width_px height_px ch = elim ch.pty [
  | some pty ↦ (
    record ch {
      pty =
          some
            (record pty { cols = cols; rows = rows; width_px = width_px; height_px = height_px });
    },
    true,
  )
  | none ↦ (ch, false)
]

unfoldable pub request_close : Channel → Channel
request_close ch = record ch { want_close = true }

unfoldable pub request_eof : Channel → Channel
request_eof ch = record ch { want_eof = true }

unfoldable pub set_remote : ℕ → ℕ → ℕ → Channel → Channel
set_remote remote_id remote_window remote_max_packet ch = record ch {
  remote_id = remote_id;
  remote_window = remote_window;
  remote_max_packet = max remote_max_packet 1;
}

unfoldable pub enqueue : Bool → Bytes → Channel → Channel
enqueue ext [] ch = ch
enqueue ext (b ∷ bs) ch = record ch {
  out = ch.out ++ record { ext = ext; buf = b ∷ bs; sent = 0 } ∷ [];
}

unfoldable pub enqueue_stdout : Bytes → Channel → Channel
unfolding enqueue
enqueue_stdout = enqueue false

unfoldable pub enqueue_stderr : Bytes → Channel → Channel
unfolding enqueue
enqueue_stderr = enqueue true

unfoldable pub add_remote_window : ℕ → Channel → Channel
add_remote_window n ch = record ch { remote_window = saturating_add ch.remote_window n }

unfoldable pub out_is_empty : Channel → Bool
out_is_empty ch = length ch.out == 0

-- The size of the next message's data at most.
abbrev pub limit_of : Option ℕ → ℕ → ℕ → ℕ
limit_of none window max_packet = min window max_packet
limit_of (some mc) window max_packet = min (min window max_packet) (max mc 1)

abbrev pub message : ℕ → Bool → Bytes → Bytes
message remote_id ext chunk =
    if ext
    then channel_extended_data remote_id Msg.data_stderr chunk
    else channel_data remote_id chunk

-- The bytes of a queue that have not been emitted, and its items.
unfoldable pub queued : List OutItem → ℕ
queued [] = 0
queued (i ∷ is) = 1 + (length i.buf - i.sent) + queued is

-- One round of the `while let` on the front item: the channel after it and the message.
unfoldable pub drain_front : ℕ → OutItem → List OutItem → Channel → Channel × Bytes
drain_front limit front rest ch =
    let n = min (length front.buf - front.sent) limit in
    let chunk = take n (drop front.sent front.buf) in
    let sent = front.sent + n in
    (
      record ch {
        out = if sent == length front.buf then rest else record front { sent = sent } ∷ rest;
        remote_window = ch.remote_window - n;
        flushed_out = ch.flushed_out + n;
      },
      message ch.remote_id front.ext chunk,
    )

-- Each round that emits takes a byte or an item off the queue.
unfoldable pub drain_loop : ℕ → Option ℕ → List OutItem → Channel → Channel × List Bytes
unfolding drain_front
drain_loop zero max_chunk queue ch = (ch, [])
drain_loop (suc fuel) max_chunk [] ch = (ch, [])
drain_loop (suc fuel) max_chunk (front ∷ rest) ch =
    let limit = limit_of max_chunk ch.remote_window ch.remote_max_packet in
    let round = drain_front limit front rest ch in
    let more = drain_loop fuel max_chunk round.0.out round.0 in
    if limit == 0 then (ch, []) else (more.0, round.1 ∷ more.1)

unfoldable pub drain_output : Option ℕ → Channel → Channel × List Bytes
drain_output max_chunk ch = drain_loop (suc (queued ch.out)) max_chunk ch.out ch

unfoldable pub consume_incoming : ℕ → Channel → Channel × Bool
consume_incoming len ch =
    if ltb ch.local_window len
    then (ch, false)
    else (record ch { local_window = ch.local_window - len }, true)

unfoldable pub ack_incoming : ℕ → Channel → Channel × Option ℕ
ack_incoming len ch =
    let outstanding = default_window - ch.local_window in
    let unacked = min (saturating_add ch.unacked len) outstanding in
    if leb (default_window / 2) unacked || ch.local_window == 0 && ltb 0 unacked
    then (record ch { unacked = 0; local_window = ch.local_window + unacked }, some unacked)
    else (record ch { unacked = unacked }, none)

unfoldable pub take_flushed_out : Channel → Channel × ℕ
take_flushed_out ch = (record ch { flushed_out = 0 }, ch.flushed_out)
