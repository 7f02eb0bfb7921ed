-- ===== src/Server/Frame.antt =====
-- What the connection protocol and the driver's calls of server.rs leave alone.
use ssh_bench.Common.{
  ℕ, Bool, ◌&&◌, not, bytes_eq, true, false, List, [], ◌∷◌, Bytes, Option, none, some,
}
use ssh_bench.Error.{Result}
use ssh_bench.Connection.Channel.{Channel, out_is_empty}
use ssh_bench.Wire.Reader.{Reader}
use ssh_bench.Connection.Messages.{PtyInfo}
use ssh_bench.Action.{
  Keeps, bind-Keeps, then-Keeps, lift-Keeps, done-Keeps, state-Keeps, modify-Keeps, if-Keeps,
}
use ssh_bench.Server.Ports.{Ports}
use ssh_bench.Server.State
use ssh_bench.Server.State.{ServerConnection, ServerEvent}
use ssh_bench.Server.Fields
use ssh_bench.Server.Output
use ssh_bench.Server.Requests

-- A predicate that the parts of the state that belong to the channel do not matter to.
pub record IsFrame (E : Ports) (P : ServerConnection E → Type 0) : Type 0 where
  pub on_transport :
      (s : ServerConnection E) (t : E.transport.Transport) → P s → P (record s { transport = t })
  pub on_events :
      (s : ServerConnection E) (es : List ServerEvent) → P s → P (record s { events = es })
  pub on_channel :
      (s : ServerConnection E) (c : Option Channel) → P s → P (record s { channel = c })
  pub on_pending : (s : ServerConnection E) (b : Bool) → P s → P (record s { pending_reply = b })
  pub on_program : (s : ServerConnection E) (b : Bool) → P s → P (record s { program_started = b })

module _ (E : Ports) (P : ServerConnection E → Type 0) (f : IsFrame E P) where
  pub call-Keeps :
      {A : Type 0} (op : E.transport.Transport → Result A × E.transport.Transport)
      → Keeps P (State.call E op)
  unfolding State.call
  call-Keeps op = record { keeps = λ s h. f.on_transport s _ h }

  pub send-Keeps : (p : Bytes) → Keeps P (State.send E p)
  unfolding State.send
  send-Keeps p = call-Keeps _

  pub disconnect-Keeps : (n : ℕ) (d : Bytes) → Keeps P (State.disconnect E n d)
  unfolding State.disconnect
  disconnect-Keeps n d = record { keeps = λ s h. f.on_transport s _ h }

  pub emit-Keeps : (e : ServerEvent) → Keeps P (State.emit E e)
  unfolding State.emit
  emit-Keeps e = record { keeps = λ s h. f.on_events s _ h }

  send_all-Keeps : (ps : List Bytes) → Keeps P (Output.send_all E ps)
  unfolding Output.send_all
  send_all-Keeps [] = done-Keeps
  send_all-Keeps (p ∷ ps) = then-Keeps (send-Keeps p) (send_all-Keeps ps)

  chaff_burst-Keeps : (b : Bool) → Keeps P (Output.chaff_burst E b)
  unfolding Output.chaff_burst
  chaff_burst-Keeps b = if-Keeps b (call-Keeps _) done-Keeps

  pub set_channel-Keeps : (ch : Channel) → Keeps P (Output.set_channel E ch)
  unfolding Output.set_channel
  set_channel-Keeps ch = modify-Keeps _ (λ s h. f.on_channel s _ h)

  finish_close-Keeps : (ch : Channel) → Keeps P (Output.finish_close E ch)
  unfolding Output.finish_close
  finish_close-Keeps ch =
      if-Keeps (out_is_empty ch && (ch.want_close && not ch.sent_close))
        (then-Keeps (set_channel-Keeps _)
          (then-Keeps (send-Keeps _) (then-Keeps (send-Keeps _) (send-Keeps _))))
        (done-Keeps)

  flush-Keeps : (c : Option Channel) (m : Option ℕ) → Keeps P (Output.flush E c m)
  unfolding Output.flush Output.flush_drained
  flush-Keeps none m = done-Keeps
  flush-Keeps (some ch) m =
      then-Keeps (set_channel-Keeps _)
        (then-Keeps (send_all-Keeps _) (then-Keeps (chaff_burst-Keeps _) (finish_close-Keeps _)))

  pub flush_channel-Keeps : Keeps P (Output.flush_channel E)
  unfolding Output.flush_channel
  flush_channel-Keeps =
      bind-Keeps state-Keeps λ s. flush-Keeps s.channel (E.transport.max_chunk s.transport)

  reply-Keeps : (w b : Bool) → Keeps P (Requests.reply E w b)
  unfolding Requests.reply
  reply-Keeps w b = if-Keeps w (bind-Keeps state-Keeps λ s. send-Keeps _) done-Keeps

  start_program-Keeps : (w : Bool) (e : ServerEvent) → Keeps P (Requests.start_program E w e)
  unfolding Requests.start_program
  start_program-Keeps w e =
      then-Keeps (modify-Keeps _ (λ s h. f.on_program _ _ (f.on_pending s _ h))) (emit-Keeps e)

  grant_pty-Keeps :
      (b : Bool) (p : PtyInfo) (c : Option Channel) → Keeps P (Requests.grant_pty E b p c)
  unfolding Requests.grant_pty
  grant_pty-Keeps b p none = done-Keeps
  grant_pty-Keeps b p (some ch) = if-Keeps b (modify-Keeps _ (λ s h. f.on_channel s _ h)) done-Keeps

  handle_pty-Keeps : (w : Bool) (p : PtyInfo) → Keeps P (Requests.handle_pty E w p)
  unfolding Requests.handle_pty
  handle_pty-Keeps w p =
      bind-Keeps state-Keeps λ s. bind-Keeps (grant_pty-Keeps _ p s.channel) λ _. reply-Keeps w _

  apply_size-Keeps :
      (w : Bool) (size : ℕ × ℕ × ℕ × ℕ) (x : Option Channel × Bool)
      → Keeps P (Requests.apply_size E w size x)
  unfolding Requests.apply_size
  apply_size-Keeps w (c, r, wp, hp) (channel, applied) =
      then-Keeps (modify-Keeps _ (λ s h. f.on_channel s _ h))
        (then-Keeps (if-Keeps applied (emit-Keeps _) done-Keeps) (reply-Keeps w applied))

  handle_window_change-Keeps :
      (w : Bool) (size : ℕ × ℕ × ℕ × ℕ) → Keeps P (Requests.handle_window_change E w size)
  unfolding Requests.handle_window_change
  handle_window_change-Keeps w size =
      bind-Keeps state-Keeps λ s. apply_size-Keeps w size (Requests.resize size s.channel)

  dispatch-Keeps : (n : Bytes) (w : Bool) (r : Reader) → Keeps P (Requests.dispatch E n w r)
  unfolding Requests.dispatch
  dispatch-Keeps n w r =
      if-Keeps (bytes_eq n Fields.request_exec)
        (bind-Keeps (lift-Keeps _) λ c. start_program-Keeps w _)
        (if-Keeps (bytes_eq n Fields.request_shell) (start_program-Keeps w _) (
          if-Keeps (bytes_eq n Fields.request_subsystem)
            (bind-Keeps (lift-Keeps _) λ c. start_program-Keeps w _)
            (if-Keeps (bytes_eq n Fields.request_env) (reply-Keeps w true) (
              if-Keeps (bytes_eq n Fields.request_pty)
                (bind-Keeps (lift-Keeps _) (handle_pty-Keeps w))
                (if-Keeps (bytes_eq n Fields.request_window)
                  (bind-Keeps (lift-Keeps _) (handle_window_change-Keeps w))
                  (reply-Keeps w false))))))

  one_program-Keeps : (h : (Bytes × Bool) × Reader) → Keeps P (Requests.one_program E h)
  unfolding Requests.one_program
  one_program-Keeps ((n, w), r) = bind-Keeps state-Keeps λ s.
      if-Keeps (Fields.is_program n && s.program_started) (reply-Keeps w false)
        (dispatch-Keeps n w r)

  pub handle_channel_request-Keeps : (p : Bytes) → Keeps P (Requests.handle_channel_request E p)
  unfolding Requests.handle_channel_request
  handle_channel_request-Keeps p = bind-Keeps (lift-Keeps _) one_program-Keeps
