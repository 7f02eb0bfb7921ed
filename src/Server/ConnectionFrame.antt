-- ===== src/Server/ConnectionFrame.antt =====
-- What `handle_connection` and the driver's calls of server.rs leave alone.
use ssh_bench.Common.{
  ℕ, ◌≡◌, refl, ◌∙◌, ◌%◌, ◌^◌, Bool, ◌==◌, ltb, not, bytes_eq, [], ◌∷◌, Bytes, Option, none, some,
  length,
}
use ssh_bench.Msg
use ssh_bench.Connection.Messages.{channel_session, min_remote_max_packet}
use ssh_bench.Connection.Channel.{Channel, consume_incoming}
use ssh_bench.Action.{
  Keeps, bind-Keeps, then-Keeps, lift-Keeps, done-Keeps, state-Keeps, modify-Keeps, if-Keeps,
}
use ssh_bench.Server.Ports.{Ports}
use ssh_bench.Server.State
use ssh_bench.Server.State.{ServerConnection}
use ssh_bench.Server.Fields.{OpenRequest}
use ssh_bench.Server.Channels
use ssh_bench.Server.Frame.{
  IsFrame, send-Keeps, disconnect-Keeps, emit-Keeps, flush_channel-Keeps,
  handle_channel_request-Keeps,
}

module _ (E : Ports) (P : ServerConnection E → Type 0) (f : IsFrame E P) where
  decide_open-Keeps : (o : OpenRequest) → Keeps P (Channels.decide_open E o)
  unfolding Channels.decide_open Channels.refuse_open Channels.open_channel
  decide_open-Keeps o = bind-Keeps state-Keeps λ s.
      if-Keeps (not (bytes_eq o.ch_type channel_session)) (send-Keeps E P f _) (
        if-Keeps (State.is_some_channel E s.channel) (send-Keeps E P f _) (
          if-Keeps (ltb o.max_packet min_remote_max_packet) (send-Keeps E P f _) (
            then-Keeps (modify-Keeps _ (λ s h. f.on_program _ _ (f.on_channel s _ h)))
              (send-Keeps E P f _))))

  deliver-Keeps : (b : Bytes) (x : Channel × Bool) → Keeps P (Channels.deliver E b x)
  unfolding Channels.deliver
  deliver-Keeps b (ch, fits) =
      if-Keeps fits (then-Keeps (modify-Keeps _ (λ s h. f.on_channel s _ h)) (emit-Keeps E P f _))
        (then-Keeps (modify-Keeps _ (λ s h. f.on_channel s _ h)) (disconnect-Keeps E P f _ _))

  receive_data-Keeps : (b : Bytes) (c : Option Channel) → Keeps P (Channels.receive_data E b c)
  unfolding Channels.receive_data
  receive_data-Keeps b none = emit-Keeps E P f _
  receive_data-Keeps b (some ch) = deliver-Keeps b (consume_incoming (length b % 2 ^ 32) ch)

  answer_close-Keeps : (n : ℕ) (c : Option Channel) → Keeps P (Channels.answer_close E n c)
  unfolding Channels.answer_close
  answer_close-Keeps n none = done-Keeps
  answer_close-Keeps n (some ch) =
      if-Keeps ch.sent_close (modify-Keeps _ (λ s h. f.on_channel s _ h))
        (then-Keeps (modify-Keeps _ (λ s h. f.on_channel s _ h)) (send-Keeps E P f _))

  handle_channel_close-Keeps : Keeps P (Channels.handle_channel_close E)
  unfolding Channels.handle_channel_close
  handle_channel_close-Keeps = bind-Keeps state-Keeps λ s.
      then-Keeps (answer_close-Keeps (State.remote_id E s) s.channel) (
        then-Keeps (modify-Keeps _ (λ s h. f.on_program _ _ (f.on_channel s _ h)))
          (emit-Keeps E P f _))

  handle_window_adjust-Keeps : (p : Bytes) → Keeps P (Channels.handle_window_adjust E p)
  unfolding Channels.handle_window_adjust
  handle_window_adjust-Keeps p =
      bind-Keeps (lift-Keeps _)
        λ n. then-Keeps (modify-Keeps _ (λ s h. f.on_channel s _ h)) (flush_channel-Keeps E P f)

  pub handle_connection-Keeps : (p : Bytes) → Keeps P (Channels.handle_connection E p)
  unfolding Channels.handle_connection Channels.handle_channel_open Channels.handle_channel_data
  handle_connection-Keeps [] = done-Keeps
  handle_connection-Keeps (id ∷ rest) =
      if-Keeps (id == Msg.channel_open) (bind-Keeps (lift-Keeps _) decide_open-Keeps) (
        if-Keeps (id == Msg.channel_request) (handle_channel_request-Keeps E P f _) (
          if-Keeps (id == Msg.channel_data)
            (bind-Keeps (lift-Keeps _)
              λ b. bind-Keeps state-Keeps λ s. receive_data-Keeps b s.channel)
            (if-Keeps (id == Msg.channel_window_adjust) (handle_window_adjust-Keeps _) (
              if-Keeps (id == Msg.channel_eof) (emit-Keeps E P f _)
                (if-Keeps (id == Msg.channel_close) handle_channel_close-Keeps done-Keeps)))))

-- The part of the state that says who is authenticated and how often they tried, and the policy.
pub record SameAuth (E : Ports) (s s' : ServerConnection E) : Type 0 where
  pub authenticated : s'.authenticated ≡ s.authenticated
  pub auth_failures : s'.auth_failures ≡ s.auth_failures
  pub auth_requests : s'.auth_requests ≡ s.auth_requests
  pub handler : s'.handler ≡ s.handler
  pub banner_sent : s'.banner_sent ≡ s.banner_sent
  pub allow_pty : s'.allow_pty ≡ s.allow_pty

SameAuth-IsFrame : (E : Ports) (s0 : ServerConnection E) → IsFrame E (SameAuth E s0)
SameAuth-IsFrame E s0 = record {
  on_transport = λ s t h. same s _ refl refl refl refl refl refl h;
  on_events = λ s es h. same s _ refl refl refl refl refl refl h;
  on_channel = λ s c h. same s _ refl refl refl refl refl refl h;
  on_pending = λ s b h. same s _ refl refl refl refl refl refl h;
  on_program = λ s b h. same s _ refl refl refl refl refl refl h;
}
  where
    same :
        (s s' : ServerConnection E)
        → s'.authenticated ≡ s.authenticated
        → s'.auth_failures ≡ s.auth_failures
        → s'.auth_requests ≡ s.auth_requests
        → s'.handler ≡ s.handler
        → s'.banner_sent ≡ s.banner_sent
        → s'.allow_pty ≡ s.allow_pty
        → SameAuth E s0 s
        → SameAuth E s0 s'
    same s s' a b c d e g h = record {
      authenticated = a ∙ h.authenticated;
      auth_failures = b ∙ h.auth_failures;
      auth_requests = c ∙ h.auth_requests;
      handler = d ∙ h.handler;
      banner_sent = e ∙ h.banner_sent;
      allow_pty = g ∙ h.allow_pty;
    }

-- No connection message, whatever its bytes and whether or not it is refused, changes who is
-- authenticated, the two counters of authentication, the policy, whether the banner was sent or
-- whether terminals are granted.
pub handle_connection-SameAuth :
    (E : Ports) (s : ServerConnection E) (payload : Bytes)
    → SameAuth E s (Channels.handle_connection E payload s).1
handle_connection-SameAuth E s payload =
    (handle_connection-Keeps E (SameAuth E s) (SameAuth-IsFrame E s) payload).keeps s (record {
      authenticated = refl;
      auth_failures = refl;
      auth_requests = refl;
      handler = refl;
      banner_sent = refl;
      allow_pty = refl;
    })
