-- ===== src/Transport/Calls.antt =====
-- Sequences of calls of the public methods of `Transport`, whatever they answer, and the refinement
-- of the machine of Epochs by them.
use ssh_bench.Common.{ℕ, true, List, [], ◌∷◌, Bytes}
use ssh_bench.Transport.Policy.{Obfuscation}
use ssh_bench.Transport.State.{
  Crates, take_output, clear_output, pop_front, poll_event, set_obfuscation, set_rekey_limits,
  set_max_consecutive_peer_rekeys,
}
use ssh_bench.Transport.Event.{Event}
use ssh_bench.Transport.Send.{
  T, initiate_rekey, send_packet, send_chaff, send_chaff_burst, disconnect,
}
use ssh_bench.Transport.Receive.{on_input}
use ssh_bench.Transport.Epochs.{Core, Steps, stay, core}
use ssh_bench.Transport.Refinement.{
  initiate_rekey-From, send_packet-Keeps, send_chaff-Keeps, send_chaff_burst-Keeps, disconnect-From,
}
use ssh_bench.Transport.KexRefinement.{F}
use ssh_bench.Transport.ReceiveRefinement.{on_input-Keeps}

pub data Call : Type 0 where
  receive packet : Bytes → Call
  chaff chaff_burst rekey output clear poll : Call
  leave : ℕ → Bytes → Call
  obfuscate : Obfuscation → Call
  limit : ℕ → ℕ → Call
  tolerate : ℕ → Call

module _ (C : Crates) where
  unfoldable pub perform : Call → T C → T C
  perform (Call.receive bytes) t = (on_input C bytes t).1
  perform (Call.packet payload) t = (send_packet C payload t).1
  perform Call.chaff t = (send_chaff C t).1
  perform Call.chaff_burst t = (send_chaff_burst C t).1
  perform Call.rekey t = initiate_rekey C t
  perform Call.output t = (take_output C t).1
  perform Call.clear t = clear_output C t
  perform Call.poll t = (poll_event C t).1
  perform (Call.leave reason description) t = disconnect C reason description t
  perform (Call.obfuscate o) t = set_obfuscation C o t
  perform (Call.limit bytes packets) t = set_rekey_limits C bytes packets t
  perform (Call.tolerate n) t = set_max_consecutive_peer_rekeys C n t

  unfoldable pub perform_all : List Call → T C → T C
  perform_all [] t = t
  perform_all (k ∷ ks) t = perform_all ks (perform k t)

  module _ (c : Core) where
    pop_front-From :
        (es : List (Event C.ed25519)) (t : T C) → F C true c t → F C true c (pop_front C es t).1
    unfolding pop_front
    pop_front-From [] t h = h
    pop_front-From (e ∷ es) t h = h

    perform-From : (k : Call) (t : T C) → F C true c t → F C true c (perform k t)
    unfolding perform take_output clear_output poll_event set_obfuscation set_rekey_limits
        set_max_consecutive_peer_rekeys
    perform-From (Call.receive bytes) t h = (on_input-Keeps C c bytes).keeps t h
    perform-From (Call.packet payload) t h = (send_packet-Keeps C true c payload).keeps t h
    perform-From Call.chaff t h = (send_chaff-Keeps C true c).keeps t h
    perform-From Call.chaff_burst t h = (send_chaff_burst-Keeps C true c).keeps t h
    perform-From Call.rekey t h = initiate_rekey-From C true c t h
    perform-From Call.output t h = h
    perform-From Call.clear t h = h
    perform-From Call.poll t h = pop_front-From t.events t h
    perform-From (Call.leave reason description) t h =
        disconnect-From C true c reason description t h
    perform-From (Call.obfuscate o) t h = h
    perform-From (Call.limit bytes packets) t h = h
    perform-From (Call.tolerate n) t h = h

    perform_all-From : (ks : List Call) (t : T C) → F C true c t → F C true c (perform_all ks t)
    unfolding perform_all
    perform_all-From [] t h = h
    perform_all-From (k ∷ ks) t h = perform_all-From ks (perform k t) (perform-From k t h)

  -- From any state, any sequence of calls of the transport's methods, received bytes included and
  -- whether they fail or not, moves the machine of Epochs by its steps and in no other way.
  pub perform_all-Steps :
      (ks : List Call) (t : T C) → Steps true (core C t) (core C (perform_all ks t))
  perform_all-Steps ks t = perform_all-From (core C t) ks t stay
