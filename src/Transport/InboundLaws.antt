-- ===== src/Transport/InboundLaws.antt =====
-- Invariants of the machine of Epochs in the direction of what is received.
use ssh_bench.Common.{◌+◌, ◌≤◌, ◌≡◌, Bool, true, false, arith}
use ssh_bench.Transport.Policy.{epoch_hard_packets}
use ssh_bench.Transport.Epochs.{
  Core, Step, move, receive, send, close, identify, renew, latch, name_session, stage, switch_out,
  switch_in, complete_first, complete_again, Steps, stay, further,
}

-- The inbound sequence number runs ahead of the epoch's count by an epoch at most, and not at all
-- between the peer's NEWKEYS and the end of the exchange. The count has no bound of its own: a
-- transport that has refused a packet can be given more.
pub record Received (c : Core) : Type 0 where
  pub first : c.initial_kex_done ≡ false → c.rx_seq ≤ c.rx_epoch
  pub switched : c.strict_kex ≡ true → c.recv_newkeys ≡ true → c.rx_seq ≤ c.rx_epoch
  pub strict : c.strict_kex ≡ true → c.rx_seq ≤ c.rx_epoch + epoch_hard_packets

Step-Received : {io : Bool} {c d : Core} → Step io c d → Received c → Received d
Step-Received (move c rx n i) s = record {
  first = s.first;
  switched = s.switched;
  strict = s.strict;
}
Step-Received (receive c n i) s = record {
  first = λ h. let l = s.first h in omega arith;
  switched = λ h k. let l = s.switched h k in omega arith;
  strict = λ h. let l = s.strict h in omega arith;
}
Step-Received (send c l) s = record { first = s.first; switched = s.switched; strict = s.strict }
Step-Received (close c) s = record { first = s.first; switched = s.switched; strict = s.strict }
Step-Received (identify c n i e) s = record {
  first = s.first;
  switched = s.switched;
  strict = s.strict;
}
Step-Received (renew c) s = record { first = s.first; switched = λ h k. cc; strict = s.strict }
Step-Received (latch c b e) s = record {
  first = s.first;
  switched = λ h k. s.first e;
  strict = λ h. let l = s.first e in omega arith;
}
Step-Received (name_session c h e) s = record {
  first = s.first;
  switched = s.switched;
  strict = s.strict;
}
Step-Received (stage c h e) s = record { first = s.first; switched = s.switched; strict = s.strict }
Step-Received (switch_out c e) s = record {
  first = s.first;
  switched = s.switched;
  strict = s.strict;
}
Step-Received (switch_in c) s = record {
  first = λ h. ground (arith, s.first h);
  switched = λ h k. ground arith;
  strict = λ h. ground arith;
}
Step-Received (complete_first c es er ed el) s = record {
  first = λ h. cc;
  switched = λ h k. cc;
  strict = λ h. let l = s.first ed in omega arith;
}
Step-Received (complete_again c es er ed el) s = record {
  first = λ h. cc;
  switched = λ h k. cc;
  strict = λ h. let l = s.switched h er in omega arith;
}

pub Steps-Received : {io : Bool} {c d : Core} → Steps io c d → Received c → Received d
Steps-Received stay s = s
Steps-Received (further w k) s = Step-Received k (Steps-Received w s)
