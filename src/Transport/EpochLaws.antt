-- ===== src/Transport/EpochLaws.antt =====
-- Invariants of the machine of Epochs.
use ssh_bench.Common.{◌+◌, ◌≤◌, ◌<◌, ◌≡◌, refl, Bool, true, false, Bytes, Option, none, some, arith}
use ssh_bench.Transport.Policy.{established, epoch_hard_packets}
use ssh_bench.Transport.Epochs.{
  Core, Step, move, receive, send, close, identify, renew, latch, name_session, stage, switch_out,
  switch_in, complete_first, complete_again, Steps, stay, further,
}

unfoldable pub is_some : {A : Type 0} → Option A → Bool
is_some none = false
is_some (some a) = true

-- Keys come with a session, what follows NEWKEYS is sealed, and a connection that is up has both.
pub record Sealed (c : Core) : Type 0 where
  pub staged : is_some c.pending ≡ true → is_some c.session_id ≡ true
  pub named : c.sealed ≡ true → is_some c.session_id ≡ true
  pub sent : c.sent_newkeys ≡ true → c.sealed ≡ true
  pub done : c.initial_kex_done ≡ true → c.sealed ≡ true
  pub up : c.phase ≡ established → c.initial_kex_done ≡ true

Step-Sealed : {io : Bool} {c d : Core} → Step io c d → Sealed c → Sealed d
unfolding is_some
Step-Sealed (send c live) s = record {
  staged = s.staged;
  named = s.named;
  sent = s.sent;
  done = s.done;
  up = s.up;
}
Step-Sealed (move c rx n i) s = record {
  staged = s.staged;
  named = s.named;
  sent = s.sent;
  done = s.done;
  up = s.up;
}
Step-Sealed (receive c n i) s = record {
  staged = s.staged;
  named = s.named;
  sent = s.sent;
  done = s.done;
  up = s.up;
}
Step-Sealed (close c) s = record {
  staged = s.staged;
  named = s.named;
  sent = s.sent;
  done = s.done;
  up = s.up;
}
Step-Sealed (identify c n i e) s = record {
  staged = s.staged;
  named = s.named;
  sent = s.sent;
  done = s.done;
  up = λ h. cc;
}
Step-Sealed (renew c) s = record {
  staged = s.staged;
  named = s.named;
  sent = λ h. cc;
  done = s.done;
  up = s.up;
}
Step-Sealed (latch c b e) s = record {
  staged = s.staged;
  named = s.named;
  sent = s.sent;
  done = s.done;
  up = s.up;
}
Step-Sealed (name_session c h e) s = record {
  staged = λ _. refl;
  named = λ _. refl;
  sent = s.sent;
  done = s.done;
  up = s.up;
}
Step-Sealed (stage c h e) s = record {
  staged = λ _. rw e refl;
  named = s.named;
  sent = s.sent;
  done = s.done;
  up = s.up;
}
Step-Sealed (switch_out c e) s = record {
  staged = λ _. s.staged (rw e refl);
  named = λ _. s.staged (rw e refl);
  sent = λ _. refl;
  done = λ _. refl;
  up = s.up;
}
Step-Sealed (switch_in c) s = record {
  staged = s.staged;
  named = s.named;
  sent = s.sent;
  done = s.done;
  up = s.up;
}
Step-Sealed (complete_first c es er ed el) s = record {
  staged = λ h. cc;
  named = s.named;
  sent = λ h. cc;
  done = λ _. s.sent es;
  up = λ _. refl;
}
Step-Sealed (complete_again c es er ed el) s = record {
  staged = λ h. cc;
  named = s.named;
  sent = λ h. cc;
  done = s.done;
  up = s.up;
}

pub Steps-Sealed : {io : Bool} {c d : Core} → Steps io c d → Sealed c → Sealed d
Steps-Sealed stay s = s
Steps-Sealed (further w k) s = Step-Sealed k (Steps-Sealed w s)

-- The sequence number runs ahead of the epoch's count by an epoch at most, and not at all between
-- our NEWKEYS and the end of the exchange. Without strict KEX only the first exchange is counted.
pub record Counted (c : Core) : Type 0 where
  pub bound : c.epoch ≤ epoch_hard_packets
  pub live : c.closing ≡ false → c.epoch < epoch_hard_packets
  pub first : c.initial_kex_done ≡ false → c.tx_seq ≤ c.epoch
  pub switched : c.strict_kex ≡ true → c.sent_newkeys ≡ true → c.tx_seq ≤ c.epoch
  pub strict : c.strict_kex ≡ true → c.tx_seq ≤ c.epoch + epoch_hard_packets

Step-Counted : {io : Bool} {c d : Core} → Step io c d → Counted c → Counted d
Step-Counted (send c open_yet) s = record {
  bound = let l = s.live open_yet in omega arith;
  live = λ h. ground arith;
  first = λ h. let l = s.first h in omega arith;
  switched = λ h k. let l = s.switched h k in omega arith;
  strict = λ h. let l = s.strict h in omega arith;
}
Step-Counted (move c rx n i) s = record {
  bound = s.bound;
  live = s.live;
  first = s.first;
  switched = s.switched;
  strict = s.strict;
}
Step-Counted (receive c n i) s = record {
  bound = s.bound;
  live = s.live;
  first = s.first;
  switched = s.switched;
  strict = s.strict;
}
Step-Counted (close c) s = record {
  bound = s.bound;
  live = λ h. cc;
  first = s.first;
  switched = s.switched;
  strict = s.strict;
}
Step-Counted (identify c n i e) s = record {
  bound = s.bound;
  live = s.live;
  first = s.first;
  switched = s.switched;
  strict = s.strict;
}
Step-Counted (renew c) s = record {
  bound = s.bound;
  live = s.live;
  first = s.first;
  switched = λ h k. cc;
  strict = s.strict;
}
Step-Counted (latch c b e) s = record {
  bound = s.bound;
  live = s.live;
  first = s.first;
  switched = λ h k. s.first e;
  strict = λ h. let l = s.first e in omega arith;
}
Step-Counted (name_session c h e) s = record {
  bound = s.bound;
  live = s.live;
  first = s.first;
  switched = s.switched;
  strict = s.strict;
}
Step-Counted (stage c h e) s = record {
  bound = s.bound;
  live = s.live;
  first = s.first;
  switched = s.switched;
  strict = s.strict;
}
Step-Counted (switch_out c e) s = record {
  bound = s.bound;
  live = s.live;
  first = λ h. ground (arith, s.first h);
  switched = λ h k. ground arith;
  strict = λ h. ground arith;
}
Step-Counted (switch_in c) s = record {
  bound = s.bound;
  live = s.live;
  first = s.first;
  switched = s.switched;
  strict = s.strict;
}
Step-Counted (complete_first c es er ed el) s = record {
  bound = omega arith;
  live = λ h. omega arith;
  first = λ h. cc;
  switched = λ h k. cc;
  strict = λ h. let l = s.first ed in let b = s.bound in omega arith;
}
Step-Counted (complete_again c es er ed el) s = record {
  bound = omega arith;
  live = λ h. omega arith;
  first = λ h. cc;
  switched = λ h k. cc;
  strict = λ h. let l = s.switched h es in let b = s.bound in omega arith;
}

pub Steps-Counted : {io : Bool} {c d : Core} → Steps io c d → Counted c → Counted d
Steps-Counted stay s = s
Steps-Counted (further w k) s = Step-Counted k (Steps-Counted w s)

Step-session :
    {io : Bool} {c d : Core} {h : Bytes}
    → Step io c d
    → c.session_id ≡ some h
    → d.session_id ≡ some h
Step-session (send c l) e = e
Step-session (move c rx n i) e = e
Step-session (receive c n i) e = e
Step-session (close c) e = e
Step-session (identify c n i k) e = e
Step-session (renew c) e = e
Step-session (latch c b k) e = e
Step-session (name_session c g k) e = cc
Step-session (stage c g k) e = e
Step-session (switch_out c k) e = e
Step-session (switch_in c) e = e
Step-session (complete_first c es er ed el) e = e
Step-session (complete_again c es er ed el) e = e

pub Steps-session :
    {io : Bool} {c d : Core} {h : Bytes}
    → Steps io c d
    → c.session_id ≡ some h
    → d.session_id ≡ some h
Steps-session stay e = e
Steps-session (further w k) e = Step-session k (Steps-session w e)
