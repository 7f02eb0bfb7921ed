-- ===== src/Transport/Epochs.antt =====
-- What transport.rs promises of its key epochs, as a machine of its own: which sequence number comes
-- next in either direction, whether what is sent is under a key, and how a key exchange moves on.
use ssh_bench.Common.{
  ℕ, ◌+◌, ◌%◌, ◌^◌, ◌≤◌, ◌<◌, ◌≡◌, Bool, true, false, Bytes, Option, none, some, leb, if◌then◌else◌,
  arith,
}
use ssh_bench.Cipher.{Cipher}
use ssh_bench.Transport.Policy.{
  Phase, need_peer_version, handshake, established, epoch_hard_packets,
}
use ssh_bench.Transport.State.{Crates, Transport, PendingKeys}

pub record Core : Type 0 where
  pub phase : Phase
  pub rx : Bytes
  pub rx_pos : ℕ
  pub tx_seq : ℕ
  pub sealed : Bool
  pub epoch : ℕ
  pub rx_seq : ℕ
  pub rx_epoch : ℕ
  pub sent_newkeys : Bool
  pub recv_newkeys : Bool
  pub strict_kex : Bool
  pub initial_kex_done : Bool
  pub pending : Option Bool
  pub session_id : Option Bytes
  pub closing : Bool

unfoldable pub is_sealed : Cipher → Bool
is_sealed Cipher.plain = false
is_sealed (Cipher.chacha20_poly1305 k2 k1) = true
is_sealed (Cipher.aes256_gcm key iv) = true

module _ (C : Crates) where
  -- Whether keys are staged, and whether the outbound one of them is still there.
  unfoldable pub staged_out : Option (PendingKeys C) → Option Bool
  staged_out none = none
  staged_out (some p) = some (is_sealed p.out)

  abbrev pub core : Transport C → Core
  core t = record {
    phase = t.phase;
    rx = t.rx;
    rx_pos = t.rx_pos;
    tx_seq = t.tx_seq;
    sealed = is_sealed t.cipher_out;
    epoch = t.tx_packets_since_rekey;
    rx_seq = t.rx_seq;
    rx_epoch = t.rx_packets_since_rekey;
    sent_newkeys = t.sent_newkeys;
    recv_newkeys = t.recv_newkeys;
    strict_kex = t.strict_kex;
    initial_kex_done = t.initial_kex_done;
    pending = staged_out t.pending;
    session_id = t.session_id;
    closing = t.closing;
  }

-- The input moves, and the peer is identified, in the receiving loop alone (`io`).
pub data Step (io : Bool) : Core → Core → Type 0 where
  move :
      (c : Core) (rx : Bytes) (pos : ℕ) → io ≡ true → Step io c (record c { rx = rx; rx_pos = pos })
  -- A packet is opened and counted.
  receive :
      (c : Core) (pos : ℕ)
      → io ≡ true
      → Step io c
          (record c { rx_pos = pos; rx_seq = (c.rx_seq + 1) % 2 ^ 32; rx_epoch = c.rx_epoch + 1 })
  send :
      (c : Core)
      → c.closing ≡ false
      → Step io c (record c {
        tx_seq = (c.tx_seq + 1) % 2 ^ 32;
        epoch = c.epoch + 1;
        closing = leb epoch_hard_packets (c.epoch + 1);
      })
  close : (c : Core) → Step io c (record c { closing = true })
  identify :
      (c : Core) (pos : ℕ)
      → io ≡ true
      → c.phase ≡ need_peer_version
      → Step io c (record c { phase = handshake; rx_pos = pos })
  renew : (c : Core) → Step io c (record c { sent_newkeys = false; recv_newkeys = false })
  latch :
      (c : Core) (b : Bool) → c.initial_kex_done ≡ false → Step io c (record c { strict_kex = b })
  name_session :
      (c : Core) (h : Bytes) → c.session_id ≡ none → Step io c (record c { session_id = some h })
  stage :
      (c : Core) (h : Bytes) → c.session_id ≡ some h → Step io c (record c { pending = some true })
  switch_out :
      (c : Core)
      → c.pending ≡ some true
      → Step io c (record c {
        sealed = true;
        pending = some false;
        tx_seq = if c.strict_kex then 0 else c.tx_seq;
        sent_newkeys = true;
      })
  switch_in :
      (c : Core)
      → Step io c (record c { rx_seq = if c.strict_kex then 0 else c.rx_seq; recv_newkeys = true })
  complete_first :
      (c : Core)
      → c.sent_newkeys ≡ true
      → c.recv_newkeys ≡ true
      → c.initial_kex_done ≡ false
      → c.rx_epoch < epoch_hard_packets
      → Step io c (record c {
        phase = established;
        initial_kex_done = true;
        pending = none;
        epoch = 0;
        rx_epoch = 0;
        sent_newkeys = false;
        recv_newkeys = false;
      })
  complete_again :
      (c : Core)
      → c.sent_newkeys ≡ true
      → c.recv_newkeys ≡ true
      → c.initial_kex_done ≡ true
      → c.rx_epoch < epoch_hard_packets
      → Step io c (record c {
        pending = none;
        epoch = 0;
        rx_epoch = 0;
        sent_newkeys = false;
        recv_newkeys = false;
      })

pub data Steps (io : Bool) (c : Core) : Core → Type 0 where
  stay : Steps io c c
  further : {d e : Core} → Steps io c d → Step io d e → Steps io c e

pub append : {io : Bool} {c d e : Core} → Steps io c d → Steps io d e → Steps io c e
append v stay = v
append v (further w k) = further (append v w) k

-- The steps of a handler are steps of the loop.
Step-loop : {c d : Core} → Step false c d → Step true c d
Step-loop (move c rx n i) = cc
Step-loop (receive c n i) = cc
Step-loop (send c l) = send c l
Step-loop (close c) = close c
Step-loop (identify c n i k) = cc
Step-loop (renew c) = renew c
Step-loop (latch c b k) = latch c b k
Step-loop (name_session c g k) = name_session c g k
Step-loop (stage c g k) = stage c g k
Step-loop (switch_out c k) = switch_out c k
Step-loop (switch_in c) = switch_in c
Step-loop (complete_first c es er ed el) = complete_first c es er ed el
Step-loop (complete_again c es er ed el) = complete_again c es er ed el

pub Steps-loop : {c d : Core} → Steps false c d → Steps true c d
Steps-loop stay = stay
Steps-loop (further w k) = further (Steps-loop w) (Step-loop k)

-- Inside a handler no packet is received.
Step-rx_epoch : {c d : Core} → Step false c d → d.rx_epoch ≤ c.rx_epoch
Step-rx_epoch (move c rx n i) = cc
Step-rx_epoch (receive c n i) = cc
Step-rx_epoch (send c l) = omega arith
Step-rx_epoch (close c) = omega arith
Step-rx_epoch (identify c n i k) = cc
Step-rx_epoch (renew c) = omega arith
Step-rx_epoch (latch c b k) = omega arith
Step-rx_epoch (name_session c g k) = omega arith
Step-rx_epoch (stage c g k) = omega arith
Step-rx_epoch (switch_out c k) = omega arith
Step-rx_epoch (switch_in c) = omega arith
Step-rx_epoch (complete_first c es er ed el) = omega arith
Step-rx_epoch (complete_again c es er ed el) = omega arith

pub Steps-rx_epoch : {c d : Core} → Steps false c d → d.rx_epoch ≤ c.rx_epoch
Steps-rx_epoch stay = omega arith
Steps-rx_epoch (further w k) = let a = Steps-rx_epoch w in let b = Step-rx_epoch k in omega arith
