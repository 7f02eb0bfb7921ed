-- ===== src/Transport/Refinement.antt =====
-- Every method of `Transport` moves the machine of Epochs by its steps.
use ssh_bench.Common.{ℕ, zero, suc, ◌≡◌, refl, Bool, true, false, not, Bytes, if◌then◌else◌, ◌||◌}
use ssh_bench.Error.{Result}
use ssh_bench.Action.{Keeps, then-Keeps, done-Keeps}
use ssh_bench.Rng.{Rng}
use ssh_bench.Cipher.{Primitives, Cipher, seal_into}
use ssh_bench.Transport.Policy.{chaff_enabled}
use ssh_bench.Transport.State.{Crates, up}
use ssh_bench.Transport.Send.{
  T, seal_packet, after_send, activate_compression, write_packet, send_kexinit, begin_rekey_round,
  initiate_rekey, count_sent, send_packet, build_chaff, chaff_packet, send_chaff, chaff_packets,
  send_chaff_burst, disconnect,
}
use ssh_bench.Transport.Epochs.{Core, Step, Steps, stay, further, core, is_sealed, staged_out}
use ssh_bench.Transport.Epochs

pub seal_into-sealed :
    (p : Primitives) (r : Rng) (c : Cipher) (seqnr : ℕ) (payload : Bytes) (rng : r.State)
    (out : Bytes)
    → is_sealed (seal_into p r c seqnr payload rng out).0 ≡ is_sealed c
unfolding seal_into is_sealed
seal_into-sealed p r Cipher.plain seqnr payload rng out = refl
seal_into-sealed p r (Cipher.aes256_gcm key iv) seqnr payload rng out = refl
seal_into-sealed p r (Cipher.chacha20_poly1305 k2 k1) seqnr payload rng out = refl

-- For a fixed start, what the machine reaches from it.
module _ (C : Crates) (io : Bool) (c : Core) where
  abbrev pub From : T C → Type 0
  From t = Steps io c (core C t)

  pub pick-From : (b : Bool) (x y : T C) → From x → From y → From (if b then x else y)
  pick-From true x y hx hy = hx
  pick-From false x y hx hy = hy

  pub pick_result-From :
      {A : Type 0} (b : Bool) (x y : Result A × T C)
      → From x.1
      → From y.1
      → From (if◌then◌else◌ {A = Result A × T C} b x y).1
  pick_result-From true x y hx hy = hx
  pick_result-From false x y hx hy = hy

  pub activate_compression-From : (t : T C) → From t → From (activate_compression C t)
  unfolding activate_compression
  activate_compression-From t h = h

  after_send-From : (p : Bytes) (t : T C) → From t → From (after_send C p t)
  unfolding after_send
  after_send-From p t h = pick-From _ (activate_compression C t) t (activate_compression-From t h) h

  seal_packet-From : (p : Bytes) (t : T C) → t.closing ≡ false → From t → From (seal_packet C p t)
  unfolding seal_packet
  seal_packet-From p t live h =
      rw (seal_into-sealed C.primitives C.rng t.cipher_out t.tx_seq _ t.rng t.tx)
        (further h (Epochs.send (core C t) live))

  pub write_packet-From : (p : Bytes) (t : T C) → From t → From (write_packet C p t)
  unfolding write_packet
  write_packet-From p t h = go t.closing refl
    where
      go : (b : Bool) → t.closing ≡ b → From (if b then t else after_send C p (seal_packet C p t))
      go true e = h
      go false e = after_send-From p (seal_packet C p t) (seal_packet-From p t e h)

  pub send_kexinit-From : (t : T C) → From t → From (send_kexinit C t)
  unfolding send_kexinit
  send_kexinit-From t h = write_packet-From _ (record t { rng = (C.rng.fill_bytes 32 t.rng).1 }) h

  pub begin_rekey_round-From : (t : T C) → From t → From (begin_rekey_round C t)
  unfolding begin_rekey_round
  begin_rekey_round-From t h = send_kexinit-From _ (further h (Epochs.renew (core C t)))

  pub initiate_rekey-From : (t : T C) → From t → From (initiate_rekey C t)
  unfolding initiate_rekey
  initiate_rekey-From t h = pick-From _ (begin_rekey_round C t) t (begin_rekey_round-From t h) h

  count_sent-From : (p : Bytes) (t : T C) → From t → From (count_sent C p t)
  unfolding count_sent
  count_sent-From p t h = pick-From _ _ _ (initiate_rekey-From _ h) h

  pub send_packet-Keeps : (p : Bytes) → Keeps From (send_packet C p)
  unfolding send_packet
  send_packet-Keeps p = record {
    keeps = λ t h.
        pick_result-From (not (up C t)) _ _ h
          (pick_result-From t.rekeying _ _ h (count_sent-From p _ (write_packet-From p t h)));
  }

  chaff_packet-Keeps : Keeps From (chaff_packet C)
  unfolding chaff_packet build_chaff
  chaff_packet-Keeps = record { keeps = λ t h. (send_packet-Keeps _).keeps _ h }

  pub send_chaff-Keeps : Keeps From (send_chaff C)
  unfolding send_chaff
  send_chaff-Keeps = record {
    keeps = λ t h. pick_result-From (not (up C t)) _ _ h (chaff_packet-Keeps.keeps t h);
  }

  chaff_packets-Keeps : (n : ℕ) → Keeps From (chaff_packets C n)
  unfolding chaff_packets
  chaff_packets-Keeps zero = done-Keeps
  chaff_packets-Keeps (suc n) = then-Keeps chaff_packet-Keeps (chaff_packets-Keeps n)

  pub send_chaff_burst-Keeps : Keeps From (send_chaff_burst C)
  unfolding send_chaff_burst
  send_chaff_burst-Keeps = record {
    keeps = λ t h.
        pick_result-From (not (up C t) || not (chaff_enabled t.obfuscation)) _ _ h
          ((chaff_packets-Keeps _).keeps _ h);
  }

  pub disconnect-From : (reason : ℕ) (d : Bytes) (t : T C) → From t → From (disconnect C reason d t)
  unfolding disconnect
  disconnect-From reason d t h =
      pick-From t.closing t _ h (further (write_packet-From _ t h) (Epochs.close _))
