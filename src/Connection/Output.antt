-- ===== src/Connection/Output.antt =====
-- `drain_output`: what is sent, in which order, and when it stops.
use ssh_bench.Common.{
  ℕ, zero, suc, ◌+◌, ◌-◌, ◌≤◌, ◌<◌, ◌≡◌, refl, sym, ap, ◌∙◌, ◌⊎◌, inl, inr, Bool, true, false, List,
  [], ◌∷◌, ◌++◌, Option, none, some, Bytes, min, ◌==◌, length, take, drop, length-take, length-drop,
  take-append-drop, drop-drop, drop_all, append_assoc, append-nil, Bool-cases, arith,
}
use ssh_bench.Connection.Channel.{
  OutItem, Channel, limit_of, message, queued, drain_front, drain_loop, drain_output, enqueue,
  enqueue_stdout, enqueue_stderr,
}

-- One data message's content.
pub record Chunk : Type 0 where
  pub ext : Bool
  pub bytes : Bytes

-- A byte of the stream, marked as stderr or stdout.
abbrev pub tag : Bool → Bytes → List (Bool × ℕ)
tag e [] = []
tag e (b ∷ bs) = (e, b) ∷ tag e bs

abbrev pub stream : List Chunk → List (Bool × ℕ)
stream [] = []
stream (c ∷ cs) = tag c.ext c.bytes ++ stream cs

-- The bytes of the queue that have not been sent, in order.
abbrev pub pending : List OutItem → List (Bool × ℕ)
pending [] = []
pending (i ∷ is) = tag i.ext (drop i.sent i.buf) ++ pending is

abbrev pub messages : ℕ → List Chunk → List Bytes
messages id [] = []
messages id (c ∷ cs) = message id c.ext c.bytes ∷ messages id cs

abbrev pub total : List Chunk → ℕ
total [] = 0
total (c ∷ cs) = length c.bytes + total cs

-- Every chunk carries a byte at least and `n` at most.
abbrev pub Sized : ℕ → List Chunk → Type 0
Sized n [] = Unit {0}
Sized n (c ∷ cs) = (0 < length c.bytes) × (length c.bytes ≤ n) × Sized n cs

-- Every queued item has a byte to send.
abbrev pub IsQueue : List OutItem → Type 0
IsQueue [] = Unit {0}
IsQueue (i ∷ is) = (i.sent < length i.buf) × IsQueue is

tag-append : (e : Bool) (a b : Bytes) → tag e (a ++ b) ≡ tag e a ++ tag e b
tag-append e [] b = refl
tag-append e (x ∷ a) b = ap (◌∷◌ (e, x)) (tag-append e a b)

Sized-mono : (m n : ℕ) (cs : List Chunk) → m ≤ n → Sized m cs → Sized n cs
Sized-mono m n [] h s = tt
Sized-mono m n (c ∷ cs) h (a, b, s) = (a, omega arith, Sized-mono m n cs h s)

limit_mono : (mc : Option ℕ) (w w' p : ℕ) → w' ≤ w → limit_of mc w' p ≤ limit_of mc w p
limit_mono none w w' p h = omega arith
limit_mono (some m) w w' p h = omega arith

limit-le-window : (mc : Option ℕ) (w p : ℕ) → limit_of mc w p ≤ w
limit-le-window none w p = omega arith
limit-le-window (some m) w p = omega arith

-- What a drain has done to a channel, and why it stopped.
pub record Drained (mc : Option ℕ) (ch : Channel) (r : Channel × List Bytes) : Type 0 where
  pub chunks : List Chunk
  pub sent : r.1 ≡ messages ch.remote_id chunks
  pub order : stream chunks ++ pending r.0.out ≡ pending ch.out
  pub sized : Sized (limit_of mc ch.remote_window ch.remote_max_packet) chunks
  pub window : r.0.remote_window + total chunks ≡ ch.remote_window
  pub flushed : r.0.flushed_out ≡ ch.flushed_out + total chunks
  pub frame : r.0 ≡ record ch {
    out = r.0.out;
    remote_window = r.0.remote_window;
    flushed_out = r.0.flushed_out;
  }
  pub queue : IsQueue r.0.out
  pub stopped : (r.0.out ≡ []) ⊎ (limit_of mc r.0.remote_window r.0.remote_max_packet ≡ 0)

stop-Drained :
    (mc : Option ℕ) (ch : Channel)
    → IsQueue ch.out
    → (ch.out ≡ []) ⊎ (limit_of mc ch.remote_window ch.remote_max_packet ≡ 0)
    → Drained mc ch (ch, [])
stop-Drained mc ch q s = record {
  chunks = [];
  sent = refl;
  order = refl;
  sized = tt;
  window = omega arith;
  flushed = omega arith;
  frame = refl;
  queue = q;
  stopped = s;
}

-- One round with a limit above zero.
abbrev size_of : ℕ → OutItem → ℕ
size_of limit front = min (length front.buf - front.sent) limit

abbrev chunk_of : ℕ → OutItem → Chunk
chunk_of limit front = record {
  ext = front.ext;
  bytes = take (size_of limit front) (drop front.sent front.buf);
}

length-chunk_of :
    (limit : ℕ) (front : OutItem) → length (chunk_of limit front).bytes ≡ size_of limit front
length-chunk_of limit front =
    length-take (size_of limit front) (drop front.sent front.buf)
      (omega (arith, length-drop front.sent front.buf))

round-order :
    (limit : ℕ) (front : OutItem) (rest : List OutItem) (ch : Channel)
    → tag front.ext (chunk_of limit front).bytes ++ pending (drain_front limit front rest ch).0.out
      ≡ pending (front ∷ rest)
unfolding drain_front
round-order limit front rest ch = elim (Bool-cases (front.sent + n == length front.buf)) [
  | inl all ↦ rw all (ap (λ t. tag front.ext t ++ pending rest) (whole all))
  | inr some_left ↦ rw some_left (
      sym (append_assoc (tag front.ext (chunk_of limit front).bytes) _ (pending rest))
      ∙ ap (λ t. t ++ pending rest)
          (sym (tag-append front.ext (chunk_of limit front).bytes _) ∙ ap (tag front.ext) halves))
]
  where
    n : ℕ
    n = size_of limit front

    halves :
        (chunk_of limit front).bytes ++ drop (front.sent + n) front.buf ≡ drop front.sent front.buf
    halves =
        rw (← drop-drop front.sent n front.buf) (take-append-drop n (drop front.sent front.buf))

    whole :
        (front.sent + n == length front.buf) ≡ true
        → (chunk_of limit front).bytes ≡ drop front.sent front.buf
    whole all =
        sym (append-nil _)
        ∙ ap (λ t. (chunk_of limit front).bytes ++ t)
            (sym (drop_all (front.sent + n) front.buf (ground arith)))
        ∙ halves

round-IsQueue :
    (limit : ℕ) (front : OutItem) (rest : List OutItem) (ch : Channel)
    → 0 < limit
    → IsQueue (front ∷ rest)
    → IsQueue (drain_front limit front rest ch).0.out
      × (queued (drain_front limit front rest ch).0.out < queued (front ∷ rest))
unfolding drain_front queued
round-IsQueue limit front rest ch h (hf, hr) = ground arith

-- A round in front of the rounds that follow it.
add_round :
    (mc : Option ℕ) (front : OutItem) (rest : List OutItem) (ch : Channel)
    {r : Channel × List Bytes}
    → ch.out ≡ front ∷ rest
    → 0 < limit_of mc ch.remote_window ch.remote_max_packet
    → IsQueue (front ∷ rest)
    → Drained mc (drain_front (limit_of mc ch.remote_window ch.remote_max_packet) front rest ch).0 r
    → Drained mc ch (
      r.0,
      (drain_front (limit_of mc ch.remote_window ch.remote_max_packet) front rest ch).1 ∷ r.1,
    )
unfolding drain_front
add_round mc front rest ch {r} e positive q d =
    let limit : ℕ = limit_of mc ch.remote_window ch.remote_max_packet in
    let c : Chunk = chunk_of limit front in
    let size : length c.bytes ≡ size_of limit front = length-chunk_of limit front in
    let under : limit ≤ ch.remote_window =
      limit-le-window mc ch.remote_window ch.remote_max_packet in
    record {
      chunks = c ∷ d.chunks;
      sent = ap (λ t. message ch.remote_id c.ext c.bytes ∷ t) d.sent;
      order =
          append_assoc (tag c.ext c.bytes) (stream d.chunks) (pending r.0.out)
          ∙ ap (λ t. tag c.ext c.bytes ++ t) d.order
          ∙ round-order limit front rest ch
          ∙ ap pending (sym e);
      sized = (
        omega arith,
        omega arith,
        Sized-mono _ _ d.chunks
            (limit_mono mc ch.remote_window (ch.remote_window - size_of limit front)
              ch.remote_max_packet (omega arith))
            d.sized,
      );
      window = omega arith;
      flushed = omega arith;
      frame = d.frame;
      queue = d.queue;
      stopped = d.stopped;
    }

drain_loop-Drained :
    (fuel : ℕ) (mc : Option ℕ) (queue : List OutItem) (ch : Channel)
    → ch.out ≡ queue
    → IsQueue queue
    → queued queue < fuel
    → Drained mc ch (drain_loop fuel mc queue ch)
unfolding drain_loop
drain_loop-Drained zero mc queue ch e q h = absurd (omega arith)
drain_loop-Drained (suc fuel) mc [] ch e q h = stop-Drained mc ch (rw e q) (inl e)
drain_loop-Drained (suc fuel) mc (front ∷ rest) ch e q h = elim (Bool-cases (limit == 0)) [
  | inl closed ↦ rw closed (stop-Drained mc ch (rw e q) (inr (ground arith)))
  | inr opened ↦
      let positive : 0 < limit = ground arith in
      let (q', fewer) = round-IsQueue limit front rest ch positive q in
      rw opened (
        add_round mc front rest ch e positive q
          (drain_loop-Drained fuel mc next.out next refl q' (omega arith)))
]
  where
    limit : ℕ
    limit = limit_of mc ch.remote_window ch.remote_max_packet

    next : Channel
    next = (drain_front limit front rest ch).0

-- With something to send in every queued item, `drain_output` sends data messages whose contents,
-- with what stays queued behind them, are the queued bytes in order, each marked as stdout or
-- stderr as it was; no message is empty or above the limit that the window, the peer's maximum
-- packet and `max_chunk` set; the window shrinks and the flushed count grows by the bytes sent;
-- no other field changes; and it stops only with an empty queue or a limit of zero.
pub drain_output-Drained :
    (mc : Option ℕ) (ch : Channel) → IsQueue ch.out → Drained mc ch (drain_output mc ch)
unfolding drain_output
drain_output-Drained mc ch q =
    drain_loop-Drained (suc (queued ch.out)) mc ch.out ch refl q (omega arith)

snoc-IsQueue :
    (is : List OutItem) (i : OutItem) → IsQueue is → i.sent < length i.buf → IsQueue (is ++ i ∷ [])
snoc-IsQueue [] i q h = (h, tt)
snoc-IsQueue (j ∷ is) i (hj, q) h = (hj, snoc-IsQueue is i q h)

pending-snoc :
    (is : List OutItem) (i : OutItem)
    → pending (is ++ i ∷ []) ≡ pending is ++ tag i.ext (drop i.sent i.buf)
pending-snoc [] i = append-nil _
pending-snoc (j ∷ is) i =
    ap (λ t. tag j.ext (drop j.sent j.buf) ++ t) (pending-snoc is i)
    ∙ sym (append_assoc (tag j.ext (drop j.sent j.buf)) (pending is) _)

enqueue_lem :
    (e : Bool) (s : Bytes) (ch : Channel)
    → IsQueue ch.out
    → IsQueue (enqueue e s ch).out × (pending (enqueue e s ch).out ≡ pending ch.out ++ tag e s)
unfolding enqueue drop
enqueue_lem e [] ch q = (q, sym (append-nil _))
enqueue_lem e (b ∷ bs) ch q = (snoc-IsQueue ch.out _ q (omega arith), pending-snoc ch.out _)

-- Output joins the end of the stream, marked as stdout or stderr, and an empty write queues
-- nothing; every queued item keeps something to send.
pub enqueue_output :
    (s : Bytes) (ch : Channel)
    → IsQueue ch.out
    → IsQueue (enqueue_stdout s ch).out
      × (pending (enqueue_stdout s ch).out ≡ pending ch.out ++ tag false s)
      × IsQueue (enqueue_stderr s ch).out
      × (pending (enqueue_stderr s ch).out ≡ pending ch.out ++ tag true s)
unfolding enqueue_stdout enqueue_stderr
enqueue_output s ch q =
    let (a, b) = enqueue_lem false s ch q in let (c, d) = enqueue_lem true s ch q in (a, b, c, d)
