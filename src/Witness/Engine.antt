-- ===== src/Witness/Engine.antt =====
-- algo.rs, connection.rs and limits.rs at concrete inputs.
use ssh_bench.Common.{
  ℕ, ◌+◌, ◌-◌, bytes_eq, ◌≤◌, ◌<◌, ◌≡◌, refl, true, false, ltb, List, [], ◌∷◌, Bytes, none, some,
  ◌⊎◌, if◌then◌else◌, length, replicate, length-replicate, arith,
}
use ssh_bench.Common.Text.{codes, is_ascii}
use ssh_bench.Error.{ok}
use ssh_bench.Wire.Reader.{count}
use ssh_bench.Algo.Names.{
  kex_mlkem768_x25519, kex_curve25519, kex_curve25519_libssh, kex_algorithms, kex_strict_client,
}
use ssh_bench.Algo.KexInit.{ours_with, offered_kex, parse}
use ssh_bench.Algo.Negotiate.{contains, pick}
use ssh_bench.Algo.RoundTrip.{IsOffer, is_offer, is_offer→IsOffer, parse-ours_with}
use ssh_bench.Algo.Choice.{Chosen, pick-Chosen, strict_marker_selected}
use ssh_bench.Connection.Messages.{default_window}
use ssh_bench.Connection.Channel.{Channel, new, drain_output, ack_incoming, consume_incoming}
use ssh_bench.Connection.Output.{Drained, drain_output-Drained}
use ssh_bench.Connection.Window.{
  IsWindow, Granted, Kept, Traffic, received, consumed, run, total_received, total_consumed,
  in_flight_bounded, ack_incoming_answer, ack_incoming_reopens,
}
use ssh_bench.Limits.Admission.{IpAddr, v4, ConnectionLimiter, ConnectionGuard, try_admit}
use ssh_bench.Limits.Admission
use ssh_bench.Limits.Counting.{live}
use ssh_bench.Limits.Caps.{
  Reached, started, stepped, admitted, LiveWithin, admits, has_room, caps_hold, try_admit_exact,
}

abbrev zeros : Bytes → ℕ → Bytes
zeros s n = replicate n 0

abbrev names : List Bytes
names = codes "none" ∷ []

names-IsOffer : IsOffer names
unfolding is_offer is_ascii count
names-IsOffer = is_offer→IsOffer names refl

parse-ours_with_example :
    let k = ours_with zeros false [] true names names in parse k.payload ≡ ok k
parse-ours_with_example =
    parse-ours_with zeros (λ s n. length-replicate n 0) false [] true names names names-IsOffer
      names-IsOffer

pick-Chosen_example :
    Chosen
      (codes "a" ∷ codes "b" ∷ [])
      (codes "b" ∷ [])
      "kex"
      (pick (codes "a" ∷ codes "b" ∷ []) (codes "b" ∷ []) "kex")
pick-Chosen_example = pick-Chosen (codes "a" ∷ codes "b" ∷ []) (codes "b" ∷ []) "kex"

strict_marker_selected_example :
    pick (offered_kex false false) (kex_strict_client ∷ []) "kex" ≡ ok kex_strict_client
unfolding kex_algorithms kex_strict_client kex_mlkem768_x25519 kex_curve25519 kex_curve25519_libssh
    contains bytes_eq
strict_marker_selected_example =
    strict_marker_selected false (kex_strict_client ∷ []) (refl, (refl, (refl, tt))) refl

abbrev opened : Channel
opened = record (new 0) {
  remote_id = 7;
  remote_window = 3;
  remote_max_packet = 2;
  out = record { ext = false; buf = 1 ∷ 2 ∷ 3 ∷ 4 ∷ []; sent = 0 } ∷ [];
}

drain_output-Drained_example : Drained none opened (drain_output none opened)
drain_output-Drained_example = drain_output-Drained none opened (omega arith, tt)

abbrev traffic : List Traffic
traffic = received 100 ∷ consumed 40 ∷ received 5 ∷ []

abbrev after_traffic : Channel
after_traffic = record (new 0) { local_window = default_window - 105; unacked = 40 }

in_flight_bounded_example :
    (total_received traffic ≤ default_window + total_consumed traffic) × IsWindow after_traffic
unfolding run new consume_incoming ack_incoming
in_flight_bounded_example = in_flight_bounded traffic 0 after_traffic refl

ack_incoming_answer_example :
    Granted 70 after_traffic (ack_incoming 70 after_traffic)
    ⊎ Kept 70 after_traffic (ack_incoming 70 after_traffic)
unfolding new
ack_incoming_answer_example = ack_incoming_answer 70 after_traffic (omega arith)

abbrev starved : Channel
starved = record (new 0) { local_window = 0 }

ack_incoming_reopens_example :
    (add : ℕ) × ((ack_incoming 1 starved).1 ≡ some add)
    × (0 < add)
    × ((ack_incoming 1 starved).0.local_window ≡ add)
ack_incoming_reopens_example = ack_incoming_reopens 1 starved refl (omega arith)

abbrev first : ConnectionGuard
first = record { ip = v4 1; counted = true }

abbrev limiter : ConnectionLimiter
limiter = record { permits = 1; per_ip_max = some 1; per_ip = (v4 1, 1) ∷ [] }

one_connection : Reached 2 (some 1) limiter (first ∷ [])
unfolding Admission.new try_admit Admission.admit_capped Admission.admit_counted Admission.commit
    Admission.try_acquire Admission.get Admission.insert Admission.remove Admission.or_insert
    Admission.count_of Admission.ip_eq
one_connection = stepped started (admitted (v4 1) first refl)

caps_hold_example : (length (first ∷ []) ≤ 2) × LiveWithin (some 1) (first ∷ [])
caps_hold_example = caps_hold 2 (some 1) limiter (first ∷ []) one_connection

try_admit_exact_example :
    admits (try_admit (v4 1) limiter)
    ≡ (if has_room (some 1) (live (v4 1) (first ∷ [])) then ltb (length (first ∷ [])) 2 else false)
try_admit_exact_example = try_admit_exact 2 (some 1) limiter (first ∷ []) (v4 1) one_connection
