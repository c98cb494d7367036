-- ===== src/AckHandler/Sent/Invariant/Sending.antt =====
-- src/sa-ecf/ackhandler/sent_packet_handler.go: sending a packet keeps the invariant.
use ivsh.Common.{
  ℕ, zero, suc, ◌+◌, ◌-◌, ◌%◌, ◌^◌, ◌≤◌, ◌<◌, ◌≡◌, refl, ap, ◌∙◌, arith, List, [], ◌∷◌, ◌++◌, Bool,
  true, false, some, ltb, leb, inl, inr, Bool-cases, All, All-map, sum_of, sum_of-append, length,
  length-append, drop, add64, IsU64,
}
use ivsh.AckHandler.Packet.{Packet, strip_non_retransmittable_frames}
use ivsh.AckHandler.Sent.State.{Call, SentPacketHandler, Environment, new_sent_packet_handler}
use ivsh.AckHandler.Sent.Alarm.{update_loss_detection_alarm}
use ivsh.AckHandler.Sent.Newly.Filtered.{Ascending}
use ivsh.AckHandler.Sent.Send.{
  trim, record_sent, sent_packet, skip_numbers, max_tracked_sent_packets,
  max_tracked_skipped_packets,
}
use ivsh.AckHandler.Sent.Invariant.{InFlight, Inv, size}

pub new_sent_packet_handler-Inv : Inv new_sent_packet_handler
unfolding new_sent_packet_handler
new_sent_packet_handler-Inv = record {
  in_flight = record {
    ascending = tt;
    sent = tt;
    sized = tt;
    tracked = omega arith;
    counted = refl;
  };
  few_skipped = omega arith;
}

pub alarm-Inv :
    (env : Environment) (h : SentPacketHandler) → Inv h → Inv (update_loss_detection_alarm env h)
unfolding update_loss_detection_alarm
alarm-Inv env h v = record { in_flight = v.in_flight; few_skipped = v.few_skipped }

pub length-drop : (n : ℕ) (l : List ℕ) → length (drop n l) ≤ length l
length-drop zero l = omega arith
length-drop (suc n) [] = omega arith
length-drop (suc n) (x ∷ xs) = let rest = length-drop n xs in omega arith

skip_numbers-few :
    (rounds p : ℕ) (l : List ℕ)
    → length l ≤ max_tracked_skipped_packets
    → length (skip_numbers rounds p l) ≤ max_tracked_skipped_packets
unfolding skip_numbers
skip_numbers-few zero p l le = le
skip_numbers-few (suc rounds) p l le = skip_numbers-few rounds (p + 1) _ (trim_few p l le)
  where
    trim_few :
        (q : ℕ) (m : List ℕ)
        → length m ≤ max_tracked_skipped_packets
        → length (trim (m ++ (q ∷ []))) ≤ max_tracked_skipped_packets
    trim_few q [] h = omega arith
    trim_few q (x ∷ m) h = let grown = length-append m (q ∷ []) in ground arith

Ascending-snoc :
    (a : ℕ) (l : List Packet) (p : Packet)
    → All (λ (q : Packet). q.packet_number < p.packet_number) l
    → a < p.packet_number
    → Ascending a l
    → Ascending a (l ++ (p ∷ []))
Ascending-snoc a [] p h lt v = (lt, tt)
Ascending-snoc a (q ∷ qs) p (below, h) lt (above, v) =
    (above, Ascending-snoc q.packet_number qs p h below v)

pub All-snoc :
    (P : Packet → Type 0) (l : List Packet) (p : Packet) → All P l → P p → All P (l ++ (p ∷ []))
All-snoc P [] p h x = (x, tt)
All-snoc P (q ∷ qs) p (y, h) x = (y, All-snoc P qs p h x)

add64-sum : (s n : ℕ) → add64 (s % 2 ^ 64) n ≡ (s + n) % 2 ^ 64
add64-sum s n = omega arith

-- A packet with the next number joins the history.
push-InFlight :
    (last bytes : ℕ) (p : Packet) (l : List Packet)
    → InFlight last bytes l
    → last < p.packet_number
    → IsU64 p.length
    → length l + 1 ≤ max_tracked_sent_packets
    → InFlight p.packet_number (add64 bytes p.length) (l ++ (p ∷ []))
push-InFlight last bytes p l v lt small room = record {
  ascending =
      Ascending-snoc 0 l p (All-map (λ (q : Packet) le. omega arith) l v.sent) (omega arith)
        v.ascending;
  sent = All-snoc _ l p (All-map (λ (q : Packet) le. omega arith) l v.sent) (omega arith);
  sized = All-snoc _ l p v.sized small;
  tracked = rw (length-append l (p ∷ [])) room;
  counted =
      rw (v.counted, sum_of-append size l (p ∷ []))
        (add64-sum (sum_of size l) p.length ∙ ap (λ (s : ℕ). s % 2 ^ 64) (omega arith));
}

raise-InFlight :
    (last n bytes : ℕ) (l : List Packet) → InFlight last bytes l → last < n → InFlight n bytes l
raise-InFlight last n bytes l v lt = record {
  ascending = v.ascending;
  sent = All-map (λ (q : Packet) le. omega arith) l v.sent;
  sized = v.sized;
  tracked = v.tracked;
  counted = v.counted;
}

record_sent-Inv :
    (now : ℕ) (p : Packet) (b : Bool) (last : ℕ) (h : SentPacketHandler)
    → InFlight last h.bytes_in_flight h.packet_history
    → length h.skipped_packets ≤ max_tracked_skipped_packets
    → h.last_sent_packet_number ≡ p.packet_number
    → last < p.packet_number
    → IsU64 p.length
    → length h.packet_history + 1 ≤ max_tracked_sent_packets
    → Inv (record_sent now p b h)
unfolding record_sent
record_sent-Inv now p true last h v few same lt small room = record {
  in_flight = rw same (
      push-InFlight last h.bytes_in_flight (record p { send_time = some now }) h.packet_history v lt
        small room);
  few_skipped = few;
}
record_sent-Inv now p false last h v few same lt small room = record {
  in_flight = rw same (raise-InFlight last p.packet_number h.bytes_in_flight h.packet_history v lt);
  few_skipped = few;
}

pub called-Inv :
    (calls : List Call) (h : SentPacketHandler) → Inv h → Inv (record h { calls = calls })
called-Inv calls h v = record { in_flight = v.in_flight; few_skipped = v.few_skipped }

-- Sending a packet keeps the invariant.
pub sent_packet-Inv :
    (env : Environment) (now : ℕ) (p : Packet) (h : SentPacketHandler)
    → IsU64 p.length
    → Inv h
    → Inv (sent_packet env now p h).0
unfolding sent_packet
sent_packet-Inv env now p h small v =
    elim (Bool-cases (leb p.packet_number h.last_sent_packet_number)) [
      | inl old ↦ rw old v
      | inr new ↦
          elim (Bool-cases (
            ltb max_tracked_sent_packets
              (length h.retransmission_queue + length h.packet_history + 1))) [
                | inl full ↦ rw (new, full) v
                | inr room ↦
                    rw (new, room)
                      (alarm-Inv env _ (
                        called-Inv _ _ (
                          record_sent-Inv now
                            (record p { frames = strip_non_retransmittable_frames p.frames }) _
                            h.last_sent_packet_number _ v.in_flight
                            (skip_numbers-few (p.packet_number - h.last_sent_packet_number - 1)
                              (h.last_sent_packet_number + 1) h.skipped_packets v.few_skipped)
                            refl (ground (arith, new)) small (ground (arith, room)))))
              ]
    ]
