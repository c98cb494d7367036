-- ===== src/AckHandler/Sent/Invariant/Receiving.antt =====
-- src/sa-ecf/ackhandler/sent_packet_handler.go: ACK and CLOSE_PATH frames keep the invariant.
use ivsh.Common.{ℕ, ◌<◌, ◌≡◌, arith, List, [], ◌∷◌, none, ltb, inl, inr, Bool-cases}
use ivsh.Common.Result.{Result, ok, err}
use mathlib.Core.List.{reverse}
use ivsh.Wire.AckFrame.{AckRange, AckFrame, ClosePathFrame}
use ivsh.AckHandler.Packet.{Packet}
use ivsh.AckHandler.Sent.State.{SentPacketHandler, Environment, Call, largest_in_order_acked}
use ivsh.AckHandler.Sent.Newly.{
  Bug, cons, next_range, take_if_in_range, newly_acked, determine_newly_acked_packets,
  determine_newly_acked_packets_close_path,
}
use ivsh.AckHandler.Sent.Newly.Filtered.{Ascending}
use ivsh.AckHandler.Sent.Loss.{delay_until_lost, detect_lost_packets, set_inflight_as_lost}
use ivsh.AckHandler.Sent.Acks.{
  update_rtt_and_slow_start, process_acked, received_ack, received_close_path, delete_index,
  garbage_collect_skipped_packets,
}
use ivsh.AckHandler.Sent.History.{Chosen, Chosen-skip, Chosen-take, find_lost-Chosen, up_to-Chosen}
use ivsh.AckHandler.Sent.Invariant.{Inv, lose_all-Inv, acknowledge_all-Inv}
use ivsh.AckHandler.Sent.Acks.Branches.{entered, received_ack-elim, received_close_path-elim}
use ivsh.AckHandler.Sent.Invariant.Sending.{alarm-Inv, length-drop}

-- The packets that are listed, if they are, are packets of the history.
abbrev pub IsChosen : ℕ → List Packet → Result Bug (List Packet) → Type 0
IsChosen a l (ok ps) = Chosen a ps l
IsChosen a l (err e) = Unit {0}

IsChosen-skip :
    (a : ℕ) (p : Packet) (l : List Packet) (r : Result Bug (List Packet))
    → a < p.packet_number
    → IsChosen p.packet_number l r
    → IsChosen a (p ∷ l) r
IsChosen-skip a p l (ok ps) lt c = Chosen-skip a p ps l lt c
IsChosen-skip a p l (err e) lt c = tt

cons-IsChosen :
    (a : ℕ) (p : Packet) (l : List Packet) (r : Result Bug (List Packet))
    → a < p.packet_number
    → IsChosen p.packet_number l r
    → IsChosen a (p ∷ l) (cons p r)
cons-IsChosen a p l (ok ps) lt c = Chosen-take a p ps l lt c
cons-IsChosen a p l (err e) lt c = tt

take_if_in_range-IsChosen :
    (a : ℕ) (p : Packet) (l : List Packet) (rs : List AckRange) (r : Result Bug (List Packet))
    → a < p.packet_number
    → IsChosen p.packet_number l r
    → IsChosen a (p ∷ l) (take_if_in_range p rs r)
take_if_in_range-IsChosen a p l [] r lt c = cons-IsChosen a p l r lt c
take_if_in_range-IsChosen a p l (s ∷ rs) r lt c = elim (Bool-cases (ltb p.packet_number s.first)) [
  | inl below ↦ rw below (IsChosen-skip a p l r lt c)
  | inr above ↦ elim (Bool-cases (ltb s.last p.packet_number)) [
    | inl behind ↦ rw (above, behind) tt
    | inr held ↦ rw (above, held) (cons-IsChosen a p l r lt c)
  ]
]

newly_acked-IsChosen :
    (lowest largest a : ℕ) (rs : List AckRange) (l : List Packet)
    → Ascending a l
    → IsChosen a l (newly_acked lowest largest rs l)
unfolding newly_acked
newly_acked-IsChosen lowest largest a rs [] v = (tt, tt)
newly_acked-IsChosen lowest largest a rs (p ∷ ps) (lt, v) =
    let n = p.packet_number in
    elim (Bool-cases (ltb n lowest)) [
      | inl low ↦ rw low (IsChosen-skip a p ps _ lt (newly_acked-IsChosen lowest largest n rs ps v))
      | inr high ↦ elim (Bool-cases (ltb largest n)) [
        | inl above ↦ rw (high, above) (tt, tt)
        | inr inside ↦
            rw (high, inside)
              (take_if_in_range-IsChosen a p ps (next_range n rs) _ lt
                (newly_acked-IsChosen lowest largest n (next_range n rs) ps v))
      ]
    ]

pub detect_lost_packets-Inv :
    (env : Environment) (now : ℕ) (h : SentPacketHandler)
    → Inv h
    → Inv (detect_lost_packets env now h)
unfolding detect_lost_packets
detect_lost_packets-Inv env now h v =
    lose_all-Inv 0 _ _ (record { in_flight = v.in_flight; few_skipped = v.few_skipped })
      (find_lost-Chosen now (delay_until_lost env h) h.largest_acked none 0 h.packet_history
        v.in_flight.ascending)

-- Taking all packets up to the largest acknowledged one for lost keeps the invariant.
pub set_inflight_as_lost-Inv : (h : SentPacketHandler) → Inv h → Inv (set_inflight_as_lost h)
unfolding set_inflight_as_lost
set_inflight_as_lost-Inv h v =
    lose_all-Inv 0 _ _ (record { in_flight = v.in_flight; few_skipped = v.few_skipped })
      (up_to-Chosen h.largest_acked 0 h.packet_history v.in_flight.ascending)

garbage-Inv : (h : SentPacketHandler) → Inv h → Inv (garbage_collect_skipped_packets h)
unfolding garbage_collect_skipped_packets
garbage-Inv h v = record {
  in_flight = v.in_flight;
  few_skipped =
      let fewer =
        length-drop (delete_index (largest_in_order_acked h) 0 0 h.skipped_packets)
          h.skipped_packets in
      let few = v.few_skipped in omega arith;
}

process_acked-Inv :
    (env : Environment) (now : ℕ) (ack : AckFrame) (acked : List Packet) (h : SentPacketHandler)
    → Inv h
    → Chosen 0 acked h.packet_history
    → Inv (process_acked env now ack acked h)
unfolding process_acked
process_acked-Inv env now ack acked h v c =
    let w =
      garbage-Inv _
        (alarm-Inv env _ (detect_lost_packets-Inv env now _ (acknowledge_all-Inv 0 acked h v c))) in
    record { in_flight = w.in_flight; few_skipped = w.few_skipped }

determined-Chosen :
    (ack : AckFrame) (acked l : List Packet)
    → Ascending 0 l
    → determine_newly_acked_packets ack l ≡ ok acked
    → Chosen 0 acked l
unfolding determine_newly_acked_packets
determined-Chosen ack acked l v listed =
    let chosen =
      newly_acked-IsChosen ack.lowest_acked ack.largest_acked 0 (reverse ack.ack_ranges) l v in
    rw listed at chosen

-- An ACK frame, accepted or not, keeps the invariant.
pub received_ack-Inv :
    (env : Environment) (now : ℕ) (ack : AckFrame) (with_packet_number rcv_time : ℕ)
    (h : SentPacketHandler)
    → Inv h
    → Inv (received_ack env now ack with_packet_number rcv_time h).0
unfolding entered update_rtt_and_slow_start
received_ack-Inv env now ack with_packet_number rcv_time h v =
    let kept : (calls : List Call) (largest : ℕ)
        → Inv (record h {
          largest_received_packet_with_ack = with_packet_number;
          largest_acked = largest;
          calls = calls;
        }) =
      λ calls largest. record { in_flight = v.in_flight; few_skipped = v.few_skipped } in
    received_ack-elim env now ack with_packet_number rcv_time h (λ r. Inv r.0) v v (kept _ _)
      (kept _ _) (kept _ _)
      (λ acked listed.
        process_acked-Inv env now ack acked _ (kept _ _)
          (determined-Chosen ack acked h.packet_history v.in_flight.ascending listed))

determined_close_path-Chosen :
    (f : ClosePathFrame) (acked l : List Packet)
    → Ascending 0 l
    → determine_newly_acked_packets_close_path f l ≡ ok acked
    → Chosen 0 acked l
unfolding determine_newly_acked_packets_close_path
determined_close_path-Chosen f acked l v listed =
    let chosen = newly_acked-IsChosen f.lowest_acked f.largest_acked 0 (reverse f.ack_ranges) l v in
    rw listed at chosen

-- A CLOSE_PATH frame, accepted or not, keeps the invariant.
pub received_close_path-Inv :
    (f : ClosePathFrame) (with_packet_number : ℕ) (h : SentPacketHandler)
    → Inv h
    → Inv (received_close_path f with_packet_number h).0
received_close_path-Inv f with_packet_number h v =
    let kept : Inv (record h { largest_received_packet_with_ack = with_packet_number }) = record {
      in_flight = v.in_flight;
      few_skipped = v.few_skipped;
    } in
    received_close_path-elim f with_packet_number h (λ r. Inv r.0) v v kept kept
      (λ acked listed. garbage-Inv _ (
        set_inflight_as_lost-Inv _ (
          acknowledge_all-Inv 0 acked _ kept
            (determined_close_path-Chosen f acked h.packet_history v.in_flight.ascending listed))))
