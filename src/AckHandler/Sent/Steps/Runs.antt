-- ===== src/AckHandler/Sent/Steps/Runs.antt =====
-- src/sa-ecf/ackhandler/sent_packet_handler.go: what holds after every run.
use ivsh.Common.{List, [], ◌∷◌, Option, none, some, add64, All, IsU64}
use ivsh.AckHandler.Packet.{Packet}
use ivsh.AckHandler.Sent.State.{SentPacketHandler, new_sent_packet_handler}
use ivsh.AckHandler.Sent.Queue.{
  dequeue_packet_for_retransmission, duplicate_packet, get_stop_waiting_frame,
}
use ivsh.AckHandler.Sent.Invariant.{Inv}
use ivsh.AckHandler.Sent.Invariant.Sending.{new_sent_packet_handler-Inv, sent_packet-Inv}
use ivsh.AckHandler.Sent.Invariant.Receiving.{
  received_ack-Inv, received_close_path-Inv, set_inflight_as_lost-Inv,
}
use ivsh.AckHandler.Sent.Invariant.Firing.{on_alarm-Inv}
use ivsh.AckHandler.Sent.Steps.{
  Event, sends, acks, closes, fires, loses_inflight, dequeues, duplicates, gets_stop_waiting, step,
  run,
}

-- The length of a packet that is sent is a uint64.
abbrev pub IsSized : Event → Type 0
IsSized (sends env now p) = IsU64 p.length
IsSized _ = Unit {0}

dequeue-Inv : (h : SentPacketHandler) → Inv h → Inv (dequeue_packet_for_retransmission h).0
unfolding dequeue_packet_for_retransmission
dequeue-Inv h v = go h.retransmission_queue
  where
    go :
        (l : List Packet)
        → let r : SentPacketHandler × Option Packet = elim l [
          | [] ↦ (h, none)
          | p ∷ ps ↦ (
            record h { retransmission_queue = ps; retransmissions = add64 h.retransmissions 1 },
            some p,
          )
        ] in
          Inv r.0
    go [] = v
    go (p ∷ ps) = record { in_flight = v.in_flight; few_skipped = v.few_skipped }

step-Inv : (e : Event) (h : SentPacketHandler) → IsSized e → Inv h → Inv (step e h).0
unfolding step duplicate_packet get_stop_waiting_frame
step-Inv (sends env now p) h s v = sent_packet-Inv env now p h s v
step-Inv (acks env now ack with_packet_number rcv_time) h s v =
    received_ack-Inv env now ack with_packet_number rcv_time h v
step-Inv (closes f with_packet_number) h s v = received_close_path-Inv f with_packet_number h v
step-Inv (fires env now) h s v = on_alarm-Inv env now h v
step-Inv loses_inflight h s v = set_inflight_as_lost-Inv h v
step-Inv dequeues h s v = dequeue-Inv h v
step-Inv (duplicates p) h s v = record { in_flight = v.in_flight; few_skipped = v.few_skipped }
step-Inv (gets_stop_waiting force) h s v = record {
  in_flight = v.in_flight;
  few_skipped = v.few_skipped;
}

run_on-Inv : (es : List Event) (h : SentPacketHandler) → All IsSized es → Inv h → Inv (run es h)
unfolding run
run_on-Inv [] h s v = v
run_on-Inv (e ∷ es) h (s, ss) v = run_on-Inv es (step e h).0 ss (step-Inv e h s v)

-- Whatever the sequence of operations, those that fail included: the history of a handler that started
-- empty is in the order of the packet numbers, which are not above the last one sent; it holds 5000
-- packets at most; the bytes in flight are the lengths of its packets, added modulo 2 ^ 64; and at
-- most 10 skipped numbers are kept. The packets that are sent have lengths below 2 ^ 64.
pub run-Inv : (es : List Event) → All IsSized es → Inv (run es new_sent_packet_handler)
run-Inv es s = run_on-Inv es new_sent_packet_handler s new_sent_packet_handler-Inv
