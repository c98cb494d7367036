-- ===== src/AckHandler/Sent/Steps/AlarmRuns.antt =====
-- src/sa-ecf/ackhandler/sent_packet_handler.go: every operation keeps the alarm set.
use ivsh.Common.{ℕ, add64, ◌≡◌, List, [], ◌∷◌, false, Option, none, some, arith, length, All}
use ivsh.Wire.AckFrame.{AckFrame, ClosePathFrame}
use ivsh.AckHandler.Packet.{Packet}
use ivsh.AckHandler.Sent.State.{
  SentPacketHandler, Environment, new_sent_packet_handler, acknowledge_all,
}
use ivsh.AckHandler.Sent.Loss.{set_inflight_as_lost}
use ivsh.AckHandler.Sent.Acks.{
  update_rtt_and_slow_start, process_acked, received_ack, received_close_path,
  garbage_collect_skipped_packets,
}
use ivsh.AckHandler.Sent.Acks.Branches.{entered, received_ack-elim, received_close_path-elim}
use ivsh.AckHandler.Sent.Timeout.{
  any_retransmittable, retransmit_all_packets, retransmit_oldest_two_packets, on_alarm,
}
use ivsh.AckHandler.Sent.Queue.{
  dequeue_packet_for_retransmission, duplicate_packet, get_stop_waiting_frame,
}
use ivsh.AckHandler.Sent.Closed.{
  acknowledge_all-Closed, detect_lost_packets-Closed, set_inflight_as_lost-Closed,
  retransmit_tlp-Closed, retransmit_oldest_packet-Closed, queue_all-Closed, acknowledge_all-alarm,
  set_inflight_as_lost-alarm,
}
use ivsh.AckHandler.Sent.Invariant.Firing.{on_alarm-elim}
use ivsh.AckHandler.Sent.Steps.{
  Event, sends, acks, closes, fires, loses_inflight, dequeues, duplicates, gets_stop_waiting, step,
  run,
}
use ivsh.AckHandler.Sent.Steps.AlarmSet.{
  Waiting, HasAlarm, IsArmed, IsListed, remove-Waiting, remove-HasAlarm, alarm-IsArmed,
  sent_packet-IsArmed, touched-IsArmed,
}

process_acked-IsArmed :
    (env : Environment) (now : ℕ) (ack : AckFrame) (acked : List Packet) (h : SentPacketHandler)
    → Waiting h.packet_history
    → IsArmed (process_acked env now ack acked h)
unfolding process_acked garbage_collect_skipped_packets
process_acked-IsArmed env now ack acked h v =
    let w = alarm-IsArmed env _ (
      detect_lost_packets-Closed Waiting remove-Waiting env now (acknowledge_all acked h)
        (acknowledge_all-Closed Waiting remove-Waiting acked h v)) in
    record { waiting = w.waiting; set = w.set }

received_ack-IsArmed :
    (env : Environment) (now : ℕ) (ack : AckFrame) (with_packet_number rcv_time : ℕ)
    (h : SentPacketHandler)
    → IsArmed h
    → IsArmed (received_ack env now ack with_packet_number rcv_time h).0
unfolding entered update_rtt_and_slow_start
received_ack-IsArmed env now ack with_packet_number rcv_time h v =
    received_ack-elim env now ack with_packet_number rcv_time h (λ r. IsArmed r.0) v v
      (touched-IsArmed _ _ _ h v) (touched-IsArmed _ _ _ h v) (touched-IsArmed _ _ _ h v)
      (λ acked listed. process_acked-IsArmed env now ack acked _ v.waiting)

-- The alarm is kept.
lost-IsArmed : (h : SentPacketHandler) → IsArmed h → IsArmed (set_inflight_as_lost h)
lost-IsArmed h v = record {
  waiting = set_inflight_as_lost-Closed Waiting remove-Waiting h v.waiting;
  set =
      rw (set_inflight_as_lost-alarm h)
        (set_inflight_as_lost-Closed (λ l. HasAlarm l h.alarm) (remove-HasAlarm h.alarm) h v.set);
}

acknowledged-IsArmed :
    (ps : List Packet) (h : SentPacketHandler) → IsArmed h → IsArmed (acknowledge_all ps h)
acknowledged-IsArmed ps h v = record {
  waiting = acknowledge_all-Closed Waiting remove-Waiting ps h v.waiting;
  set =
      rw (acknowledge_all-alarm ps h)
        (acknowledge_all-Closed (λ l. HasAlarm l h.alarm) (remove-HasAlarm h.alarm) ps h v.set);
}

received_close_path-IsArmed :
    (f : ClosePathFrame) (with_packet_number : ℕ) (h : SentPacketHandler)
    → IsArmed h
    → IsArmed (received_close_path f with_packet_number h).0
unfolding garbage_collect_skipped_packets
received_close_path-IsArmed f with_packet_number h v =
    received_close_path-elim f with_packet_number h (λ r. IsArmed r.0) v v
      (touched-IsArmed _ _ _ h v) (touched-IsArmed _ _ _ h v)
      (λ acked listed.
        let w =
          lost-IsArmed _
            (acknowledged-IsArmed acked _ (touched-IsArmed with_packet_number _ _ h v)) in
        record { waiting = w.waiting; set = w.set })

-- Without a packet that IsRetransmittable holds for, the history is empty.
idle-HasAlarm :
    (l : List Packet) (alarm : Option ℕ)
    → Waiting l
    → any_retransmittable l ≡ false
    → HasAlarm l alarm
unfolding any_retransmittable
idle-HasAlarm [] alarm v idle = tt
idle-HasAlarm (p ∷ ps) alarm (here, v) idle = ground (arith, here)

on_alarm-IsArmed :
    (env : Environment) (now : ℕ) (h : SentPacketHandler) → IsArmed h → IsArmed (on_alarm env now h)
unfolding retransmit_all_packets retransmit_oldest_two_packets
on_alarm-IsArmed env now h v =
    let w = v.waiting in
    on_alarm-elim env now h IsArmed
      (λ idle. record { waiting = w; set = idle-HasAlarm h.packet_history none w idle })
      (λ early. alarm-IsArmed env _ (detect_lost_packets-Closed Waiting remove-Waiting env now h w))
      (λ probe. alarm-IsArmed env _ (retransmit_tlp-Closed Waiting remove-Waiting h w))
      (λ failed.
        alarm-IsArmed env _ (queue_all-Closed Waiting remove-Waiting (length h.packet_history) h w))
      (λ alive. alarm-IsArmed env _ (
        retransmit_oldest_packet-Closed Waiting remove-Waiting _
          (retransmit_oldest_packet-Closed Waiting remove-Waiting h w)))

dequeue-IsArmed :
    (h : SentPacketHandler) → IsArmed h → IsArmed (dequeue_packet_for_retransmission h).0
unfolding dequeue_packet_for_retransmission
dequeue-IsArmed h v = go h.retransmission_queue
  where
    go :
        (l : List Packet)
        → let r : SentPacketHandler × Option Packet = elim l [
          | [] ↦ (h, none)
          | p ∷ ps ↦ (
            record h { retransmission_queue = ps; retransmissions = add64 h.retransmissions 1 },
            some p,
          )
        ] in
          IsArmed r.0
    go [] = v
    go (p ∷ ps) = record { waiting = v.waiting; set = v.set }

step-IsArmed : (e : Event) (h : SentPacketHandler) → IsListed e → IsArmed h → IsArmed (step e h).0
unfolding step duplicate_packet get_stop_waiting_frame
step-IsArmed (sends env now p) h s v = sent_packet-IsArmed env now p h s v
step-IsArmed (acks env now ack with_packet_number rcv_time) h s v =
    received_ack-IsArmed env now ack with_packet_number rcv_time h v
step-IsArmed (closes f with_packet_number) h s v =
    received_close_path-IsArmed f with_packet_number h v
step-IsArmed (fires env now) h s v = on_alarm-IsArmed env now h v
step-IsArmed loses_inflight h s v = lost-IsArmed h v
step-IsArmed dequeues h s v = dequeue-IsArmed h v
step-IsArmed (duplicates p) h s v = record { waiting = v.waiting; set = v.set }
step-IsArmed (gets_stop_waiting force) h s v = record { waiting = v.waiting; set = v.set }

run_on-IsArmed :
    (es : List Event) (h : SentPacketHandler) → All IsListed es → IsArmed h → IsArmed (run es h)
unfolding run
run_on-IsArmed [] h s v = v
run_on-IsArmed (e ∷ es) h (s, ss) v = run_on-IsArmed es (step e h).0 ss (step-IsArmed e h s v)

-- Whatever the sequence of operations, those that fail included: while the history of a handler that
-- started empty holds a packet, the alarm is set, and every packet of the history has a frame that
-- IsRetransmittable lists. No packet that is sent has a CONNECTION_CLOSE or a CLOSE_PATH frame.
pub run-IsArmed : (es : List Event) → All IsListed es → IsArmed (run es new_sent_packet_handler)
unfolding new_sent_packet_handler
run-IsArmed es s = run_on-IsArmed es new_sent_packet_handler s (record { waiting = tt; set = tt })
