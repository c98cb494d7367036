-- ===== src/AckHandler/Sent/Steps/Errors.antt =====
-- src/sa-ecf/ackhandler/sent_packet_handler.go: operations that fail.
use ivsh.Common.{
  ℕ, ◌+◌, ◌≡◌, refl, List, Option, none, some, ltb, leb, inl, inr, Bool-cases, length,
}
use ivsh.Wire.AckFrame.{AckFrame, ClosePathFrame}
use ivsh.AckHandler.Packet.{Packet}
use ivsh.AckHandler.Sent.State.{Call, SentPacketHandler, Environment}
use ivsh.AckHandler.Sent.Send.{Error, sent_packet, max_tracked_sent_packets}
use ivsh.AckHandler.Sent.Acks.{update_rtt_and_slow_start, received_ack, received_close_path}
use ivsh.AckHandler.Sent.Acks.Branches.{entered, received_ack-elim, received_close_path-elim}
use ivsh.AckHandler.Sent.Steps.{
  Event, sends, acks, closes, fires, loses_inflight, dequeues, duplicates, gets_stop_waiting, step,
}

-- Nothing that is sent, retransmitted or waited for has changed.
pub record Unchanged (h k : SentPacketHandler) : Type 0 where
  pub history : k.packet_history ≡ h.packet_history
  pub queue : k.retransmission_queue ≡ h.retransmission_queue
  pub bytes : k.bytes_in_flight ≡ h.bytes_in_flight
  pub skipped : k.skipped_packets ≡ h.skipped_packets
  pub last : k.last_sent_packet_number ≡ h.last_sent_packet_number
  pub manager : k.stop_waiting_manager ≡ h.stop_waiting_manager
  pub alarm : k.alarm ≡ h.alarm
  pub loss_time : k.loss_time ≡ h.loss_time

same : (h : SentPacketHandler) → Unchanged h h
same h = record {
  history = refl;
  queue = refl;
  bytes = refl;
  skipped = refl;
  last = refl;
  manager = refl;
  alarm = refl;
  loss_time = refl;
}

-- The fields that are set before the last checks are not among them.
touched :
    (h : SentPacketHandler) (with_packet_number largest : ℕ) (calls : List Call)
    → Unchanged h (record h {
      largest_received_packet_with_ack = with_packet_number;
      largest_acked = largest;
      calls = calls;
    })
touched h with_packet_number largest calls = record {
  history = refl;
  queue = refl;
  bytes = refl;
  skipped = refl;
  last = refl;
  manager = refl;
  alarm = refl;
  loss_time = refl;
}

-- An operation that failed with an error, or did not fail.
abbrev IsHarmless : SentPacketHandler → SentPacketHandler × Option Error → Type 0
IsHarmless h (k, none) = Unit {0}
IsHarmless h (k, some e) = Unchanged h k

sent_packet-IsHarmless :
    (env : Environment) (now : ℕ) (p : Packet) (h : SentPacketHandler)
    → IsHarmless h (sent_packet env now p h)
unfolding sent_packet
sent_packet-IsHarmless env now p h =
    elim (Bool-cases (leb p.packet_number h.last_sent_packet_number)) [
      | inl old ↦ rw old (same h)
      | inr new ↦
          elim (Bool-cases (
            ltb max_tracked_sent_packets
              (length h.retransmission_queue + length h.packet_history + 1))) [
                | inl full ↦ rw (new, full) (same h)
                | inr room ↦ rw (new, room) tt
              ]
    ]

received_ack-IsHarmless :
    (env : Environment) (now : ℕ) (ack : AckFrame) (with_packet_number rcv_time : ℕ)
    (h : SentPacketHandler)
    → IsHarmless h (received_ack env now ack with_packet_number rcv_time h)
unfolding entered update_rtt_and_slow_start
received_ack-IsHarmless env now ack with_packet_number rcv_time h =
    received_ack-elim env now ack with_packet_number rcv_time h (IsHarmless h) (same h) (same h) tt
      (touched h _ _ _) (touched h _ _ _) (λ acked listed. tt)

received_close_path-IsHarmless :
    (f : ClosePathFrame) (with_packet_number : ℕ) (h : SentPacketHandler)
    → IsHarmless h (received_close_path f with_packet_number h)
received_close_path-IsHarmless f with_packet_number h =
    received_close_path-elim f with_packet_number h (IsHarmless h) (same h) (same h)
      (touched h _ _ _) (touched h _ _ _) (λ acked listed. tt)

step-IsHarmless : (e : Event) (h : SentPacketHandler) → IsHarmless h (step e h)
unfolding step
step-IsHarmless (sends env now p) h = sent_packet-IsHarmless env now p h
step-IsHarmless (acks env now ack with_packet_number rcv_time) h =
    received_ack-IsHarmless env now ack with_packet_number rcv_time h
step-IsHarmless (closes f with_packet_number) h =
    received_close_path-IsHarmless f with_packet_number h
step-IsHarmless (fires env now) h = tt
step-IsHarmless loses_inflight h = tt
step-IsHarmless dequeues h = tt
step-IsHarmless (duplicates p) h = tt
step-IsHarmless (gets_stop_waiting force) h = tt

-- An operation that returns an error leaves the history, the retransmission queue, the bytes in
-- flight, the skipped and the last packet numbers, the STOP_WAITING manager, the alarm and the loss
-- time as they were.
pub step-error :
    (e : Event) (err : Error) (h : SentPacketHandler)
    → (step e h).1 ≡ some err
    → Unchanged h (step e h).0
step-error e err h failed = go (step e h) failed (step-IsHarmless e h)
  where
    go : (r : SentPacketHandler × Option Error) → r.1 ≡ some err → IsHarmless h r → Unchanged h r.0
    go (k, none) failed harmless = cc
    go (k, some err') failed harmless = harmless
