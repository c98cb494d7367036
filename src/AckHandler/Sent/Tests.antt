-- ===== src/AckHandler/Sent/Tests.antt =====
-- src/sa-ecf/ackhandler/sent_packet_handler.go: a path on which two packets were sent.
use ivsh.Common.{
  ◌+◌, ◌≤◌, ◌≡◌, refl, arith, List, [], ◌∷◌, ◌++◌, true, false, none, some, length, All, sum_of,
  filter, inr, ℕ,
}
use ivsh.Common.Result.{ok}
use ivsh.Wire.AckFrame.{AckFrame, acks_packet, validate_ack_ranges}
use ivsh.AckHandler.Packet.{
  Packet, blocked_frame, unencrypted, is_retransmittable, is_frame_retransmittable,
  strip_non_retransmittable_frames,
}
use ivsh.AckHandler.Sent.State.{
  SentPacketHandler, Environment, new_sent_packet_handler, largest_in_order_acked,
}
use ivsh.AckHandler.Sent.Alarm.{
  update_loss_detection_alarm, next_alarm, after_last_sent, min_retransmission_time,
  max_rto_timeout, compute_rto_timeout,
}
use ivsh.AckHandler.Sent.Alarm.Bounds.{
  rto_alarm_bounds, compute_rto_timeout-eq-exponential_backoff, exponential_backoff,
}
use ivsh.AckHandler.Sent.Newly.{determine_newly_acked_packets}
use ivsh.AckHandler.Sent.Newly.Frames.{determine_newly_acked_packets-filter}
use ivsh.AckHandler.Sent.Send.{packet_number_not_increasing, sent_packet, record_sent, skip_numbers}
use ivsh.AckHandler.Sent.Acks.{received_ack, any_acked}
use ivsh.AckHandler.Sent.Timeout.{on_alarm, retransmit_all_packets}
use ivsh.AckHandler.Sent.Invariant.{Inv}
use ivsh.AckHandler.Sent.Conservation.{outstanding, on_alarm-outstanding}
use ivsh.AckHandler.Sent.Conservation.Acked.{IsAccepted, received_ack-acked}
use ivsh.AckHandler.Sent.Steps.{Event, sends, step, run}
use ivsh.AckHandler.Sent.Steps.Runs.{run-Inv}
use ivsh.AckHandler.Sent.Steps.Errors.{Unchanged, step-error}
use ivsh.AckHandler.Sent.Steps.Alarms.{on_alarms, on_alarms-empty}
use ivsh.AckHandler.Sent.Steps.Timeouts.{retransmit_all_packets-Emptied}
use ivsh.AckHandler.Sent.Steps.AlarmSet.{IsArmed, IsListed}
use ivsh.AckHandler.Sent.Steps.AlarmRuns.{run-IsArmed}

-- A congestion controller with a fixed window, and an RTT of 100 ms.
abbrev env : Environment
env = record {
  latest_rtt = λ calls. 100_000_000;
  smoothed_rtt = λ calls. 100_000_000;
  congestion_smoothed_rtt = λ calls. 100_000_000;
  retransmission_delay = λ calls. 300_000_000;
  congestion_window = λ calls. 20_000;
  on_rto = none;
}

abbrev packet : ℕ → Packet
packet n = record {
  packet_number = n;
  frames = blocked_frame (record { stream_id = 3 }) ∷ [];
  length = 100;
  encryption_level = unencrypted;
  send_time = none;
}

abbrev stored : ℕ → Packet
stored n = record {
  packet_number = n;
  frames = blocked_frame (record { stream_id = 3 }) ∷ [];
  length = 100;
  encryption_level = unencrypted;
  send_time = some 1000;
}

abbrev two_sent : List Event
two_sent = sends env 1000 (packet 1) ∷ sends env 1000 (packet 2) ∷ []

abbrev outstanding_two : SentPacketHandler
outstanding_two = run two_sent new_sent_packet_handler

two-history : outstanding_two.packet_history ≡ stored 1 ∷ stored 2 ∷ []
unfolding run step sent_packet record_sent strip_non_retransmittable_frames is_frame_retransmittable
    skip_numbers update_loss_detection_alarm next_alarm new_sent_packet_handler
two-history = refl

two-sent :
    (outstanding_two.last_sent_packet_number ≡ 2)
    × (outstanding_two.skipped_packets ≡ [])
    × (outstanding_two.loss_time ≡ none)
    × (outstanding_two.largest_received_packet_with_ack ≡ 0)
unfolding run step sent_packet record_sent strip_non_retransmittable_frames is_frame_retransmittable
    skip_numbers update_loss_detection_alarm next_alarm new_sent_packet_handler
two-sent = (refl, refl, refl, refl)

two-Inv : Inv outstanding_two
two-Inv = run-Inv two_sent (omega arith, (omega arith, tt))

abbrev ack_first : AckFrame
ack_first = record {
  path_id = 0;
  largest_acked = 1;
  lowest_acked = 1;
  ack_ranges = [];
  packet_received_time = none;
  delay_time = 0;
}

ack_first-IsAccepted : IsAccepted ack_first 1 outstanding_two
unfolding validate_ack_ranges largest_in_order_acked any_acked
ack_first-IsAccepted = record {
  sent = rw two-sent.0 (omega arith);
  fresh = rw two-sent.3 (omega arith);
  higher = rw two-history (omega arith);
  no_skipped = rw two-sent.1 refl;
  ranges = refl;
  inside = tt;
}

run-Inv_example : Inv (run two_sent new_sent_packet_handler)
run-Inv_example = run-Inv two_sent (omega arith, (omega arith, tt))

two-IsListed : All IsListed two_sent
unfolding is_frame_retransmittable
two-IsListed = ((refl, tt), ((refl, tt), tt))

run-IsArmed_example : IsArmed (run two_sent new_sent_packet_handler)
run-IsArmed_example = run-IsArmed two_sent two-IsListed

received_ack-acked_example :
    let r = received_ack env 2000 ack_first 1 2000 outstanding_two in
    (r.1 ≡ none)
    × All (λ p. acks_packet ack_first p.packet_number ≡ false) r.0.packet_history
    × (outstanding (λ p. p.packet_number) r.0
          + sum_of
              (λ p. p.packet_number)
              (filter (λ p. acks_packet ack_first p.packet_number) outstanding_two.packet_history)
        ≡ outstanding (λ p. p.packet_number) outstanding_two)
received_ack-acked_example =
    received_ack-acked env 2000 ack_first 1 2000 (λ p. p.packet_number) outstanding_two two-Inv
      ack_first-IsAccepted

on_alarm-outstanding_example :
    outstanding (λ p. p.packet_number) (on_alarm env 5000 outstanding_two)
    ≡ outstanding (λ p. p.packet_number) outstanding_two
on_alarm-outstanding_example =
    on_alarm-outstanding env 5000 (λ p. p.packet_number) outstanding_two two-Inv

abbrev two_alarms : List (Environment × ℕ)
two_alarms = (env, 5000) ∷ (env, 6000) ∷ []

abbrev ack_gap : AckFrame
ack_gap = record {
  path_id = 0;
  largest_acked = 4;
  lowest_acked = 1;
  ack_ranges = record { first = 4; last = 4 } ∷ record { first = 1; last = 2 } ∷ [];
  packet_received_time = none;
  delay_time = 0;
}

ack_gap_valid : validate_ack_ranges ack_gap ≡ true
unfolding validate_ack_ranges
ack_gap_valid = refl

determine_newly_acked_packets-filter_example :
    determine_newly_acked_packets ack_gap (stored 2 ∷ stored 3 ∷ stored 4 ∷ [])
    ≡ ok (filter (λ p. acks_packet ack_gap p.packet_number) (stored 2 ∷ stored 3 ∷ stored 4 ∷ []))
determine_newly_acked_packets-filter_example =
    determine_newly_acked_packets-filter ack_gap 0 (stored 2 ∷ stored 3 ∷ stored 4 ∷ [])
      ack_gap_valid (omega arith, (omega arith, tt)) (omega arith, (omega arith, (omega arith, tt)))

sent_again :
    (step (sends env 3000 (packet 2)) outstanding_two).1 ≡ some packet_number_not_increasing
unfolding step sent_packet
sent_again = rw two-sent.0 refl

step-error_example : Unchanged outstanding_two (step (sends env 3000 (packet 2)) outstanding_two).0
step-error_example =
    step-error (sends env 3000 (packet 2)) packet_number_not_increasing outstanding_two sent_again

two_waiting : All (λ (p : Packet). is_retransmittable p ≡ true) outstanding_two.packet_history
unfolding is_retransmittable
two_waiting = rw two-history (refl, (refl, tt))

two_few : length outstanding_two.packet_history ≤ length two_alarms
two_few = rw two-history (omega arith)

on_alarms-empty_example :
    let k = on_alarms two_alarms outstanding_two in
    (k.packet_history ≡ [])
    × (sum_of (λ p. p.packet_number) k.retransmission_queue
        ≡ sum_of (λ p. p.packet_number) outstanding_two.packet_history
          + sum_of (λ p. p.packet_number) outstanding_two.retransmission_queue)
on_alarms-empty_example =
    on_alarms-empty two_alarms (λ p. p.packet_number) outstanding_two two-Inv two_waiting two-sent.2
      two_few

retransmit_all_packets-Emptied_example :
    let k = retransmit_all_packets outstanding_two in
    (k.packet_history ≡ [])
    × (k.retransmission_queue
        ≡ outstanding_two.retransmission_queue ++ outstanding_two.packet_history)
    × (k.bytes_in_flight ≡ 0)
retransmit_all_packets-Emptied_example = retransmit_all_packets-Emptied outstanding_two two-Inv

abbrev both_probed : SentPacketHandler
both_probed = record outstanding_two { tlp_count = 2 }

rto_alarm_bounds_example :
    (t : ℕ) × ((update_loss_detection_alarm env both_probed).alarm ≡ after_last_sent both_probed t)
    × (min_retransmission_time ≤ t)
    × (t ≤ max_rto_timeout)
rto_alarm_bounds_example =
    rto_alarm_bounds env both_probed (stored 1) (stored 2 ∷ []) two-history two-sent.2
      (inr (omega arith))

abbrev third_timeout : SentPacketHandler
third_timeout = record outstanding_two { rto_count = 3 }

compute_rto_timeout-eq-exponential_backoff_example :
    compute_rto_timeout env third_timeout ≡ exponential_backoff 300_000_000 3
compute_rto_timeout-eq-exponential_backoff_example =
    compute_rto_timeout-eq-exponential_backoff env third_timeout (omega arith) (omega arith)
