-- ===== src/AckHandler/Tests.antt =====
-- src/sa-ecf/ackhandler: runs of the receiving side.
use ivsh.Common.{
  not, ℕ, ◌≤◌, ◌<◌, ◌≡◌, ◌⊎◌, refl, arith, List, [], ◌∷◌, true, false, ◌&&◌, ◌||◌, none, some, ltb,
  ◌==◌,
}
use ivsh.Common.Result.{ok, err}
use ivsh.Wire.AckFrame.{AckFrame, AckRange, acks_packet, in_ranges}
use ivsh.AckHandler.History.{
  History, delete_up_to, insert_packet, received_packet, max_tracked_received_ack_ranges,
  too_many_outstanding_received_ack_ranges,
}
use ivsh.AckHandler.History.Laws.{Below}
use ivsh.AckHandler.History.Canonical.{insert_packet_comm}
use ivsh.AckHandler.History.Contract.{delete_up_to-removes, received_packet-adds}
use ivsh.AckHandler.Received.{
  ReceivedPacketHandler, get_ack_frame, maybe_queue_ack, new_received_packet_handler, received,
  set_lower_limit,
}
use ivsh.AckHandler.Received.Invariant.{Inv, new-Inv, received-Inv}
use ivsh.AckHandler.Received.Reachable.{
  Reachable, Reachable-IsRegular, IsRegular, starts, receives, limits, holds_above, is_error,
}
use ivsh.AckHandler.Received.Acks.{get_ack_frame-acks}
use ivsh.AckHandler.StopWaiting.{
  StopWaitingManager, get_stop_waiting_frame, received_ack, queued_retransmission_for_packet_number,
}
use ivsh.AckHandler.StopWaiting.Monotone
use ivsh.AckHandler.StopWaiting.Monotone.{
  Event, acked, gets, requeued, sent, sent-AscendingFrom, AscendingFrom,
}

-- The packets 9, 5, 4 and 1.
abbrev ranges : List AckRange
ranges =
    record { first = 9; last = 9 }
    ∷ record { first = 4; last = 5 }
    ∷ record { first = 1; last = 1 }
    ∷ []

abbrev history : History
history = record { ranges = ranges; lowest_in_received = 0 }

ranges-Below : Below 20 ranges
ranges-Below =
    (omega arith, omega arith, (omega arith, omega arith, (omega arith, omega arith, tt)))

inserted :
    insert_packet 3 ranges
    ≡ record { first = 9; last = 9 }
      ∷ record { first = 3; last = 5 }
      ∷ record { first = 1; last = 1 }
      ∷ []
unfolding insert_packet
inserted = refl

joined :
    insert_packet 2 (insert_packet 3 ranges)
    ≡ record { first = 9; last = 9 } ∷ record { first = 1; last = 5 } ∷ []
unfolding insert_packet
joined = refl

received_packet-adds_example :
    ((max_tracked_received_ack_ranges ≤ 3)
      × (received_packet 3 history ≡ err too_many_outstanding_received_ack_ranges))
    ⊎ ((3 < max_tracked_received_ack_ranges)
        × ((h' : History) × (received_packet 3 history ≡ ok h')
            × Below 20 h'.ranges
            × ((n : ℕ) → in_ranges n h'.ranges ≡ ((n == 3) || in_ranges n ranges))))
received_packet-adds_example =
    received_packet-adds 3 20 history (omega arith) (omega arith) (omega arith) ranges-Below

delete_up_to-removes_example :
    Below 20 (delete_up_to 4 history).ranges
    × ((n : ℕ) → in_ranges n (delete_up_to 4 history).ranges ≡ (ltb 4 n && in_ranges n ranges))
delete_up_to-removes_example = delete_up_to-removes 4 20 history (omega arith) ranges-Below

insert_packet_comm_example :
    insert_packet 2 (insert_packet 3 ranges) ≡ insert_packet 3 (insert_packet 2 ranges)
insert_packet_comm_example =
    insert_packet_comm 2 3 20 ranges (omega arith) (omega arith) (omega arith) (omega arith)
      (omega arith) ranges-Below

abbrev fresh : ReceivedPacketHandler
fresh = new_received_packet_handler 39

abbrev one : ReceivedPacketHandler
one = (received 1000 7 true fresh).0

no_error : (received 1000 7 true fresh).1 ≡ none
unfolding received new_received_packet_handler received_packet insert_packet
no_error = refl

second_no_error : (received 1200 9 false one).1 ≡ none
unfolding received new_received_packet_handler received_packet insert_packet maybe_queue_ack
second_no_error = refl

one-Inv : Inv one
one-Inv = received-Inv 1000 7 true fresh (omega arith) (new-Inv 39) no_error

holds_seven : in_ranges 7 one.packet_history.ranges ≡ true
unfolding received new_received_packet_handler received_packet insert_packet maybe_queue_ack
holds_seven = refl

queued : one.ack_queued ≡ true
unfolding received new_received_packet_handler received_packet insert_packet maybe_queue_ack
queued = refl

fine : not (is_error (received 1000 7 true fresh).1) ≡ true
unfolding received new_received_packet_handler received_packet insert_packet
fine = refl

holds_more : holds_above 3 one.packet_history.ranges ≡ true
unfolding received new_received_packet_handler received_packet insert_packet maybe_queue_ack
holds_more = refl

one-Reachable : Reachable true one
one-Reachable = rw fine at (receives true 1000 7 true fresh (omega arith) (starts 39))

limited-Reachable : Reachable true (set_lower_limit 3 one)
limited-Reachable = rw holds_more at (limits true 3 one (omega arith) one-Reachable)

Reachable-IsRegular_example : IsRegular true (set_lower_limit 3 one)
Reachable-IsRegular_example = Reachable-IsRegular true (set_lower_limit 3 one) limited-Reachable

after_error : is_error (received 1300 0 true one).1 ≡ true
unfolding received new_received_packet_handler received_packet insert_packet
after_error = refl

-- Packet number 0 is an error, and the lower limit is above all that was received.
failed_then_limited : IsRegular false (set_lower_limit 20 (received 1300 0 true one).0)
failed_then_limited =
    let failed : Reachable false (received 1300 0 true one).0 =
      rw after_error at (receives true 1300 0 true one (omega arith) one-Reachable) in
    let k = (received 1300 0 true one).0 in
    Reachable-IsRegular false (set_lower_limit 20 k) (limits false 20 k (omega arith) failed)

get_ack_frame-acks_example :
    (get_ack_frame 2000 one ≡ ok (none, one))
    ⊎ ((ack : AckFrame) × (h' : ReceivedPacketHandler) × (get_ack_frame 2000 one
          ≡ ok (some ack, h'))
        × (ack.largest_acked ≡ one.largest_observed)
        × ((n : ℕ) → acks_packet ack n ≡ in_ranges n one.packet_history.ranges)
        × (get_ack_frame 2000 h' ≡ ok (none, h')))
get_ack_frame-acks_example = get_ack_frame-acks 2000 one one-Inv

abbrev idle : StopWaitingManager
idle = record {
  largest_least_unacked_sent = 0;
  next_least_unacked = 0;
  last_stop_waiting_frame = none;
}

idle-Inv : Monotone.Inv idle
idle-Inv = record { behind = omega arith; last = λ f h. cc; some_sent = λ h. absurd (omega arith) }

abbrev ack_of_five : AckFrame
ack_of_five = record {
  largest_acked = 5;
  lowest_acked = 1;
  ack_ranges = [];
  packet_received_time = none;
  path_id = 0;
  delay_time = 0;
}

abbrev events : List Event
events = acked ack_of_five ∷ gets false ∷ gets true ∷ requeued 8 ∷ gets false ∷ []

sends : sent idle events ≡ 6 ∷ 6 ∷ 9 ∷ []
unfolding sent Monotone.step get_stop_waiting_frame received_ack
    queued_retransmission_for_packet_number
sends = refl

sent-AscendingFrom_example : AscendingFrom 0 (sent idle events)
sent-AscendingFrom_example =
    sent-AscendingFrom idle events idle-Inv
      (omega arith, (omega arith, (omega arith, (omega arith, (omega arith, tt)))))
