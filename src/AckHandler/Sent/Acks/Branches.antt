-- ===== src/AckHandler/Sent/Acks/Branches.antt =====
-- src/sa-ecf/ackhandler/sent_packet_handler.go: the ways in which an ACK or a CLOSE_PATH frame ends.
use ivsh.Common.{ℕ, ◌≡◌, refl, List, Option, none, some, ltb, leb, inl, inr, Bool-cases}
use ivsh.Common.Result.{Result, ok, err}
use ivsh.Wire.AckFrame.{AckFrame, ClosePathFrame, acks_packet, close_path_acks_packet}
use ivsh.AckHandler.Packet.{Packet}
use ivsh.AckHandler.Sent.State.{
  SentPacketHandler, Environment, largest_in_order_acked, acknowledge_all,
}
use ivsh.AckHandler.Sent.Newly.{
  Bug, determine_newly_acked_packets, determine_newly_acked_packets_close_path,
}
use ivsh.AckHandler.Sent.Loss.{set_inflight_as_lost}
use ivsh.AckHandler.Sent.Send.{
  Error, ack_for_unsent_packet, duplicate_or_out_of_order_ack, ack_for_skipped_packet,
  bug_wrong_packet,
}
use ivsh.AckHandler.Sent.Acks.{
  any_acked, update_rtt_and_slow_start, process_acked, received_ack, received_close_path,
  garbage_collect_skipped_packets,
}

-- The state in which the packets are listed.
unfoldable pub entered : ℕ → AckFrame → ℕ → ℕ → SentPacketHandler → SentPacketHandler
unfolding update_rtt_and_slow_start
entered now ack with_packet_number rcv_time h =
    update_rtt_and_slow_start now rcv_time ack (record h {
      largest_received_packet_with_ack = with_packet_number;
      largest_acked = ack.largest_acked;
    })

-- To show something of the answer to an ACK frame, show it for each of them.
pub received_ack-elim :
    (env : Environment) (now : ℕ) (ack : AckFrame) (with_packet_number rcv_time : ℕ)
    (h : SentPacketHandler) (P : SentPacketHandler × Option Error → Type 0)
    → P (h, some ack_for_unsent_packet)
    → P (h, some duplicate_or_out_of_order_ack)
    → P (record h { largest_received_packet_with_ack = with_packet_number }, none)
    → P (
      record h {
        largest_received_packet_with_ack = with_packet_number;
        largest_acked = ack.largest_acked;
      },
      some ack_for_skipped_packet,
    )
    → P (entered now ack with_packet_number rcv_time h, some bug_wrong_packet)
    → ((acked : List Packet)
        → determine_newly_acked_packets ack h.packet_history ≡ ok acked
        → P (process_acked env now ack acked (entered now ack with_packet_number rcv_time h), none))
    → P (received_ack env now ack with_packet_number rcv_time h)
unfolding received_ack entered update_rtt_and_slow_start
received_ack-elim env now ack with_packet_number rcv_time h P on_unsent on_duplicate on_repeated
      on_skipped on_wrong on_acked =
    elim (Bool-cases (ltb h.last_sent_packet_number ack.largest_acked)) [
      | inl unsent ↦ rw unsent on_unsent
      | inr sent ↦ elim (Bool-cases (leb with_packet_number h.largest_received_packet_with_ack)) [
        | inl duplicate ↦ rw (sent, duplicate) on_duplicate
        | inr fresh ↦
            elim (Bool-cases (
              leb ack.largest_acked (
                largest_in_order_acked
                  (record h { largest_received_packet_with_ack = with_packet_number })))) [
                    | inl repeated ↦ rw (sent, fresh, repeated) on_repeated
                    | inr higher ↦
                        elim (Bool-cases (any_acked (acks_packet ack) h.skipped_packets)) [
                          | inl skipped ↦ rw (sent, fresh, higher, skipped) on_skipped
                          | inr valid ↦
                              rw (sent, fresh, higher, valid)
                                (listing (determine_newly_acked_packets ack h.packet_history) refl)
                        ]
                  ]
      ]
    ]
  where
    listing :
        (r : Result Bug (List Packet))
        → determine_newly_acked_packets ack h.packet_history ≡ r
        → P (elim r [
          | ok acked ↦ (
            process_acked env now ack acked (entered now ack with_packet_number rcv_time h),
            none,
          )
          | err e ↦ (entered now ack with_packet_number rcv_time h, some bug_wrong_packet)
        ])
    listing (ok acked) same = on_acked acked same
    listing (err e) same = on_wrong

-- The same for a CLOSE_PATH frame.
pub received_close_path-elim :
    (f : ClosePathFrame) (with_packet_number : ℕ) (h : SentPacketHandler)
    (P : SentPacketHandler × Option Error → Type 0)
    → P (h, some ack_for_unsent_packet)
    → P (h, some duplicate_or_out_of_order_ack)
    → P (
      record h { largest_received_packet_with_ack = with_packet_number },
      some ack_for_skipped_packet,
    )
    → P (record h { largest_received_packet_with_ack = with_packet_number }, some bug_wrong_packet)
    → ((acked : List Packet)
        → determine_newly_acked_packets_close_path f h.packet_history ≡ ok acked
        → P (
          garbage_collect_skipped_packets (
              set_inflight_as_lost (
                acknowledge_all acked
                  (record h { largest_received_packet_with_ack = with_packet_number }))),
          none,
        ))
    → P (received_close_path f with_packet_number h)
unfolding received_close_path
received_close_path-elim f with_packet_number h P on_unsent on_duplicate on_skipped on_wrong
      on_acked =
    elim (Bool-cases (ltb h.last_sent_packet_number f.largest_acked)) [
      | inl unsent ↦ rw unsent on_unsent
      | inr sent ↦ elim (Bool-cases (leb with_packet_number h.largest_received_packet_with_ack)) [
        | inl duplicate ↦ rw (sent, duplicate) on_duplicate
        | inr fresh ↦ elim (Bool-cases (any_acked (close_path_acks_packet f) h.skipped_packets)) [
          | inl skipped ↦ rw (sent, fresh, skipped) on_skipped
          | inr valid ↦
              rw (sent, fresh, valid)
                (listing (determine_newly_acked_packets_close_path f h.packet_history) refl)
        ]
      ]
    ]
  where
    listing :
        (r : Result Bug (List Packet))
        → determine_newly_acked_packets_close_path f h.packet_history ≡ r
        → P (elim r [
          | ok acked ↦ (
            garbage_collect_skipped_packets (
                set_inflight_as_lost (
                  acknowledge_all acked
                    (record h { largest_received_packet_with_ack = with_packet_number }))),
            none,
          )
          | err e ↦ (
            record h { largest_received_packet_with_ack = with_packet_number },
            some bug_wrong_packet,
          )
        ])
    listing (ok acked) same = on_acked acked same
    listing (err e) same = on_wrong
