-- ===== src/Congestion/Tests.antt =====
-- src/sa-ecf/congestion: a recovery with two ACKs.
use ivsh.Common.{◌+◌, ◌*◌, ◌≤◌, arith, List, [], ◌∷◌}
use ivsh.Congestion.PrrSender.{PrrSender, default_tcp_mss, on_packet_lost}
use ivsh.Congestion.PrrSender.Rate.{Event, acked, wants, recover, recover-rate}

abbrev idle : PrrSender
idle = record {
  bytes_sent_since_loss = 0;
  bytes_delivered_since_loss = 0;
  ack_count_since_loss = 0;
  bytes_in_flight_before_loss = 0;
}

abbrev events : List Event
events =
    wants 1460 14600 29200
    ∷ acked 1460
    ∷ wants 1460 14600 27740
    ∷ acked 1460
    ∷ wants 1000 14600 26280
    ∷ []

recover-rate_example :
    let q = recover 14600 events (on_packet_lost 29200 idle) in
    q.bytes_sent_since_loss * 29200 ≤ q.bytes_delivered_since_loss * 14600 + default_tcp_mss * 29200
recover-rate_example =
    recover-rate 29200 14600 events idle (omega arith) (omega arith)
      (
        (omega arith, omega arith, omega arith),
        (
          tt,
          (
            (omega arith, omega arith, omega arith),
            (tt, ((omega arith, omega arith, omega arith), tt)),
          ),
        ),
      )
      (omega arith)
