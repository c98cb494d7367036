-- ===== src/Congestion/PrrSender.antt =====
-- src/sa-ecf/congestion/prr_sender.go: proportional rate reduction during a recovery.
pub mod Rate
use ivsh.Common.{
  ℕ, ◌+◌, ◌*◌, ◌%◌, ◌^◌, Bool, true, false, ◌||◌, Option, none, some, ltb, leb, ◌==◌, if◌then◌else◌,
  add64, mul64,
}

pub record PrrSender : Type 0 where
  pub bytes_sent_since_loss : ℕ
  pub bytes_delivered_since_loss : ℕ
  pub ack_count_since_loss : ℕ
  pub bytes_in_flight_before_loss : ℕ

abbrev pub default_tcp_mss : ℕ
default_tcp_mss = 1460

-- A duration: none at all, or `InfDuration`.
pub data Delay : Type 0 where
  no_delay infinite : Delay

unfoldable pub on_packet_sent : ℕ → PrrSender → PrrSender
on_packet_sent sent p = record p { bytes_sent_since_loss = add64 p.bytes_sent_since_loss sent }

unfoldable pub on_packet_lost : ℕ → PrrSender → PrrSender
on_packet_lost in_flight p = record {
  bytes_sent_since_loss = 0;
  bytes_in_flight_before_loss = in_flight;
  bytes_delivered_since_loss = 0;
  ack_count_since_loss = 0;
}

unfoldable pub on_packet_acked : ℕ → PrrSender → PrrSender
on_packet_acked acked p = record p {
  bytes_delivered_since_loss = add64 p.bytes_delivered_since_loss acked;
  ack_count_since_loss = add64 p.ack_count_since_loss 1;
}

unfoldable pub time_until_send : ℕ → ℕ → ℕ → PrrSender → Delay
time_until_send congestion_window in_flight threshold p =
    if (p.bytes_sent_since_loss == 0) || ltb in_flight default_tcp_mss
    then no_delay
    else if ltb in_flight congestion_window
    then (if leb (add64 p.bytes_delivered_since_loss (mul64 p.ack_count_since_loss default_tcp_mss))
          p.bytes_sent_since_loss
        then infinite
        else no_delay)
    else if ltb (mul64 p.bytes_sent_since_loss p.bytes_in_flight_before_loss)
        (mul64 p.bytes_delivered_since_loss threshold)
    then no_delay
    else infinite
