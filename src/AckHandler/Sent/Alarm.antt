-- ===== src/AckHandler/Sent/Alarm.antt =====
-- src/sa-ecf/ackhandler/sent_packet_handler.go: when the alarm goes off. A duration is Go's int64,
-- here as a word, so that the shift of the exponential backoff wraps around. An RTT is below 2 ^ 61.
pub mod Bounds
use ivsh.Common.{
  ℕ, zero, suc, ◌+◌, ◌*◌, ◌/◌, ◌%◌, ◌^◌, List, [], ◌∷◌, Bool, true, false, not, ◌&&◌, Option, none,
  some, ltb, ◌==◌, if◌then◌else◌,
}
use ivsh.AckHandler.Packet.{Packet}
use ivsh.AckHandler.Sent.State.{SentPacketHandler, Environment}

abbrev pub default_rto_timeout : ℕ
default_rto_timeout = 500_000_000

abbrev pub min_rto_timeout : ℕ
min_rto_timeout = 200_000_000

abbrev pub max_rto_timeout : ℕ
max_rto_timeout = 60_000_000_000

abbrev pub min_retransmission_time : ℕ
min_retransmission_time = 200_000_000

abbrev pub min_tail_loss_probe_timeout : ℕ
min_tail_loss_probe_timeout = 10_000_000

abbrev pub max_tail_loss_probes : ℕ
max_tail_loss_probes = 2

-- `a < b` for words that stand for int64 values.
abbrev pub signed_lt : ℕ → ℕ → Bool
signed_lt a b = ltb ((a + 2 ^ 63) % 2 ^ 64) ((b + 2 ^ 63) % 2 ^ 64)

abbrev pub max_duration : ℕ → ℕ → ℕ
max_duration a b = if signed_lt b a then a else b

abbrev pub min_duration : ℕ → ℕ → ℕ
min_duration a b = if signed_lt a b then a else b

-- `rto << count` on int64: a shift by 64 or more leaves 0.
unfoldable pub shift_left : ℕ → ℕ → ℕ
shift_left n count = n * 2 ^ count % 2 ^ 64

unfoldable pub compute_rto_timeout : Environment → SentPacketHandler → ℕ
unfolding shift_left
compute_rto_timeout env h =
    let delay = env.retransmission_delay h.calls in
    let rto = max_duration (if delay == 0 then default_rto_timeout else delay) min_rto_timeout in
    min_duration (shift_left rto h.rto_count) max_rto_timeout

abbrev pub has_multiple_outstanding : List Packet → Bool
has_multiple_outstanding (p ∷ q ∷ ps) = true
has_multiple_outstanding _ = false

unfoldable pub compute_tlp_timeout : Environment → SentPacketHandler → ℕ
compute_tlp_timeout env h =
    let rtt = env.congestion_smoothed_rtt h.calls in
    let twice = rtt * 2 % 2 ^ 64 in
    if has_multiple_outstanding h.packet_history
    then max_duration twice ((rtt * 3 % 2 ^ 64 / 2 + min_retransmission_time / 2) % 2 ^ 64)
    else max_duration twice min_tail_loss_probe_timeout

abbrev time_or_zero : Option ℕ → ℕ
time_or_zero none = 0
time_or_zero (some t) = t

abbrev is_zero : Option ℕ → Bool
is_zero none = true
is_zero (some t) = false

-- `lastSentTime.Add`, for a duration that is not negative.
abbrev pub after_last_sent : SentPacketHandler → ℕ → Option ℕ
after_last_sent h duration = some (time_or_zero h.last_sent_time + duration)

unfoldable pub next_alarm : Environment → SentPacketHandler → Option ℕ
unfolding compute_rto_timeout compute_tlp_timeout
next_alarm env h = elim h.loss_time [
  | some t ↦ some t
  | none ↦
      if not (env.smoothed_rtt h.calls == 0) && ltb h.tlp_count max_tail_loss_probes
      then after_last_sent h (compute_tlp_timeout env h)
      else after_last_sent h (max_duration (compute_rto_timeout env h) min_retransmission_time)
]

unfoldable pub update_loss_detection_alarm : Environment → SentPacketHandler → SentPacketHandler
unfolding next_alarm
update_loss_detection_alarm env h = record h {
  alarm = elim h.packet_history [ [] ↦ none | p ∷ ps ↦ next_alarm env h ];
}
