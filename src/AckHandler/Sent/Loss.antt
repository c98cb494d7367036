-- ===== src/AckHandler/Sent/Loss.antt =====
-- src/sa-ecf/ackhandler/sent_packet_handler.go: which packets are taken for lost. `now` is what time.Now answers during
-- the operation.
use ivsh.Common.{
  ℕ, ◌+◌, ◌-◌, ◌*◌, ◌/◌, ◌%◌, ◌^◌, List, [], ◌∷◌, Bool, true, false, Option, none, some, ltb,
  if◌then◌else◌, length,
}
use ivsh.AckHandler.Packet.{Packet}
use ivsh.AckHandler.Sent.State.{SentPacketHandler, Environment, lose_all}
use ivsh.AckHandler.Sent.Alarm.{max_duration}

-- `now.Sub(t)`; from the zero time it is the largest duration.
abbrev pub since : ℕ → Option ℕ → ℕ
since now none = 2 ^ 63 - 1
since now (some t) = now - t

abbrev pub is_zero : Option ℕ → Bool
is_zero none = true
is_zero (some t) = false

abbrev add_lost : Packet → List Packet × Option ℕ → List Packet × Option ℕ
add_lost p (lost, t) = (p ∷ lost, t)

-- The loop of detectLostPackets: the lost packets, and the loss time.
unfoldable pub find_lost : ℕ → ℕ → ℕ → Option ℕ → List Packet → List Packet × Option ℕ
find_lost now delay largest t [] = ([], t)
find_lost now delay largest t (p ∷ ps) =
    let elapsed = since now p.send_time in
    let losing = add_lost p (find_lost now delay largest t ps) in
    let keeping =
      find_lost now delay largest (if is_zero t then some (now + (delay - elapsed)) else t) ps in
    if ltb largest p.packet_number then ([], t) else if ltb delay elapsed then losing else keeping

-- `time.Duration((1.0 + timeReorderingFraction) * maxRTT)` in float64, exact below 2 ^ 49.
abbrev pub delay_until_lost : Environment → SentPacketHandler → ℕ
delay_until_lost env h = max_duration (env.latest_rtt h.calls) (env.smoothed_rtt h.calls) * 9 / 8

unfoldable pub detect_lost_packets : Environment → ℕ → SentPacketHandler → SentPacketHandler
unfolding find_lost lose_all
detect_lost_packets env now h =
    let (lost, loss_time) =
      find_lost now (delay_until_lost env h) h.largest_acked none h.packet_history in
    lose_all lost (record h { losses = (h.losses + length lost) % 2 ^ 64; loss_time = loss_time })

-- The packets up to the largest acknowledged one.
unfoldable pub up_to : ℕ → List Packet → List Packet
up_to largest [] = []
up_to largest (p ∷ ps) = if ltb largest p.packet_number then [] else p ∷ up_to largest ps

unfoldable pub set_inflight_as_lost : SentPacketHandler → SentPacketHandler
unfolding up_to lose_all
set_inflight_as_lost h =
    let lost = up_to h.largest_acked h.packet_history in
    lose_all lost (record h { losses = (h.losses + length lost) % 2 ^ 64 })
