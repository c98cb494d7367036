-- ===== src/AckHandler/Sent/Alarm/Bounds.antt =====
-- src/sa-ecf/ackhandler/sent_packet_handler.go: the timeouts stay within their bounds, also where
-- the shift of the backoff wraps around.
use ivsh.Common.{
  ℕ, zero, suc, ◌+◌, ◌*◌, ◌%◌, ◌^◌, ◌≤◌, ◌<◌, ◌-◌, ◌≡◌, ap, ◌∙◌, refl, arith, ltb, ◌==◌,
  if◌then◌else◌, List, ◌∷◌, none, false, not, ◌&&◌, ◌⊎◌,
}
use native.Mathlib.Nat.{mul-mod_left, pow-suc}
use ivsh.AckHandler.Sent.State.{SentPacketHandler, Environment}
use ivsh.AckHandler.Sent.Alarm.{
  compute_rto_timeout, shift_left, max_duration, min_duration, default_rto_timeout, min_rto_timeout,
  max_rto_timeout, min_retransmission_time, max_tail_loss_probes, after_last_sent, next_alarm,
  update_loss_detection_alarm,
}
use ivsh.AckHandler.Packet.{Packet}

shift_left-lt : (n count : ℕ) → shift_left n count < 2 ^ 64
unfolding shift_left
shift_left-lt n count = omega arith

clamp_bounds :
    (w : ℕ)
    → w < 2 ^ 64
    → let t = max_duration (min_duration w max_rto_timeout) min_retransmission_time in
      (min_retransmission_time ≤ t) × (t ≤ max_rto_timeout)
clamp_bounds w h = ground arith

no_probe :
    (rtt probes : ℕ)
    → (rtt ≡ 0) ⊎ (max_tail_loss_probes ≤ probes)
    → (not (rtt == 0) && ltb probes max_tail_loss_probes) ≡ false
no_probe rtt probes h = ground arith

-- The alarm that is set for an RTO, where a packet is outstanding, no loss time is set, and no
-- tail loss probe is sent, because there is no RTT yet or both probes were sent: it goes off
-- between 200 ms and 60 s after the last packet was sent, whatever the congestion controller
-- answers and however often the timeout has fired.
pub rto_alarm_bounds :
    (env : Environment) (h : SentPacketHandler) (p : Packet) (ps : List Packet)
    → h.packet_history ≡ p ∷ ps
    → h.loss_time ≡ none
    → (env.smoothed_rtt h.calls ≡ 0) ⊎ (max_tail_loss_probes ≤ h.tlp_count)
    → (t : ℕ) × ((update_loss_detection_alarm env h).alarm ≡ after_last_sent h t)
      × (min_retransmission_time ≤ t)
      × (t ≤ max_rto_timeout)
unfolding compute_rto_timeout next_alarm update_loss_detection_alarm
rto_alarm_bounds env h p ps outstanding no_loss none_left =
    let no_tail = no_probe (env.smoothed_rtt h.calls) h.tlp_count none_left in
    let (low, high) = clamp_bounds _ (shift_left-lt _ h.rto_count) in
    (
      max_duration (compute_rto_timeout env h) min_retransmission_time,
      rw (update_loss_detection_alarm, outstanding, next_alarm, no_loss, no_tail) refl,
      low,
      high,
    )

-- The delay of the controller, or 500 ms if it has none, but at least 200 ms.
abbrev pub first_timeout : ℕ → ℕ
first_timeout delay =
    let start = if delay == 0 then default_rto_timeout else delay in
    if ltb min_rto_timeout start then start else min_rto_timeout

-- It is doubled for each timeout that fired, up to 60 s.
abbrev pub exponential_backoff : ℕ → ℕ → ℕ
exponential_backoff delay count =
    let t = first_timeout delay * 2 ^ count in if ltb t max_rto_timeout then t else max_rto_timeout

max_duration-first_timeout :
    (delay : ℕ)
    → delay < 2 ^ 63
    → max_duration (if delay == 0 then default_rto_timeout else delay) min_rto_timeout
      ≡ first_timeout delay
max_duration-first_timeout delay h = ground arith

min_duration-unsigned :
    (t : ℕ)
    → t < 2 ^ 63
    → min_duration t max_rto_timeout ≡ (if ltb t max_rto_timeout then t else max_rto_timeout)
min_duration-unsigned t h = ground arith

shift_left-mul : (n count : ℕ) → n * 2 ^ count < 2 ^ 63 → shift_left n count ≡ n * 2 ^ count
unfolding shift_left
shift_left-mul n count h = omega arith

-- While the doubled delay fits an int64, the timeout is the exponential backoff.
pub compute_rto_timeout-eq-exponential_backoff :
    (env : Environment) (h : SentPacketHandler)
    → env.retransmission_delay h.calls < 2 ^ 63
    → first_timeout (env.retransmission_delay h.calls) * 2 ^ h.rto_count < 2 ^ 63
    → compute_rto_timeout env h ≡ exponential_backoff (env.retransmission_delay h.calls) h.rto_count
unfolding compute_rto_timeout
compute_rto_timeout-eq-exponential_backoff env h small fits =
    let delay = env.retransmission_delay h.calls in
    ap (λ (rto : ℕ). min_duration (shift_left rto h.rto_count) max_rto_timeout)
      (max_duration-first_timeout delay small)
    ∙ (ap (λ (t : ℕ). min_duration t max_rto_timeout)
          (shift_left-mul (first_timeout delay) h.rto_count fits)
        ∙ min_duration-unsigned (first_timeout delay * 2 ^ h.rto_count) fits)

pow-add_64 : (k : ℕ) → 2 ^ (k + 64) ≡ 2 ^ k * 2 ^ 64
pow-add_64 zero = refl
pow-add_64 (suc k) =
    let next : suc k + 64 ≡ suc (k + 64) = omega arith in
    rw (next, pow-suc, pow-add_64 k) (omega arith)

high_shift : (n k : ℕ) → n * 2 ^ (k + 64) % 2 ^ 64 ≡ 0
high_shift n k =
    let split : n * 2 ^ (k + 64) ≡ n * 2 ^ k * 2 ^ 64 = rw (pow-add_64 k) (omega arith) in
    rw split (mul-mod_left (n * 2 ^ k) (2 ^ 64))

shift_left-zero : (n count : ℕ) → 64 ≤ count → shift_left n count ≡ 0
unfolding shift_left
shift_left-zero n count many =
    let split : count ≡ count - 64 + 64 = omega arith in
    ap (λ (k : ℕ). n * 2 ^ k % 2 ^ 64) split ∙ high_shift n (count - 64)

-- From 64 timeouts in a row on nothing is left of the delay: the timeout is 200 ms.
pub rto_timeout-wraps :
    (env : Environment) (h : SentPacketHandler)
    → 64 ≤ h.rto_count
    → max_duration (compute_rto_timeout env h) min_retransmission_time ≡ min_retransmission_time
unfolding compute_rto_timeout
rto_timeout-wraps env h many = rw (compute_rto_timeout, shift_left-zero _ h.rto_count many) refl
