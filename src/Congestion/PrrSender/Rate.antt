-- ===== src/Congestion/PrrSender/Rate.antt =====
-- src/sa-ecf/congestion/prr_sender.go: how much a sender sends that obeys TimeUntilSend.
use ivsh.Common.{
  ℕ, ◌+◌, ◌*◌, ◌^◌, ◌≤◌, ◌<◌, ◌≡◌, refl, arith, List, [], ◌∷◌, Bool, true, false, ltb, ◌==◌,
  if◌then◌else◌, inl, inr, Bool-cases, All, sum_of, add64, mul64,
}
use native.Mathlib.Nat.{mul-le-mul, mul-le-mul_right, add-mul, mod-eq_of_lt}
use ivsh.Congestion.PrrSender.{
  PrrSender, Delay, no_delay, infinite, default_tcp_mss, on_packet_sent, on_packet_lost,
  on_packet_acked, time_until_send,
}

-- What happens in a recovery: an ACK of some bytes arrives, or the sender would send a packet of some
-- bytes, with what the window and the bytes in flight are then.
pub data Event : Type 0 where
  acked : ℕ → Event
  wants : (bytes congestion_window in_flight : ℕ) → Event

abbrev is_allowed : Delay → Bool
is_allowed no_delay = true
is_allowed infinite = false

-- The sender waits while it has to.
unfoldable pub step : ℕ → Event → PrrSender → PrrSender
unfolding time_until_send on_packet_sent on_packet_acked
step threshold (acked bytes) p = on_packet_acked bytes p
step threshold (wants bytes congestion_window in_flight) p =
    if is_allowed (time_until_send congestion_window in_flight threshold p)
    then on_packet_sent bytes p
    else p

unfoldable pub recover : ℕ → List Event → PrrSender → PrrSender
unfolding step
recover threshold [] p = p
recover threshold (e ∷ es) p = recover threshold es (step threshold e p)

abbrev pub size : Event → ℕ
size (acked bytes) = bytes
size (wants bytes congestion_window in_flight) = bytes

-- A packet is no larger than a segment, and the window is no larger than what is in flight, which is
-- a segment at least.
abbrev pub IsReduced : Event → Type 0
IsReduced (acked bytes) = Unit {0}
IsReduced (wants bytes congestion_window in_flight) =
    (bytes ≤ default_tcp_mss) × (congestion_window ≤ in_flight) × (default_tcp_mss ≤ in_flight)

small_product : (a b : ℕ) → a < 2 ^ 31 → b < 2 ^ 32 → mul64 a b ≡ a * b
small_product a b ha hb =
    let le : a ≤ 2 ^ 31 = omega arith in
    let le' : b ≤ 2 ^ 32 = omega arith in
    let bound : a * b ≤ 2 ^ 31 * 2 ^ 32 = mul-le-mul le le' in mod-eq_of_lt (omega (arith, bound))

-- One more packet, where the sent bytes were within the reduced rate.
one_more :
    (sent bytes before allowed : ℕ)
    → sent * before ≤ allowed
    → bytes ≤ default_tcp_mss
    → (sent + bytes) * before ≤ allowed + default_tcp_mss * before
one_more sent bytes before allowed le small =
    let more : bytes * before ≤ default_tcp_mss * before = mul-le-mul_right before small in
    rw (add-mul sent bytes before) (omega (arith, le, more))

-- The sent bytes are within the rate, with `left` bytes still to come.
record Within (before threshold left : ℕ) (p : PrrSender) : Type 0 where
  loss : p.bytes_in_flight_before_loss ≡ before
  room : p.bytes_sent_since_loss + p.bytes_delivered_since_loss + left < 2 ^ 31
  rate :
      p.bytes_sent_since_loss * before
      ≤ p.bytes_delivered_since_loss * threshold + default_tcp_mss * before

weaken-Within :
    (before threshold n left : ℕ) (p : PrrSender)
    → Within before threshold (n + left) p
    → Within before threshold left p
weaken-Within before threshold n left p v = record {
  loss = v.loss;
  room = let r = v.room in omega arith;
  rate = v.rate;
}

acked-Within :
    (before threshold bytes left : ℕ) (p : PrrSender)
    → Within before threshold (bytes + left) p
    → Within before threshold left (on_packet_acked bytes p)
unfolding on_packet_acked
acked-Within before threshold bytes left p v =
    let r = v.room in
    let rate = v.rate in
    let total : add64 p.bytes_delivered_since_loss bytes ≡ p.bytes_delivered_since_loss + bytes =
      mod-eq_of_lt (omega arith) in
    record {
      loss = v.loss;
      room = rw total (omega arith);
      rate = rw (total, add-mul p.bytes_delivered_since_loss bytes threshold) (omega arith);
    }

sent-Within :
    (before threshold bytes left : ℕ) (p : PrrSender)
    → bytes ≤ default_tcp_mss
    → p.bytes_sent_since_loss * before ≤ p.bytes_delivered_since_loss * threshold
    → Within before threshold (bytes + left) p
    → Within before threshold left (on_packet_sent bytes p)
unfolding on_packet_sent
sent-Within before threshold bytes left p small le v =
    let r = v.room in
    let total : add64 p.bytes_sent_since_loss bytes ≡ p.bytes_sent_since_loss + bytes =
      mod-eq_of_lt (omega arith) in
    record {
      loss = v.loss;
      room = rw total (omega arith);
      rate = rw total (one_more p.bytes_sent_since_loss bytes before _ le small);
    }

step-Within :
    (before threshold left : ℕ) (e : Event) (p : PrrSender)
    → before < 2 ^ 32
    → threshold < 2 ^ 32
    → IsReduced e
    → Within before threshold (size e + left) p
    → Within before threshold left (step threshold e p)
unfolding step time_until_send
step-Within before threshold left (acked bytes) p hb ht reduced v =
    acked-Within before threshold bytes left p v
step-Within before threshold left (wants bytes window in_flight) p hb ht (small, narrow, much) v =
    let r = v.room in
    let loss = v.loss in
    let full : ltb in_flight default_tcp_mss ≡ false = ground (arith, much) in
    let reduced : ltb in_flight window ≡ false = ground (arith, narrow) in
    let sent_product = small_product p.bytes_sent_since_loss before (omega arith) hb in
    let delivered_product = small_product p.bytes_delivered_since_loss threshold (omega arith) ht in
    elim (Bool-cases (p.bytes_sent_since_loss == 0)) [
      | inl first ↦
          let none_sent : p.bytes_sent_since_loss ≡ 0 = ground (arith, first) in
          rw first (sent-Within before threshold bytes left p small (rw none_sent (omega arith)) v)
      | inr later ↦
          elim (Bool-cases (
            ltb (mul64 p.bytes_sent_since_loss p.bytes_in_flight_before_loss)
              (mul64 p.bytes_delivered_since_loss threshold))) [
                | inr over ↦
                    rw (later, full, reduced, over) (weaken-Within before threshold bytes left p v)
                | inl under ↦
                    let under' = rw (loss, sent_product, delivered_product) at under in
                    rw (later, full, reduced, under)
                      (sent-Within before threshold bytes left p small (ground (arith, under')) v)
              ]
    ]

recover-Within :
    (before threshold : ℕ) (es : List Event) (p : PrrSender)
    → before < 2 ^ 32
    → threshold < 2 ^ 32
    → All IsReduced es
    → Within before threshold (sum_of size es) p
    → Within before threshold 0 (recover threshold es p)
unfolding recover
recover-Within before threshold [] p hb ht h v = v
recover-Within before threshold (e ∷ es) p hb ht (x, h) v =
    recover-Within before threshold es (step threshold e p) hb ht h
      (step-Within before threshold (sum_of size es) e p hb ht x v)

-- In a recovery in which the window stays no larger than what is in flight, which is a segment at
-- least, a sender that obeys TimeUntilSend sends at most the share `threshold / before` of the bytes that are
-- delivered, and one segment, where `before` bytes were in flight at the loss. The two are below 2 ^ 32,
-- a packet is no larger than a segment, and the bytes of the recovery add up to less than 2 ^ 31.
pub recover-rate :
    (before threshold : ℕ) (es : List Event) (p : PrrSender)
    → before < 2 ^ 32
    → threshold < 2 ^ 32
    → All IsReduced es
    → sum_of size es < 2 ^ 31
    → let q = recover threshold es (on_packet_lost before p) in
      q.bytes_sent_since_loss * before
      ≤ q.bytes_delivered_since_loss * threshold + default_tcp_mss * before
unfolding on_packet_lost
recover-rate before threshold es p hb ht h few =
    (recover-Within before threshold es (on_packet_lost before p) hb ht h
      (record { loss = refl; room = omega arith; rate = omega arith })).rate
