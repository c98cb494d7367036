-- ===== src/AckHandler/StopWaiting/Monotone.antt =====
-- src/sa-ecf/ackhandler/stop_waiting_manager.go: the promise to the peer never moves back.
use ivsh.Common.{
  ℕ, ◌^◌, ◌≤◌, ◌<◌, ◌≡◌, ◌≢◌, arith, List, [], ◌∷◌, Bool, Option, none, some, All, Option-cases,
  inl, inr,
}
use ivsh.Wire.AckFrame.{AckFrame}
use ivsh.Wire.Control.{StopWaitingFrame}
use ivsh.AckHandler.StopWaiting.{
  StopWaitingManager, get_stop_waiting_frame, received_ack, queued_retransmission_for_packet_number,
}

pub data Event : Type 0 where
  gets : Bool → Event
  acked : AckFrame → Event
  requeued : ℕ → Event

abbrev pub packet_of : Event → ℕ
packet_of (gets force) = 0
packet_of (acked ack) = ack.largest_acked
packet_of (requeued p) = p

-- The state after an event, and the frame sent, if any.
unfoldable pub step : StopWaitingManager → Event → StopWaitingManager × Option StopWaitingFrame
step s (gets force) = get_stop_waiting_frame force s
step s (acked ack) = (received_ack ack s, none)
step s (requeued p) = (queued_retransmission_for_packet_number p s, none)

-- The last frame sent is for the largest number sent, and that is not ahead of the next one.
pub record Inv (s : StopWaitingManager) : Type 0 where
  pub behind : s.largest_least_unacked_sent ≤ s.next_least_unacked
  pub last :
      (f : StopWaitingFrame)
      → s.last_stop_waiting_frame ≡ some f
      → f.least_unacked ≡ s.largest_least_unacked_sent
  pub some_sent : 0 < s.largest_least_unacked_sent → s.last_stop_waiting_frame ≢ none

pub step-Inv :
    (s : StopWaitingManager) (e : Event) → packet_of e < 2 ^ 62 → Inv s → Inv (step s e).0
unfolding step get_stop_waiting_frame received_ack queued_retransmission_for_packet_number
step-Inv s (gets force) lt v = grind arith
step-Inv s (acked ack) lt v = grind arith
step-Inv s (requeued p) lt v = grind arith

-- A frame is for a number that is not below the last one sent.
step-sent :
    (s : StopWaitingManager) (e : Event) (f : StopWaitingFrame)
    → packet_of e < 2 ^ 62
    → Inv s
    → (step s e).1 ≡ some f
    → (s.largest_least_unacked_sent ≤ f.least_unacked)
      × (f.least_unacked ≡ (step s e).0.largest_least_unacked_sent)
unfolding step get_stop_waiting_frame received_ack queued_retransmission_for_packet_number
step-sent s (gets force) f lt v h = grind arith
step-sent s (acked ack) f lt v h = cc
step-sent s (requeued p) f lt v h = cc

step-grows :
    (s : StopWaitingManager) (e : Event)
    → s.largest_least_unacked_sent ≤ (step s e).0.largest_least_unacked_sent
unfolding step get_stop_waiting_frame received_ack queued_retransmission_for_packet_number
step-grows s (gets force) = ground arith
step-grows s (acked ack) = ground arith
step-grows s (requeued p) = ground arith

abbrev number_of : Option StopWaitingFrame → List ℕ → List ℕ
number_of none l = l
number_of (some f) l = f.least_unacked ∷ l

-- The numbers that are sent in a run.
unfoldable pub sent : StopWaitingManager → List Event → List ℕ
unfolding step
sent s [] = []
sent s (e ∷ es) = number_of (step s e).1 (sent (step s e).0 es)

abbrev pub AscendingFrom : ℕ → List ℕ → Type 0
AscendingFrom n [] = Unit {0}
AscendingFrom n (x ∷ xs) = (n ≤ x) × AscendingFrom x xs

AscendingFrom-mono : (m n : ℕ) (l : List ℕ) → m ≤ n → AscendingFrom n l → AscendingFrom m l
AscendingFrom-mono m n [] h a = tt
AscendingFrom-mono m n (x ∷ xs) h (p, q) = (omega arith, q)

-- From a state that satisfies the invariant, in any run of ACKs, retransmissions and requests,
-- forced or not, with packet numbers below 2 ^ 62, the STOP_WAITING frames that are sent have
-- ascending numbers, from the last one sent before.
pub sent-AscendingFrom :
    (s : StopWaitingManager) (es : List Event)
    → Inv s
    → All (λ e. packet_of e < 2 ^ 62) es
    → AscendingFrom s.largest_least_unacked_sent (sent s es)
unfolding sent
sent-AscendingFrom s [] v h = tt
sent-AscendingFrom s (e ∷ es) v (lt, h) =
    let rest = sent-AscendingFrom (step s e).0 es (step-Inv s e lt v) h in
    elim (Option-cases (step s e).1) [
      | inl quiet ↦ rw quiet (AscendingFrom-mono _ _ _ (step-grows s e) rest)
      | inr (f, sends) ↦
          let (le, same) = step-sent s e f lt v sends in rw (sends, same) (rw same at le, rest)
    ]
