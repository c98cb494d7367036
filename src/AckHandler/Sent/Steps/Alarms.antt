-- ===== src/AckHandler/Sent/Steps/Alarms.antt =====
-- src/sa-ecf/ackhandler/sent_packet_handler.go: alarms that fire one after the other, without any ACK.
use ivsh.Common.{
  ℕ, zero, suc, ◌+◌, ◌≤◌, ◌<◌, ◌≡◌, refl, ◌∙◌, arith, List, [], ◌∷◌, true, false, Option, none,
  some, inl, inr, length, All, Among, sum_of,
}
use native.Mathlib.Nat.{eq-zero-or-pos}
use ivsh.AckHandler.Packet.{Packet, is_retransmittable}
use ivsh.AckHandler.Sent.State.{
  Call, SentPacketHandler, Environment, remove, queue_packet_for_retransmission, lose, queue_rto,
}
use ivsh.AckHandler.Sent.Alarm.{update_loss_detection_alarm}
use ivsh.AckHandler.Sent.Loss.{is_zero}
use ivsh.AckHandler.Sent.Timeout.{
  back, any_retransmittable, retransmit_tlp, retransmit_oldest_packet, queue_all,
  retransmit_all_packets, retransmit_oldest_two_packets, on_alarm,
}
use ivsh.AckHandler.Sent.History.{remove-All}
use ivsh.AckHandler.Sent.Invariant.{Inv}
use ivsh.AckHandler.Sent.Invariant.Firing.{back-Among, on_alarm-elim, on_alarm-Inv}
use ivsh.AckHandler.Sent.Conservation.{outstanding, on_alarm-outstanding}

length-removed :
    (p : Packet) (l : List Packet) → Among p l → length (remove p.packet_number l) + 1 ≡ length l
unfolding remove
length-removed p [] here = elim here [ ]
length-removed p (q ∷ qs) (inl same) = rw same (ground arith)
length-removed p (q ∷ qs) (inr later) = let rest = length-removed p qs later in ground arith

-- The state of a firing: `n` packets at most are left, all of them are retransmittable, and no loss
-- time is set.
record Left (n : ℕ) (h : SentPacketHandler) : Type 0 where
  few : length h.packet_history ≤ n
  retransmittable : All (λ (p : Packet). is_retransmittable p ≡ true) h.packet_history
  no_loss_time : h.loss_time ≡ none

removed-Left :
    (n : ℕ) (p : Packet) (h k : SentPacketHandler)
    → k.packet_history ≡ remove p.packet_number h.packet_history
    → k.loss_time ≡ h.loss_time
    → Among p h.packet_history
    → Left (suc n) h
    → Left n k
removed-Left n p h k history loss_time here v = record {
  few =
      rw history
        (let gone = length-removed p h.packet_history here in let most = v.few in omega arith);
  retransmittable = rw history (remove-All _ p.packet_number h.packet_history v.retransmittable);
  no_loss_time = loss_time ∙ v.no_loss_time;
}

oldest-Left : (n : ℕ) (h : SentPacketHandler) → Left (suc n) h → Left n (retransmit_oldest_packet h)
unfolding retransmit_oldest_packet queue_rto lose queue_packet_for_retransmission
oldest-Left n h v = go h.packet_history refl
  where
    go :
        (l : List Packet)
        → h.packet_history ≡ l
        → Left n (elim l [ [] ↦ h | p ∷ ps ↦ queue_rto p h ])
    go [] same = record {
      few = rw same (omega arith);
      retransmittable = v.retransmittable;
      no_loss_time = v.no_loss_time;
    }
    go (p ∷ ps) same = removed-Left n p h (queue_rto p h) refl refl (rw same (inl refl)) v

back-some : (l : List Packet) → 0 < length l → back l ≡ none → ⊥
back-some [] lt h = omega arith
back-some (p ∷ []) lt h = cc
back-some (p ∷ q ∷ l) lt h = back-some (q ∷ l) (omega arith) h

tlp-Left : (n : ℕ) (h : SentPacketHandler) → Left (suc n) h → Left n (retransmit_tlp h)
unfolding retransmit_tlp queue_packet_for_retransmission
tlp-Left n h v = go (back h.packet_history) refl
  where
    go :
        (last : Option Packet)
        → back h.packet_history ≡ last
        → Left n (elim last [ none ↦ h | some p ↦ queue_packet_for_retransmission p h ])
    go none same = record {
      few = elim (eq-zero-or-pos (length h.packet_history)) [
        | inl empty ↦ omega arith
        | inr more ↦ elim (back-some h.packet_history more same) [ ]
      ];
      retransmittable = v.retransmittable;
      no_loss_time = v.no_loss_time;
    }
    go (some p) same =
        removed-Left n p h (queue_packet_for_retransmission p h) refl refl
          (back-Among h.packet_history p same) v

widen-Left : (n m : ℕ) (h : SentPacketHandler) → n ≤ m → Left n h → Left m h
widen-Left n m h le v = record {
  few = let most = v.few in omega arith;
  retransmittable = v.retransmittable;
  no_loss_time = v.no_loss_time;
}

-- Each round of the loop takes one packet out of the history.
queue_all-Left :
    (rounds n : ℕ) (h : SentPacketHandler) → Left (rounds + n) h → Left n (queue_all rounds h)
unfolding queue_all queue_rto lose queue_packet_for_retransmission
queue_all-Left zero n h v = widen-Left (0 + n) n h (omega arith) v
queue_all-Left (suc rounds) n h v = go h.packet_history refl (λ k w. queue_all-Left rounds n k w)
  where
    go :
        (l : List Packet)
        → h.packet_history ≡ l
        → ((k : SentPacketHandler) → Left (rounds + n) k → Left n (queue_all rounds k))
        → Left n (elim l [ [] ↦ h | p ∷ ps ↦ queue_all rounds (queue_rto p h) ])
    go [] same rest = record {
      few = rw same (omega arith);
      retransmittable = v.retransmittable;
      no_loss_time = v.no_loss_time;
    }
    go (p ∷ ps) same rest = rest (queue_rto p h) (
        removed-Left (rounds + n) p h (queue_rto p h) refl refl (rw same (inl refl))
          (widen-Left _ _ h (omega arith) v))

counted-Left :
    (n tlp rto : ℕ) (alarm : Option ℕ) (calls : List Call) (h : SentPacketHandler)
    → Left n h
    → Left n (record h { tlp_count = tlp; rto_count = rto; alarm = alarm; calls = calls })
counted-Left n tlp rto alarm calls h v = record {
  few = v.few;
  retransmittable = v.retransmittable;
  no_loss_time = v.no_loss_time;
}

idle-empty :
    (l : List Packet)
    → All (λ (p : Packet). is_retransmittable p ≡ true) l
    → any_retransmittable l ≡ false
    → l ≡ []
unfolding any_retransmittable
idle-empty [] v idle = refl
idle-empty (p ∷ ps) (here, v) idle = ground (arith, here)

-- An alarm takes a packet out of the history, if one is left.
on_alarm-Left :
    (env : Environment) (now n : ℕ) (h : SentPacketHandler)
    → Left (suc n) h
    → Left n (on_alarm env now h)
unfolding retransmit_all_packets retransmit_oldest_two_packets update_loss_detection_alarm
on_alarm-Left env now n h v =
    on_alarm-elim env now h (Left n)
      (λ idle. record {
        few = rw (idle-empty h.packet_history v.retransmittable idle) (omega arith);
        retransmittable = v.retransmittable;
        no_loss_time = v.no_loss_time;
      })
      (λ early. let late : is_zero h.loss_time ≡ true = rw v.no_loss_time refl in cc)
      (λ probe. counted-Left n _ _ _ _ (retransmit_tlp h) (tlp-Left n h v))
      (λ failed. counted-Left n _ _ _ _ _ (
        widen-Left 0 n _ (omega arith) (
          queue_all-Left (length h.packet_history) 0 h (record {
            few = omega arith;
            retransmittable = v.retransmittable;
            no_loss_time = v.no_loss_time;
          }))))
      (λ alive.
        counted-Left n _ _ _ _ _
          (oldest-Left n _ (widen-Left n (suc n) _ (omega arith) (oldest-Left n h v))))

-- Alarms at the given times, each with what the environment answers then.
unfoldable pub on_alarms : List (Environment × ℕ) → SentPacketHandler → SentPacketHandler
on_alarms [] h = h
on_alarms ((env, now) ∷ ts) h = on_alarms ts (on_alarm env now h)

on_alarms-Left :
    (ts : List (Environment × ℕ)) (h : SentPacketHandler)
    → Left (length ts) h
    → Left 0 (on_alarms ts h)
unfolding on_alarms
on_alarms-Left [] h v = v
on_alarms-Left ((env, now) ∷ ts) h v =
    on_alarms-Left ts (on_alarm env now h) (on_alarm-Left env now (length ts) h v)

on_alarms-outstanding :
    (ts : List (Environment × ℕ)) (f : Packet → ℕ) (h : SentPacketHandler)
    → Inv h
    → outstanding f (on_alarms ts h) ≡ outstanding f h
unfolding on_alarms
on_alarms-outstanding [] f h v = refl
on_alarms-outstanding ((env, now) ∷ ts) f h v =
    on_alarms-outstanding ts f (on_alarm env now h) (on_alarm-Inv env now h v)
    ∙ on_alarm-outstanding env now f h v

empty : (l : List Packet) → length l ≤ 0 → l ≡ []
empty [] le = refl
empty (p ∷ ps) le = ground arith

-- As many alarms as the history has packets, in which no ACK arrives, empty the history: every packet is
-- then in the retransmission queue, as often as it was in one of the two before. No loss time is set
-- at the start, and each packet of the history has a frame that IsRetransmittable lists.
pub on_alarms-empty :
    (ts : List (Environment × ℕ)) (f : Packet → ℕ) (h : SentPacketHandler)
    → Inv h
    → All (λ (p : Packet). is_retransmittable p ≡ true) h.packet_history
    → h.loss_time ≡ none
    → length h.packet_history ≤ length ts
    → let k = on_alarms ts h in
      (k.packet_history ≡ [])
      × (sum_of f k.retransmission_queue
          ≡ sum_of f h.packet_history + sum_of f h.retransmission_queue)
on_alarms-empty ts f h v r unset enough =
    let left =
      on_alarms-Left ts h (record { few = enough; retransmittable = r; no_loss_time = unset }) in
    let none_left = empty (on_alarms ts h).packet_history left.few in
    let total = on_alarms-outstanding ts f h v in
    let nothing : sum_of f (on_alarms ts h).packet_history ≡ 0 = rw none_left refl in
    (none_left, omega arith)
