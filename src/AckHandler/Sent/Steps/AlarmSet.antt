-- ===== src/AckHandler/Sent/Steps/AlarmSet.antt =====
-- src/sa-ecf/ackhandler/sent_packet_handler.go: the alarm is set as long as a packet waits for its ACK.
use ivsh.Common.{
  ℕ, ◌+◌, ◌≡◌, refl, sym, ◌∙◌, List, [], ◌∷◌, Bool, true, false, Option, none, some, arith, ltb,
  leb, ◌==◌, inl, inr, Bool-cases, Option-cases, length, All,
}
use ivsh.AckHandler.Packet.{
  Packet, Frame, is_frame_retransmittable, strip_non_retransmittable_frames, is_listed, any_listed,
  is_retransmittable,
}
use ivsh.AckHandler.Sent.State.{Call, SentPacketHandler, Environment, remove}
use ivsh.AckHandler.Sent.Alarm.{update_loss_detection_alarm, next_alarm}
use ivsh.AckHandler.Sent.Loss.{is_zero}
use ivsh.AckHandler.Sent.Send.{record_sent, sent_packet, is_nonempty, max_tracked_sent_packets}
use ivsh.AckHandler.Sent.History.{remove-All}
use ivsh.AckHandler.Sent.Invariant.Sending.{All-snoc}
use ivsh.AckHandler.Sent.Steps.{Event, sends}

abbrev pub Waiting : List Packet → Type 0
Waiting l = All (λ (p : Packet). is_retransmittable p ≡ true) l

-- If a packet is in the history, the alarm is set.
abbrev pub HasAlarm : List Packet → Option ℕ → Type 0
HasAlarm [] alarm = Unit {0}
HasAlarm (p ∷ ps) alarm = is_zero alarm ≡ false

pub record IsArmed (h : SentPacketHandler) : Type 0 where
  pub waiting : Waiting h.packet_history
  pub set : HasAlarm h.packet_history h.alarm

next_alarm-set : (env : Environment) (h : SentPacketHandler) → is_zero (next_alarm env h) ≡ false
unfolding next_alarm
next_alarm-set env h = elim (Option-cases h.loss_time) [
  | inl unset ↦ rw unset (ground arith)
  | inr (t, at) ↦ rw at refl
]

pub remove-Waiting : (n : ℕ) (l : List Packet) → Waiting l → Waiting (remove n l)
remove-Waiting n l v = remove-All _ n l v

pub remove-HasAlarm :
    (alarm : Option ℕ) (n : ℕ) (l : List Packet) → HasAlarm l alarm → HasAlarm (remove n l) alarm
unfolding remove
remove-HasAlarm alarm n [] set = tt
remove-HasAlarm alarm n (p ∷ []) set = elim (Bool-cases (p.packet_number == n)) [
  | inl here ↦ rw here tt
  | inr later ↦ rw later set
]
remove-HasAlarm alarm n (p ∷ q ∷ ps) set = elim (Bool-cases (p.packet_number == n)) [
  | inl here ↦ rw here set
  | inr later ↦ rw later set
]

pub alarm-IsArmed :
    (env : Environment) (h : SentPacketHandler)
    → Waiting h.packet_history
    → IsArmed (update_loss_detection_alarm env h)
unfolding update_loss_detection_alarm
alarm-IsArmed env h v = record { waiting = v; set = go h.packet_history }
  where
    go :
        (l : List Packet)
        → let alarm : Option ℕ = elim l [ [] ↦ none | p ∷ ps ↦ next_alarm env h ] in
          HasAlarm l alarm
    go [] = tt
    go (p ∷ ps) = next_alarm-set env h

-- No frame of the packet is left out by IsRetransmittable only: these are CONNECTION_CLOSE and CLOSE_PATH.
abbrev pub IsListed : Event → Type 0
IsListed (sends env now p) = All (λ (f : Frame). is_frame_retransmittable f ≡ is_listed f) p.frames
IsListed _ = Unit {0}

stripped_listed :
    (fs : List Frame)
    → All (λ (f : Frame). is_frame_retransmittable f ≡ is_listed f) fs
    → is_nonempty (strip_non_retransmittable_frames fs)
      ≡ any_listed (strip_non_retransmittable_frames fs)
unfolding strip_non_retransmittable_frames
stripped_listed [] v = refl
stripped_listed (f ∷ fs) (same, v) =
    let rest = stripped_listed fs v in
    elim (Bool-cases (is_frame_retransmittable f)) [
      | inl holds ↦ rw (holds, sym same ∙ holds) refl
      | inr fails ↦ rw fails rest
    ]

record_sent-Waiting :
    (now : ℕ) (p : Packet) (b : Bool) (h : SentPacketHandler)
    → is_retransmittable p ≡ b
    → Waiting h.packet_history
    → Waiting (record_sent now p b h).packet_history
unfolding record_sent is_retransmittable
record_sent-Waiting now p true h listed v =
    All-snoc _ h.packet_history (record p { send_time = some now }) v listed
record_sent-Waiting now p false h listed v = v

pub sent_packet-IsArmed :
    (env : Environment) (now : ℕ) (p : Packet) (h : SentPacketHandler)
    → All (λ (f : Frame). is_frame_retransmittable f ≡ is_listed f) p.frames
    → IsArmed h
    → IsArmed (sent_packet env now p h).0
unfolding sent_packet is_retransmittable
sent_packet-IsArmed env now p h listed v =
    elim (Bool-cases (leb p.packet_number h.last_sent_packet_number)) [
      | inl old ↦ rw old v
      | inr new ↦
          elim (Bool-cases (
            ltb max_tracked_sent_packets
              (length h.retransmission_queue + length h.packet_history + 1))) [
                | inl full ↦ rw (new, full) v
                | inr room ↦
                    rw (new, room)
                      (alarm-IsArmed env _ (
                        record_sent-Waiting now
                          (record p { frames = strip_non_retransmittable_frames p.frames }) _ _
                          (sym (stripped_listed p.frames listed)) v.waiting))
              ]
    ]

pub touched-IsArmed :
    (w largest : ℕ) (calls : List Call) (h : SentPacketHandler)
    → IsArmed h
    → IsArmed
        (record h { largest_received_packet_with_ack = w; largest_acked = largest; calls = calls })
touched-IsArmed w largest calls h v = record { waiting = v.waiting; set = v.set }
