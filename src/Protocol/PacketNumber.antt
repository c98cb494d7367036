-- ===== src/Protocol/PacketNumber.antt =====
-- src/sa-ecf/internal/protocol/packet_number.go: how packet numbers are cut to a few bytes
-- for the wire, and how the receiver completes them again.
pub mod Infer
mod Tests
use ivsh.Common.{ℕ, ◌+◌, ◌-◌, ◌*◌, ◌%◌, ◌^◌, Bool, ltb, if◌then◌else◌, add64, sub64}

-- A PacketNumberLen is 1, 2, 4 or 6 bytes.
pub data PacketNumberLen : Type 0 where
  len1 len2 len4 len6 : PacketNumberLen

abbrev pub bytes_of : PacketNumberLen → ℕ
bytes_of len1 = 1
bytes_of len2 = 2
bytes_of len4 = 4
bytes_of len6 = 6

unfoldable pub delta : ℕ → ℕ → ℕ
delta a b = if ltb a b then sub64 b a else sub64 a b

unfoldable pub closest_to : ℕ → ℕ → ℕ → ℕ
unfolding delta
closest_to target a b = if ltb (delta target a) (delta target b) then a else b

-- `lastPacketNumber & ^(epochDelta - 1)` clears the bits below the power of two `epoch_delta`.
unfoldable pub infer_packet_number : PacketNumberLen → ℕ → ℕ → ℕ
unfolding closest_to
infer_packet_number len last wire =
    let epoch_delta = 2 ^ (bytes_of len * 8) in
    let epoch = last - last % epoch_delta in
    let prev_epoch_begin = sub64 epoch epoch_delta in
    let next_epoch_begin = add64 epoch epoch_delta in
    closest_to (add64 last 1) (add64 epoch wire)
      (closest_to (add64 last 1) (add64 prev_epoch_begin wire) (add64 next_epoch_begin wire))

-- The thresholds 2 << (8 * l - 2) of the source are half of the epochs.
unfoldable pub packet_number_length_for_public_header : ℕ → ℕ → PacketNumberLen
packet_number_length_for_public_header packet_number least_unacked =
    let diff = sub64 packet_number least_unacked in
    if ltb diff (2 * 2 ^ (2 * 8 - 2))
    then len2
    else if ltb diff (2 * 2 ^ (4 * 8 - 2))
    then len4
    else len6

unfoldable pub packet_number_length : ℕ → PacketNumberLen
packet_number_length packet_number =
    if ltb packet_number (2 ^ (1 * 8))
    then len1
    else if ltb packet_number (2 ^ (2 * 8))
    then len2
    else if ltb packet_number (2 ^ (4 * 8))
    then len4
    else len6
