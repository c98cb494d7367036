-- ===== src/Protocol/PacketNumber/Infer.antt =====
-- src/sa-ecf/internal/protocol/packet_number.go: the lengths chosen by the sender are enough, and
-- the receiver recovers the packet number from what is left of it on the wire.
use ivsh.Common.{ℕ, ◌+◌, ◌*◌, ◌%◌, ◌^◌, ◌≤◌, ◌<◌, ◌≡◌, arith}
use ivsh.Protocol.PacketNumber.{PacketNumberLen, len1, len2, len4, len6, bytes_of}
use ivsh.Protocol.PacketNumber.{infer_packet_number, packet_number_length}
use ivsh.Protocol.PacketNumber.{packet_number_length_for_public_header}

-- A packet number that is nearer than half an epoch to the successor of the last one is inferred
-- from its low bytes, for each of the four lengths, while the numbers are below 2 ^ 62.
infer-wire :
    (len : PacketNumberLen) (last pn : ℕ)
    → last < 2 ^ 62
    → pn < 2 ^ 62
    → 2 * pn < 2 * (last + 1) + 2 ^ (bytes_of len * 8)
    → 2 * (last + 1) < 2 * pn + 2 ^ (bytes_of len * 8)
    → infer_packet_number len last (pn % 2 ^ (bytes_of len * 8)) ≡ pn
unfolding infer_packet_number
infer-wire len1 last pn hl hp above below = ground arith
infer-wire len2 last pn hl hp above below = ground arith
infer-wire len4 last pn hl hp above below = ground arith
infer-wire len6 last pn hl hp above below = ground arith

-- With the length that the sender chooses for `pn` while `least_unacked` is not acknowledged, a
-- receiver that has seen a packet from `least_unacked - 1` on, and none 2 ^ 15 or more above `pn`,
-- infers `pn`, if fewer than 2 ^ 47 packets are in flight and the numbers are below 2 ^ 62.
pub infer-public_header :
    (pn least_unacked last : ℕ)
    → pn < 2 ^ 62
    → last < 2 ^ 62
    → least_unacked ≤ pn
    → pn < least_unacked + 2 ^ 47
    → least_unacked ≤ last + 1
    → last + 1 < pn + 2 ^ 15
    → let len = packet_number_length_for_public_header pn least_unacked in
      infer_packet_number len last (pn % 2 ^ (bytes_of len * 8)) ≡ pn
unfolding packet_number_length_for_public_header
infer-public_header pn least_unacked last hp hl le window seen near =
    ground (arith, infer-wire len2 last pn, infer-wire len4 last pn, infer-wire len6 last pn)

-- `packet_number_length` chooses a length that holds the whole number, if that is below 2 ^ 48,
-- and no shorter one of the four lengths holds it.
pub packet_number_length_fits :
    (pn : ℕ)
    → pn < 2 ^ 48
    → (pn < 2 ^ (bytes_of (packet_number_length pn) * 8))
      × ((len : PacketNumberLen)
          → pn < 2 ^ (bytes_of len * 8)
          → bytes_of (packet_number_length pn) ≤ bytes_of len)
unfolding packet_number_length
packet_number_length_fits pn h = (ground arith, shortest)
  where
    shortest :
        (len : PacketNumberLen)
        → pn < 2 ^ (bytes_of len * 8)
        → bytes_of (packet_number_length pn) ≤ bytes_of len
    shortest len1 f = ground arith
    shortest len2 f = ground arith
    shortest len4 f = ground arith
    shortest len6 f = ground arith
