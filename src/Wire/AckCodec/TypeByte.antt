-- ===== src/Wire/AckCodec/TypeByte.antt =====
-- src/sa-ecf/internal/wire/ack_frame.go: the type byte.
use Prim.Native.Nat.{bit_and}
use ivsh.Common.{◌≡◌, arith, Bool, ◌==◌}
use ivsh.Protocol.PacketNumber.{PacketNumberLen, bytes_of}
use ivsh.Wire.AckCodec.{ack_type_byte, largest_acked_len, missing_sequence_number_delta_len}

-- The type byte gives back both flags and both lengths.
pub type_byte_lem :
    (missing path : Bool) (l m : PacketNumberLen)
    → let b = ack_type_byte missing path l m in
      ((bit_and b 0x20 == 0x20) ≡ missing)
      × ((bit_and b 0x10 == 0x10) ≡ path)
      × (largest_acked_len b ≡ bytes_of l)
      × (missing_sequence_number_delta_len b ≡ bytes_of m)
unfolding ack_type_byte
type_byte_lem missing path l m = ground arith
