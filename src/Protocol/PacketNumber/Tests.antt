-- ===== src/Protocol/PacketNumber/Tests.antt =====
-- src/sa-ecf/internal/protocol/packet_number.go on concrete packet numbers.
use ivsh.Common.{◌*◌, ◌%◌, ◌^◌, ◌≡◌, refl, arith}
use ivsh.Protocol.PacketNumber.{len1, len4, bytes_of}
use ivsh.Protocol.PacketNumber.{infer_packet_number}
use ivsh.Protocol.PacketNumber.{packet_number_length_for_public_header}
use ivsh.Protocol.PacketNumber.Infer.{infer-public_header}

infer_next_epoch : infer_packet_number len1 0x1fe 0x03 ≡ 0x203
unfolding infer_packet_number
infer_next_epoch = refl

infer_previous_epoch : infer_packet_number len1 0x201 0xfe ≡ 0x1fe
unfolding infer_packet_number
infer_previous_epoch = refl

public_header_length : packet_number_length_for_public_header 70000 100 ≡ len4
unfolding packet_number_length_for_public_header
public_header_length = refl

infer-public_header_example :
    let len = packet_number_length_for_public_header 70000 69000 in
    infer_packet_number len 69500 (70000 % 2 ^ (bytes_of len * 8)) ≡ 70000
infer-public_header_example =
    infer-public_header 70000 69000 69500 (omega arith) (omega arith) (omega arith) (omega arith)
      (omega arith) (omega arith)
