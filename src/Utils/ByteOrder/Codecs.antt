-- ===== src/Utils/ByteOrder/Codecs.antt =====
-- src/sa-ecf/internal/utils/byteorder.go: the two implementations of the interface.
use ivsh.Utils.ByteOrder.Interface.{IsCodec}
use ivsh.Utils.ByteOrder.LittleEndian.{little_endian}
use ivsh.Utils.ByteOrder.LittleEndian.Codec.{little_endian-IsCodec}
use ivsh.Utils.ByteOrder.BigEndian.{big_endian}
use ivsh.Utils.ByteOrder.BigEndian.Codec.{big_endian-IsCodec}

-- In either byte order reading undoes writing at each width, and the narrow writes do not panic on
-- numbers of their width.
orders-IsCodec : IsCodec little_endian × IsCodec big_endian
orders-IsCodec = (little_endian-IsCodec, big_endian-IsCodec)
