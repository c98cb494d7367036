-- ===== src/Utils/Tests.antt =====
-- src/sa-ecf/internal/utils on concrete bytes and numbers.
use ivsh.Common.{List, ℕ, ◌*◌, ◌≤◌, ◌≡◌, refl, arith, [], ◌∷◌, ◌++◌}
use ivsh.Common.Result.{ok, err}
use ivsh.Utils.Reader.{eof}
use ivsh.Utils.ByteOrder.LittleEndian.{little_endian}
use ivsh.Utils.ByteOrder.LittleEndian.Codec.{little_endian-IsCodec}
use ivsh.Utils.ByteOrder.BigEndian.{big_endian}
use ivsh.Utils.ByteOrder.BigEndian.Codec.{big_endian-IsCodec}
use ivsh.Utils.Float16.{read_ufloat16, write_ufloat16}
use ivsh.Utils.Float16.Rounding.{read_ufloat16-write_ufloat16}
use ivsh.Utils.Float16.Rounding.{write_ufloat16-read_ufloat16}

read_big : big_endian.read_uint_n 3 (0x01 ∷ 0x02 ∷ 0x03 ∷ 9 ∷ []) ≡ ok (0x010203, 9 ∷ [])
unfolding big_endian
read_big = refl

read_little : little_endian.read_uint_n 3 (0x01 ∷ 0x02 ∷ 0x03 ∷ 9 ∷ []) ≡ ok (0x030201, 9 ∷ [])
unfolding little_endian
read_little = refl

read_cut : little_endian.read_uint32 (1 ∷ 2 ∷ 3 ∷ []) ≡ err eof
unfolding little_endian
read_cut = refl

read_ufloat16-write_ufloat16_example :
    (d : ℕ) × (d ≤ 100001)
    × (2048 * 100001 ≤ 2049 * d)
    × ((rest : List ℕ)
        → read_ufloat16 big_endian (write_ufloat16 big_endian 100001 ++ rest) ≡ ok (d, rest))
read_ufloat16-write_ufloat16_example = read_ufloat16-write_ufloat16 big_endian-IsCodec 100001

write_ufloat16-read_ufloat16_example :
    (value : ℕ) × (read_ufloat16 little_endian (little_endian.write_uint16 0x1234 ++ [])
      ≡ ok (value, []))
    × (write_ufloat16 little_endian value ≡ little_endian.write_uint16 0x1234)
write_ufloat16-read_ufloat16_example =
    write_ufloat16-read_ufloat16 little_endian-IsCodec 0x1234 [] (omega arith)
