-- ===== src/Utils/ByteOrder/Interface.antt =====
-- src/sa-ecf/internal/utils/byteorder.go: the interface `ByteOrder`. A write returns the bytes that
-- it appends to the buffer.
use ivsh.Common.{ℕ, ◌^◌, ◌<◌, ◌≡◌, List, ◌∷◌, ◌++◌, length, All}
use ivsh.Common.Result.{Result, ok}
use ivsh.Utils.Reader.{Parse, IsByte}

-- How a write fails: Go's `panic`, or one of the errors of the wire package.
pub data WriteError : Type 0 where
  panic : WriteError
  empty_frame_without_fin invalid_stream_id_len invalid_offset_len : WriteError
  packet_number_not_set least_unacked_higher packet_number_len_not_set : WriteError
  reason_phrase_too_long : WriteError
  inconsistent_largest_acked inconsistent_lowest_acked inconsistent_ack_ranges : WriteError

abbrev pub Write : Type 0
Write = Result WriteError (List ℕ)

pub record ByteOrder : Type 0 where
  pub read_uint_n : ℕ → List ℕ → Parse ℕ
  pub read_uint64 : List ℕ → Parse ℕ
  pub read_uint32 : List ℕ → Parse ℕ
  pub read_uint16 : List ℕ → Parse ℕ
  pub write_uint64 : ℕ → List ℕ
  pub write_uint56 : ℕ → Write
  pub write_uint48 : ℕ → Write
  pub write_uint40 : ℕ → Write
  pub write_uint32 : ℕ → List ℕ
  pub write_uint24 : ℕ → Write
  pub write_uint16 : ℕ → List ℕ

-- `bs` are `n` bytes, and are read as the number `i` by the parser `p`, whatever follows them.
abbrev pub Reads : (List ℕ → Parse ℕ) → ℕ → List ℕ → ℕ → Type 0
Reads p n bs i = (length bs ≡ n) × All IsByte bs × ((rest : List ℕ) → p (bs ++ rest) ≡ ok (i, rest))

-- What is written can be read back, by the function of that width and by `read_uint_n`.
pub record IsCodec (o : ByteOrder) : Type 0 where
  pub uint64 : (i : ℕ) → i < 2 ^ 64 → Reads o.read_uint64 8 (o.write_uint64 i) i
  pub uint32 : (i : ℕ) → i < 2 ^ 32 → Reads o.read_uint32 4 (o.write_uint32 i) i
  pub uint16 : (i : ℕ) → i < 2 ^ 16 → Reads o.read_uint16 2 (o.write_uint16 i) i
  pub one_byte : (i : ℕ) → i < 2 ^ 8 → (rest : List ℕ) → o.read_uint_n 1 (i ∷ rest) ≡ ok (i, rest)
  pub no_byte : (rest : List ℕ) → o.read_uint_n 0 rest ≡ ok (0, rest)
  pub n_uint16 : (i : ℕ) → i < 2 ^ 16 → Reads (o.read_uint_n 2) 2 (o.write_uint16 i) i
  pub n_uint32 : (i : ℕ) → i < 2 ^ 32 → Reads (o.read_uint_n 4) 4 (o.write_uint32 i) i
  pub n_uint64 : (i : ℕ) → i < 2 ^ 64 → Reads (o.read_uint_n 8) 8 (o.write_uint64 i) i
  pub n_uint24 :
      (i : ℕ)
      → i < 2 ^ 24
      → (bs : List ℕ) × (o.write_uint24 i ≡ ok bs) × Reads (o.read_uint_n 3) 3 bs i
  pub n_uint40 :
      (i : ℕ)
      → i < 2 ^ 40
      → (bs : List ℕ) × (o.write_uint40 i ≡ ok bs) × Reads (o.read_uint_n 5) 5 bs i
  pub n_uint48 :
      (i : ℕ)
      → i < 2 ^ 48
      → (bs : List ℕ) × (o.write_uint48 i ≡ ok bs) × Reads (o.read_uint_n 6) 6 bs i
  pub n_uint56 :
      (i : ℕ)
      → i < 2 ^ 56
      → (bs : List ℕ) × (o.write_uint56 i ≡ ok bs) × Reads (o.read_uint_n 7) 7 bs i
