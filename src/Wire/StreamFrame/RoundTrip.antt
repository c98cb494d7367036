-- ===== src/Wire/StreamFrame/RoundTrip.antt =====
-- src/sa-ecf/internal/wire/stream_frame.go: a written frame is parsed as the same frame, and what
-- the parser accepts.
use ivsh.Common.{
  ℕ, ◌+◌, ◌-◌, ◌%◌, ◌^◌, ◌≤◌, ◌<◌, ◌≡◌, ◌⊎◌, inl, inr, refl, ap, arith, List, [], ◌∷◌, ◌++◌, Bool,
  true, false, length, length-append, ◌==◌, not, ◌&&◌, if◌then◌else◌,
}
use mathlib.Core.List.{append_assoc}
use ivsh.Common.Result.{ok, ◌>>=◌}
use ivsh.Utils.ByteOrder.{ByteOrder, IsCodec}
use ivsh.Wire.StreamFrame.{
  StreamFrame, data_len, max_packet_size, parse_data, parse_stream_frame, write_stream_frame,
  min_length, stream_id_length, offset_length, type_byte_of,
}
use ivsh.Wire.StreamFrame.Fields.{
  read_full-append, write_stream_id-Field, write_offset-Field, type_byte_lem,
}

-- What a frame must be to be written: its numbers fit their Go types, it is not empty or has the
-- FIN bit, and its data are not too long for the packet or, with no length, for the length's type.
pub record IsWritable (f : StreamFrame) : Type 0 where
  pub id : f.stream_id < 2 ^ 32
  pub end : f.offset + data_len f < 2 ^ 64
  pub size : data_len f ≤ (if f.data_len_present then max_packet_size else 2 ^ 16 - 1)
  pub content : (f.fin_bit ≡ true) ⊎ (0 < data_len f)

-- The length field is read and left behind, if it is there.
lens : ByteOrder → Bool → List ℕ → List ℕ
lens o present bytes = if present then o.write_uint16 (length bytes % 2 ^ 16) else []

module _ (sid offset : ℕ) (fin : Bool) (bytes rest : List ℕ) where
  abbrev parsed : Bool → StreamFrame
  parsed present = record {
    stream_id = sid;
    fin_bit = fin;
    data_len_present = present;
    offset = offset;
    bytes = bytes;
  }

  parse_data-present :
      offset + length bytes < 2 ^ 64
      → length bytes ≤ max_packet_size
      → (fin ≡ true) ⊎ (0 < length bytes)
      → parse_data sid fin true offset (length bytes) (bytes ++ rest) ≡ ok (parsed true, rest)
  unfolding parse_data
  parse_data-present end size content = ground (arith, read_full-append bytes rest)

  parse_data-absent :
      offset + length bytes < 2 ^ 64
      → length bytes < 2 ^ 16
      → (fin ≡ true) ⊎ (0 < length bytes)
      → rest ≡ []
      → parse_data sid fin false offset 0 (bytes ++ rest) ≡ ok (parsed false, rest)
  unfolding parse_data
  parse_data-absent end size content none_left =
      ground (arith, read_full-append bytes rest, length-append bytes rest, ap length none_left)

module _ {o : ByteOrder} (codec : IsCodec o) where
  -- The length field and the data behind it.
  read_len :
      (present : Bool) (sid offset : ℕ) (fin : Bool) (bytes rest : List ℕ)
      → offset + length bytes < 2 ^ 64
      → length bytes ≤ (if present then max_packet_size else 2 ^ 16 - 1)
      → (fin ≡ true) ⊎ (0 < length bytes)
      → (present ≡ true) ⊎ (rest ≡ [])
      → let tail = lens o present bytes ++ (bytes ++ rest) in
        ((if present then o.read_uint16 tail else ok (0, tail)) >>= λ (p : ℕ × List ℕ).
        parse_data sid fin present offset p.0 p.1)
        ≡ ok (parsed sid offset fin bytes rest present, rest)
  unfolding lens
  read_len true sid offset fin bytes rest end size content h =
      let whole : length bytes % 2 ^ 16 ≡ length bytes = omega arith in
      rw (whole, (codec.uint16 (length bytes) (omega arith)).2 (bytes ++ rest))
        (parse_data-present sid offset fin bytes rest end size content)
  read_len false sid offset fin bytes rest end size content h = elim h [
    | inl e ↦ cc
    | inr none_left ↦
        parse_data-absent sid offset fin bytes rest end (omega arith) content none_left
  ]

  length-lens :
      (present : Bool) (bytes : List ℕ) → length (lens o present bytes) ≡ (if present then 2 else 0)
  unfolding lens
  length-lens true bytes = (codec.uint16 (length bytes % 2 ^ 16) (omega arith)).0
  length-lens false bytes = refl

  write_guard : (f : StreamFrame) → IsWritable f → ((length f.bytes == 0) && not f.fin_bit) ≡ false
  unfolding data_len
  write_guard f w = ground arith

  abbrev first_byte : StreamFrame → ℕ
  first_byte f =
      type_byte_of f.fin_bit f.data_len_present (offset_length f.offset)
        (stream_id_length f.stream_id)

  -- The parser on a frame whose two number fields are read as they should be.
  parse_fields :
      (f : StreamFrame) (ids offsets rest : List ℕ)
      → IsWritable f
      → (f.data_len_present ≡ true) ⊎ (rest ≡ [])
      → ((r : List ℕ)
          → o.read_uint_n (stream_id_length f.stream_id) (ids ++ r) ≡ ok (f.stream_id, r))
      → ((r : List ℕ) → o.read_uint_n (offset_length f.offset) (offsets ++ r) ≡ ok (f.offset, r))
      → parse_stream_frame o (
          (first_byte f ∷ (ids ++ (offsets ++ (lens o f.data_len_present f.bytes ++ f.bytes))))
          ++ rest)
        ≡ ok (f, rest)
  unfolding parse_stream_frame data_len
  parse_fields f ids offsets rest w h read_id read_offset =
      let (fin, present, id_len, offset_len) =
        type_byte_lem f.fin_bit f.data_len_present f.stream_id f.offset in
      rw
        (
          append_assoc ids _ rest,
          append_assoc offsets _ rest,
          append_assoc (lens o f.data_len_present f.bytes) _ rest,
          fin,
          present,
          id_len,
          offset_len,
          read_id,
          read_offset,
        )
        (read_len f.data_len_present f.stream_id f.offset f.fin_bit f.bytes rest w.end w.size
          w.content h)

  -- A frame that can be written is written with `min_length` bytes before its data, and is parsed
  -- as the same frame, whatever follows it; a frame without a length field must be the last one.
  pub parse_stream_frame-write :
      (f : StreamFrame) (rest : List ℕ)
      → IsWritable f
      → (f.data_len_present ≡ true) ⊎ (rest ≡ [])
      → (bs : List ℕ) × (write_stream_frame o f ≡ ok bs)
        × (length bs ≡ min_length f + data_len f)
        × (parse_stream_frame o (bs ++ rest) ≡ ok (f, rest))
  unfolding write_stream_frame min_length data_len lens
  parse_stream_frame-write f rest w h =
      let (ids, wrote_id, id_field) = write_stream_id-Field codec f.stream_id w.id in
      let (offsets, wrote_offset, offset_field) = write_offset-Field codec f.offset (omega arith) in
      let len_field = lens o f.data_len_present f.bytes in
      let tail = len_field ++ f.bytes in
      (
        first_byte f ∷ (ids ++ (offsets ++ tail)),
        rw (write_guard f w, wrote_id, wrote_offset),
        omega (
          arith,
          id_field.0,
          offset_field.0,
          length-append ids (offsets ++ tail),
          length-append offsets tail,
          length-append len_field f.bytes,
          length-lens f.data_len_present f.bytes,
        ),
        parse_fields f ids offsets rest w h id_field.2 offset_field.2,
      )
