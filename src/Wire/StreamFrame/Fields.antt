-- ===== src/Wire/StreamFrame/Fields.antt =====
-- src/sa-ecf/internal/wire/stream_frame.go: the fields of the header, one by one.
use Prim.Native.Nat.{bit_and}
use ivsh.Common.{
  ℕ, ◌%◌, ◌^◌, ◌<◌, ◌≡◌, refl, arith, List, [], ◌∷◌, ◌++◌, Bool, length, ltb, ◌⊎◌, inl, inr,
}
use native.Mathlib.Nat.{mod-eq_of_lt}
use ivsh.Common.Result.{ok}
use ivsh.Utils.Reader.{read_full}
use ivsh.Utils.ByteOrder.{ByteOrder, Write, IsCodec, Reads}
use ivsh.Wire.StreamFrame.{
  stream_id_length, offset_length, write_stream_id, write_offset, type_byte_of, stream_id_len_of,
  offset_len_of,
}

pub read_full-append : (bs rest : List ℕ) → read_full (length bs) (bs ++ rest) ≡ ok (bs, rest)
read_full-append [] rest = refl
read_full-append (b ∷ bs) rest = rw (read_full-append bs rest)

-- Which length is chosen, and for which numbers.
stream_id_length-cases :
    (id : ℕ)
    → ((stream_id_length id ≡ 1) × (id < 2 ^ 8))
      ⊎ (((stream_id_length id ≡ 2) × (id < 2 ^ 16))
          ⊎ (((stream_id_length id ≡ 3) × (id < 2 ^ 24)) ⊎ (stream_id_length id ≡ 4)))
unfolding stream_id_length
stream_id_length-cases id = ground arith

offset_length-cases :
    (offset : ℕ)
    → ((offset_length offset ≡ 0) × (offset ≡ 0))
      ⊎ (((offset_length offset ≡ 2) × (offset < 2 ^ 16))
          ⊎ (((offset_length offset ≡ 3) × (offset < 2 ^ 24))
              ⊎ (((offset_length offset ≡ 4) × (offset < 2 ^ 32))
                  ⊎ (((offset_length offset ≡ 5) × (offset < 2 ^ 40))
                      ⊎ (((offset_length offset ≡ 6) × (offset < 2 ^ 48))
                          ⊎ (((offset_length offset ≡ 7) × (offset < 2 ^ 56))
                              ⊎ (offset_length offset ≡ 8)))))))
unfolding offset_length
offset_length-cases offset = ground arith

mod_self : (i m : ℕ) → i < m → i % m ≡ i
mod_self i m h = mod-eq_of_lt h

module _ {o : ByteOrder} (codec : IsCodec o) where
  -- The field is written without a panic, and read back by its length.
  abbrev pub Field : (ℕ → ℕ → Write) → ℕ → ℕ → Type 0
  Field write n i = (bs : List ℕ) × (write n i ≡ ok bs) × Reads (o.read_uint_n n) n bs i

  pub write_stream_id-Field :
      (id : ℕ) → id < 2 ^ 32 → Field (write_stream_id o) (stream_id_length id) id
  unfolding write_stream_id
  write_stream_id-Field id h = elim (stream_id_length-cases id) [
    | inl (e, lt) ↦
        rw e (id ∷ [], rw (mod_self id (2 ^ 8) lt), (refl, (lt, tt), codec.one_byte id lt))
    | inr (inl (e, lt)) ↦
        rw e (o.write_uint16 id, rw (mod_self id (2 ^ 16) lt), codec.n_uint16 id lt)
    | inr (inr (inl (e, lt))) ↦ rw e (codec.n_uint24 id lt)
    | inr (inr (inr e)) ↦ rw e (o.write_uint32 id, refl, codec.n_uint32 id h)
  ]

  pub write_offset-Field :
      (offset : ℕ) → offset < 2 ^ 64 → Field (write_offset o) (offset_length offset) offset
  unfolding write_offset
  write_offset-Field offset h = elim (offset_length-cases offset) [
    | inl (e, z) ↦ rw (e, z) ([], refl, (refl, tt, codec.no_byte))
    | inr (inl (e, lt)) ↦
        rw e (o.write_uint16 offset, rw (mod_self offset (2 ^ 16) lt), codec.n_uint16 offset lt)
    | inr (inr (inl (e, lt))) ↦
        rw (e, write_offset, mod_self offset (2 ^ 32) (omega arith)) (codec.n_uint24 offset lt)
    | inr (inr (inr (inl (e, lt)))) ↦
        rw e (o.write_uint32 offset, rw (mod_self offset (2 ^ 32) lt), codec.n_uint32 offset lt)
    | inr (inr (inr (inr (inl (e, lt))))) ↦ rw e (codec.n_uint40 offset lt)
    | inr (inr (inr (inr (inr (inl (e, lt)))))) ↦ rw e (codec.n_uint48 offset lt)
    | inr (inr (inr (inr (inr (inr (inl (e, lt))))))) ↦ rw e (codec.n_uint56 offset lt)
    | inr (inr (inr (inr (inr (inr (inr e)))))) ↦
        rw e (o.write_uint64 offset, refl, codec.n_uint64 offset h)
  ]

-- The first byte gives back both flags and both lengths.
pub type_byte_lem :
    (fin present : Bool) (id offset : ℕ)
    → let b = type_byte_of fin present (offset_length offset) (stream_id_length id) in
      (ltb 0 (bit_and b 0x40) ≡ fin)
      × (ltb 0 (bit_and b 0x20) ≡ present)
      × (stream_id_len_of b ≡ stream_id_length id)
      × (offset_len_of b ≡ offset_length offset)
unfolding type_byte_of stream_id_length offset_length
type_byte_lem fin present id offset = ground arith
