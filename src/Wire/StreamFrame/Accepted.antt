-- ===== src/Wire/StreamFrame/Accepted.antt =====
-- src/sa-ecf/internal/wire/stream_frame.go: what the parser accepts, on any input.
use Prim.Native.Nat.{bit_and}
use ivsh.Common.{
  ℕ, zero, suc, ◌+◌, ◌%◌, ◌^◌, ◌≤◌, ◌<◌, ◌≡◌, ◌⊎◌, inl, inr, refl, ap, arith, List, [], ◌∷◌, Bool,
  true, length, ltb, if◌then◌else◌,
}
use ivsh.Common.Result.{Result, ok, err}
use ivsh.Utils.Reader.{Parse, read_full, ParseError, more_of}
use ivsh.Utils.ByteOrder.{ByteOrder}
use ivsh.Wire.StreamFrame.{
  StreamFrame, data_len, max_packet_size, stream_id_len_of, offset_len_of, parse_data,
  parse_stream_frame,
}

Result-cases :
    {A : Type 0} (m : Result ParseError (A × List ℕ))
    → ((p : A × List ℕ) × (m ≡ ok p)) ⊎ ((e : ParseError) × (m ≡ err e))
Result-cases (ok p) = inl (p, refl)
Result-cases (err e) = inr (e, refl)

more_of-ok :
    (b : ℕ) (p : Result ParseError (List ℕ × List ℕ)) (bs rest : List ℕ)
    → more_of b p ≡ ok (bs, rest)
    → (tail : List ℕ) × (p ≡ ok (tail, rest)) × (bs ≡ b ∷ tail)
more_of-ok b (ok (tail, r)) bs rest h = (tail, ground arith, ground arith)
more_of-ok b (err e) bs rest h = cc

length-read_full : (n : ℕ) (r bs rest : List ℕ) → read_full n r ≡ ok (bs, rest) → length bs ≡ n
length-read_full zero r bs rest h = ground arith
length-read_full (suc n) [] bs rest h = cc
length-read_full (suc n) (b ∷ r) bs rest h =
    let (tail, e, shape) = more_of-ok b (read_full n r) bs rest h in
    omega (arith, ap length shape, length-read_full n r tail rest e)

-- The facts that hold of every accepted frame.
pub record IsAccepted (f : StreamFrame) : Type 0 where
  pub end : f.offset < 2 ^ 64 → f.offset + data_len f < 2 ^ 64
  pub size : data_len f < 2 ^ 16
  pub packet : f.data_len_present ≡ true → data_len f ≤ max_packet_size
  pub content : (f.fin_bit ≡ true) ⊎ (0 < data_len f)

parse_data-IsAccepted :
    (sid offset len : ℕ) (fin present : Bool) (r rest : List ℕ) (f : StreamFrame)
    → parse_data sid fin present offset len r ≡ ok (f, rest)
    → IsAccepted f
unfolding parse_data data_len
parse_data-IsAccepted sid offset len fin present r rest f h =
    elim (Result-cases (read_full (if present then len else length r % 2 ^ 16) r)) [
      | inl ((bs, r'), e) ↦
          ground (arith, length-read_full (if present then len else length r % 2 ^ 16) r bs r' e)
      | inr (x, e) ↦ ground arith
    ]

abbrev read_len : ByteOrder → Bool → List ℕ → Parse ℕ
read_len o present r = if present then o.read_uint16 r else ok (0, r)

-- Whatever the input and the byte order: an accepted frame has fewer than 2 ^ 16 data bytes, at most
-- `max_packet_size` if their number was on the wire, it has the FIN bit or data, and they end
-- before offset 2 ^ 64, if the offset that the byte order reads is a uint64.
pub parse_stream_frame-IsAccepted :
    (o : ByteOrder) (r rest : List ℕ) (f : StreamFrame)
    → parse_stream_frame o r ≡ ok (f, rest)
    → IsAccepted f
unfolding parse_stream_frame
parse_stream_frame-IsAccepted o [] rest f h = cc
parse_stream_frame-IsAccepted o (b ∷ r) rest f h =
    elim (Result-cases (o.read_uint_n (stream_id_len_of b) r)) [
      | inl ((sid, r1), e1) ↦ elim (Result-cases (o.read_uint_n (offset_len_of b) r1)) [
        | inl ((offset, r2), e2) ↦ elim (Result-cases (read_len o (ltb 0 (bit_and b 0x20)) r2)) [
          | inl ((len, r3), e3) ↦
              parse_data-IsAccepted sid offset len (ltb 0 (bit_and b 0x40)) (ltb 0 (bit_and b 0x20))
                r3 rest f (rw (e1, e2, e3) at h)
          | inr (x, e3) ↦ cc (rw (e1, e2, e3) at h)
        ]
        | inr (x, e2) ↦ cc (rw (e1, e2) at h)
      ]
      | inr (x, e1) ↦ cc (rw e1 at h)
    ]
