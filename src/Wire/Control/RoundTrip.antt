-- ===== src/Wire/Control/RoundTrip.antt =====
-- src/sa-ecf/internal/wire: each control frame is parsed as it was written, whatever follows it.
use ivsh.Common.{
  ℕ, ◌-◌, ◌*◌, ◌%◌, ◌^◌, ◌≤◌, ◌<◌, ◌≡◌, ◌⊎◌, inl, inr, refl, ap, ◌∙◌, arith, List, [], ◌∷◌, ◌++◌,
  false, length, ltb,
}
use mathlib.Core.List.{append_assoc}
use native.Mathlib.Nat.{mod-eq_of_lt}
use ivsh.Common.Result.{ok}
use ivsh.Utils.Reader.{Parse}
use ivsh.Utils.ByteOrder.{ByteOrder, IsCodec, Write}
use ivsh.Wire.StreamFrame.{max_packet_size}
use ivsh.Wire.StreamFrame.Fields.{read_full-append}
use ivsh.Wire.Control.{
  RstStreamFrame, WindowUpdateFrame, BlockedFrame, PingFrame, GoawayFrame, ConnectionCloseFrame,
  StopWaitingFrame,
}
use ivsh.Wire.Control

-- `f` is written, and any reader of the buffer parses it and goes on behind it.
abbrev pub RoundTrip : {A : Type 0} → Write → (List ℕ → Parse A) → A → Type 0
RoundTrip written parse f =
    (bs : List ℕ) × (written ≡ ok bs) × ((rest : List ℕ) → parse (bs ++ rest) ≡ ok (f, rest))

module _ {o : ByteOrder} (codec : IsCodec o) where
  u32 :
      (i : ℕ) (rest : List ℕ) → i < 2 ^ 32 → o.read_uint32 (o.write_uint32 i ++ rest) ≡ ok (i, rest)
  u32 i rest h = (codec.uint32 i h).2 rest

  u64 :
      (i : ℕ) (rest : List ℕ) → i < 2 ^ 64 → o.read_uint64 (o.write_uint64 i ++ rest) ≡ ok (i, rest)
  u64 i rest h = (codec.uint64 i h).2 rest

  -- A length that fits is written and read as it is.
  len16 :
      (bytes rest : List ℕ)
      → length bytes ≤ max_packet_size
      → o.read_uint16 (o.write_uint16 (length bytes % 2 ^ 16) ++ rest) ≡ ok (length bytes, rest)
  len16 bytes rest h =
      let whole : length bytes % 2 ^ 16 ≡ length bytes = omega arith in
      rw whole ((codec.uint16 (length bytes) (omega arith)).2 rest)

  fits :
      (bytes : List ℕ) → length bytes ≤ max_packet_size → ltb max_packet_size (length bytes) ≡ false
  fits bytes h = ground arith

  -- A RST_STREAM frame whose fields fit their types is parsed as it was written.
  pub rst_stream :
      (f : RstStreamFrame)
      → f.stream_id < 2 ^ 32
      → f.byte_offset < 2 ^ 64
      → f.error_code < 2 ^ 32
      → RoundTrip (Control.write_rst_stream o f) (Control.parse_rst_stream o) f
  unfolding Control.write_rst_stream Control.parse_rst_stream
  rst_stream f hs ho he =
      (_, refl, λ rest. simp append_assoc (rw (u32 _ _ hs, u64 _ _ ho, u32 _ _ he)))

  -- A WINDOW_UPDATE frame whose fields fit their types is parsed as it was written.
  pub window_update :
      (f : WindowUpdateFrame)
      → f.stream_id < 2 ^ 32
      → f.byte_offset < 2 ^ 64
      → RoundTrip (Control.write_window_update o f) (Control.parse_window_update o) f
  unfolding Control.write_window_update Control.parse_window_update
  window_update f hs ho = (_, refl, λ rest. simp append_assoc (rw (u32 _ _ hs, u64 _ _ ho)))

  -- A BLOCKED frame whose stream fits 32 bits is parsed as it was written.
  pub blocked :
      (f : BlockedFrame)
      → f.stream_id < 2 ^ 32
      → RoundTrip (Control.write_blocked o f) (Control.parse_blocked o) f
  unfolding Control.write_blocked Control.parse_blocked
  blocked f hs = (_, refl, λ rest. rw (u32 _ _ hs))

  -- A GOAWAY frame whose numbers fit 32 bits and whose reason phrase has at most `max_packet_size`
  -- bytes is parsed as it was written.
  pub goaway :
      (f : GoawayFrame)
      → f.error_code < 2 ^ 32
      → f.last_good_stream < 2 ^ 32
      → length f.reason_phrase ≤ max_packet_size
      → RoundTrip (Control.write_goaway o f) (Control.parse_goaway o) f
  unfolding Control.write_goaway Control.parse_goaway
  goaway f he hs hr = (
    _,
    refl,
    λ rest. simp append_assoc (
        rw (
          u32 _ _ he,
          u32 _ _ hs,
          len16 f.reason_phrase _ hr,
          fits f.reason_phrase hr,
          read_full-append,
        )),
  )

  -- A CONNECTION_CLOSE frame whose error code fits 32 bits and whose reason phrase has at most
  -- `max_packet_size` bytes is parsed as it was written.
  pub connection_close :
      (f : ConnectionCloseFrame)
      → f.error_code < 2 ^ 32
      → length f.reason_phrase ≤ max_packet_size
      → RoundTrip (Control.write_connection_close o f) (Control.parse_connection_close o) f
  unfolding Control.write_connection_close Control.parse_connection_close
  connection_close f he hr = (
    0x02
        ∷ (o.write_uint32 f.error_code
            ++ (o.write_uint16 (length f.reason_phrase % 2 ^ 16) ++ f.reason_phrase)),
    ground arith,
    λ rest.
        simp append_assoc
          (rw (u32 _ _ he, len16 f.reason_phrase _ hr, fits f.reason_phrase hr, read_full-append)),
  )

  -- The delta to the packet number is read back by its length.
  write_delta-RoundTrip :
      (len delta : ℕ)
      → (len ≡ 1) ⊎ ((len ≡ 2) ⊎ ((len ≡ 4) ⊎ (len ≡ 6)))
      → delta < 2 ^ (len * 8)
      → RoundTrip (Control.write_delta o len delta) (o.read_uint_n len) delta
  unfolding Control.write_delta
  write_delta-RoundTrip len delta (inl e) h =
      let one : delta < 2 ^ 8 = rw e at h in
      rw e (delta ∷ [], ap ok (ap (λ (t : ℕ). t ∷ []) (mod-eq_of_lt one)), codec.one_byte delta one)
  write_delta-RoundTrip len delta (inr (inl e)) h =
      let two : delta < 2 ^ 16 = rw e at h in
      rw e (
        o.write_uint16 delta,
        ap ok (ap o.write_uint16 (mod-eq_of_lt two)),
        (codec.n_uint16 delta two).2,
      )
  write_delta-RoundTrip len delta (inr (inr (inl e))) h =
      let four : delta < 2 ^ 32 = rw e at h in
      rw e (
        o.write_uint32 delta,
        ap ok (ap o.write_uint32 (mod-eq_of_lt four)),
        (codec.n_uint32 delta four).2,
      )
  write_delta-RoundTrip len delta (inr (inr (inr e))) h =
      let six : delta < 2 ^ 48 = rw e at h in
      let (bs, wrote, reads) = codec.n_uint48 delta six in
      rw e (bs, ap o.write_uint48 (mod-eq_of_lt six) ∙ wrote, reads.2)

  -- A STOP_WAITING frame for a number above 0 and up to its packet number, written with a length of
  -- 1, 2, 4 or 6 bytes that their difference fits, is parsed, for the same packet number and length, as a frame with the same `least_unacked`.
  pub stop_waiting :
      (f : StopWaitingFrame)
      → 0 < f.least_unacked
      → f.least_unacked ≤ f.packet_number
      → (f.packet_number_len ≡ 1)
        ⊎ ((f.packet_number_len ≡ 2) ⊎ ((f.packet_number_len ≡ 4) ⊎ (f.packet_number_len ≡ 6)))
      → f.packet_number - f.least_unacked < 2 ^ (f.packet_number_len * 8)
      → RoundTrip
          (Control.write_stop_waiting o f)
          (Control.parse_stop_waiting o f.packet_number f.packet_number_len)
          (record { least_unacked = f.least_unacked; packet_number_len = 0; packet_number = 0 })
  unfolding Control.write_stop_waiting Control.parse_stop_waiting
  stop_waiting f pos le len fit =
      let (bs, wrote, reads) =
        write_delta-RoundTrip f.packet_number_len (f.packet_number - f.least_unacked) len fit in
      (0x06 ∷ bs, ground (arith, wrote), λ rest. ground (arith, reads rest))
