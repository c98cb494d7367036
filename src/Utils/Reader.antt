-- ===== src/Utils/Reader.antt =====
-- The `bytes.Reader` of Go's standard library as the list of the bytes that are left, and the
-- errors with which parsing ends.
use ivsh.Common.{ℕ, zero, suc, ◌<◌, List, [], ◌∷◌}
use ivsh.Common.Result.{Result, ok, err}

pub data ParseError : Type 0 where
  eof unexpected_eof : ParseError
  invalid_stream_data empty_stream_frame_no_fin : ParseError
  invalid_ack_ranges invalid_first_ack_range : ParseError
  invalid_goaway_data invalid_connection_close_data invalid_stop_waiting_data : ParseError

-- A parser returns its value with the bytes that it has not read.
abbrev pub Parse : Type 0 → Type 0
Parse A = Result ParseError (A × List ℕ)

abbrev pub IsByte : ℕ → Type 0
IsByte b = b < 256

abbrev pub read_byte : List ℕ → Parse ℕ
read_byte [] = err eof
read_byte (b ∷ r) = ok (b, r)

-- `io.ReadFull`: the error is `io.EOF` only where no byte could be read.
abbrev pub more_of : ℕ → Parse (List ℕ) → Parse (List ℕ)
more_of b (ok (bs, r)) = ok (b ∷ bs, r)
more_of b (err e) = err unexpected_eof

abbrev pub read_full : ℕ → List ℕ → Parse (List ℕ)
read_full zero r = ok ([], r)
read_full (suc n) [] = err eof
read_full (suc n) (b ∷ r) = more_of b (read_full n r)
