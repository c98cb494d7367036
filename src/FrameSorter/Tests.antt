-- ===== src/FrameSorter/Tests.antt =====
-- src/sa-ecf/stream_frame_sorter.go: frames of a stream of ascending numbers that overlap.
use ivsh.Common.{none, ℕ, ◌≡◌, ◌<◌, ◌^◌, not, refl, arith, List, [], ◌∷◌, some, true, false}
use ivsh.Wire.StreamFrame.{StreamFrame, data_len}
use ivsh.FrameSorter.{StreamFrameSorter, duplicate_stream_data, new_stream_frame_sorter, pop, push}
use ivsh.FrameSorter.Gaps.{Sorted, in_gaps}
use ivsh.FrameSorter.Filled.{IsReceived}
use ivsh.FrameSorter.Queue.{Queued}
use ivsh.FrameSorter.Accepted.{Accepted, Accepted-in_gaps, accepts, has_byte, starts}
use ivsh.FrameSorter.InOrder.{InOrder, Operation, pops, pushes, run, run-InOrder}

abbrev stream : ℕ → ℕ
stream p = p

abbrev piece : ℕ → List ℕ → StreamFrame
piece offset bytes = record {
  stream_id = 5;
  fin_bit = false;
  data_len_present = true;
  offset = offset;
  bytes = bytes;
}

-- Bytes 2 and 3, then 1 to 4, then 0 to 3, then a duplicate of 3.
abbrev operations : List Operation
operations =
    pushes (piece 2 (2 ∷ 3 ∷ []))
    ∷ pushes (piece 1 (1 ∷ 2 ∷ 3 ∷ 4 ∷ []))
    ∷ pops
    ∷ pushes (piece 0 (0 ∷ 1 ∷ 2 ∷ 3 ∷ []))
    ∷ pushes (piece 3 (3 ∷ []))
    ∷ pops
    ∷ pops
    ∷ []

abbrev out : List ℕ
out = (run operations new_stream_frame_sorter []).1

popped : out ≡ 0 ∷ 1 ∷ 2 ∷ 3 ∷ 4 ∷ []
unfolding new_stream_frame_sorter push pop data_len
popped = refl

rejected :
    (push (piece 3 (3 ∷ [])) (run operations new_stream_frame_sorter []).0).1
    ≡ some duplicate_stream_data
unfolding new_stream_frame_sorter push pop data_len
rejected = refl

run-InOrder_example :
    let (s, bytes) = run operations new_stream_frame_sorter [] in InOrder stream s bytes
run-InOrder_example = run-InOrder stream operations (omega arith)

abbrev middle : StreamFrame
middle = piece 2 (2 ∷ 3 ∷ [])

abbrev around : StreamFrame
around = piece 1 (1 ∷ 2 ∷ 3 ∷ 4 ∷ [])

abbrev with_middle : StreamFrameSorter
with_middle = (push middle new_stream_frame_sorter).0

abbrev with_both : StreamFrameSorter
with_both = (push around with_middle).0

middle_fits : (push middle new_stream_frame_sorter).1 ≡ none
unfolding new_stream_frame_sorter push data_len
middle_fits = refl

around_fits : (push around with_middle).1 ≡ none
unfolding new_stream_frame_sorter push data_len
around_fits = refl

both-Accepted : Accepted (around ∷ middle ∷ []) with_both
both-Accepted =
    accepts around (middle ∷ []) with_middle (omega arith) around_fits
      (accepts middle [] new_stream_frame_sorter (omega arith) middle_fits starts)

Accepted-in_gaps_example :
    ((p : ℕ) → p < 2 ^ 62 → in_gaps p with_both.gaps ≡ not (has_byte p (around ∷ middle ∷ [])))
    × Sorted 0 with_both.gaps
    × Queued (IsReceived with_both.gaps) with_both.queued_frames
Accepted-in_gaps_example = Accepted-in_gaps (around ∷ middle ∷ []) with_both both-Accepted
