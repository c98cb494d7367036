-- ===== src/FrameSorter/InOrder.antt =====
-- src/sa-ecf/stream_frame_sorter.go: what is popped, in any sequence of operations.
use ivsh.Common.{
  ℕ, ◌+◌, ◌^◌, ◌<◌, ◌≡◌, refl, ◌∙◌, arith, List, [], ◌∷◌, ◌++◌, Option, none, some, length,
  length-append, add64,
}
use mathlib.Core.List.{append-nil}
use ivsh.Common.Assoc.{lookup}
use ivsh.Wire.StreamFrame.{StreamFrame, data_len}
use ivsh.FrameSorter.{StreamFrameSorter, new_stream_frame_sorter, pop, take_out, push}
use ivsh.FrameSorter.Bytes.{Matches, Matches-append}
use ivsh.FrameSorter.Queue.{Queued-erase, Queued-lookup}
use ivsh.FrameSorter.Pieces.{IsPiece, Pieces, push-Pieces, push-read_position}

pub data Operation : Type 0 where
  pushes : StreamFrame → Operation
  pops : Operation

abbrev pub bytes_of : Option StreamFrame → List ℕ
bytes_of none = []
bytes_of (some f) = f.bytes

-- The sorter after the operations, and all bytes that were popped.
abbrev pub run : List Operation → StreamFrameSorter → List ℕ → StreamFrameSorter × List ℕ
run [] s out = (s, out)
run (pushes f ∷ ops) s out = run ops (push f s).0 out
run (pops ∷ ops) s out = run ops (pop s).0 (out ++ bytes_of (pop s).1)

-- Every frame that is pushed is a piece of the stream.
abbrev pub AllPieces : (ℕ → ℕ) → List Operation → Type 0
AllPieces d [] = Unit {0}
AllPieces d (pushes f ∷ ops) = IsPiece d f × AllPieces d ops
AllPieces d (pops ∷ ops) = AllPieces d ops

-- What was popped are the bytes of the stream up to the read position.
pub record InOrder (d : ℕ → ℕ) (s : StreamFrameSorter) (out : List ℕ) : Type 0 where
  pub bytes : Matches d 0 out
  pub position : s.read_position ≡ length out
  pub bound : s.read_position < 2 ^ 62
  pub pieces : Pieces d s.queued_frames

take_out-InOrder :
    (d : ℕ → ℕ) (f : Option StreamFrame) (s : StreamFrameSorter) (out : List ℕ)
    → lookup s.read_position s.queued_frames ≡ f
    → InOrder d s out
    → InOrder d (take_out f s).0 (out ++ bytes_of (take_out f s).1)
unfolding data_len
take_out-InOrder d none s out here v = rw append-nil v
take_out-InOrder d (some f) s out here v =
    let (offset, (m, end)) =
      Queued-lookup (IsPiece d) s.read_position f s.queued_frames here v.pieces in
    let start : f.offset ≡ 0 + length out = omega (arith, v.position) in
    let next : add64 s.read_position (length f.bytes) ≡ s.read_position + length f.bytes =
      omega arith in
    record {
      bytes = Matches-append d 0 out f.bytes v.bytes (rw start at m);
      position = next ∙ omega (arith, length-append out f.bytes, v.position);
      bound = omega arith;
      pieces = Queued-erase (IsPiece d) f.offset s.queued_frames v.pieces;
    }

pop-InOrder :
    (d : ℕ → ℕ) (s : StreamFrameSorter) (out : List ℕ)
    → InOrder d s out
    → InOrder d (pop s).0 (out ++ bytes_of (pop s).1)
unfolding pop
pop-InOrder d s out v = take_out-InOrder d (lookup s.read_position s.queued_frames) s out refl v

run-InOrder_from :
    (d : ℕ → ℕ) (ops : List Operation) (s : StreamFrameSorter) (out : List ℕ)
    → AllPieces d ops
    → InOrder d s out
    → InOrder d (run ops s out).0 (run ops s out).1
run-InOrder_from d [] s out h v = v
run-InOrder_from d (pushes f ∷ ops) s out (p, h) v =
    let same = push-read_position f s in
    run-InOrder_from d ops (push f s).0 out h (record {
      bytes = v.bytes;
      position = same ∙ v.position;
      bound = rw same v.bound;
      pieces = push-Pieces d f s p v.pieces;
    })
run-InOrder_from d (pops ∷ ops) s out h v =
    run-InOrder_from d ops (pop s).0 (out ++ bytes_of (pop s).1) h (pop-InOrder d s out v)

-- If all frames that are pushed are pieces of one stream below 2 ^ 62 bytes, then after any sequence of
-- pushes and pops, failed ones included, the popped frames joined together are the bytes of that stream from its start
-- up to the read position, and whatever is queued is a piece of the stream.
pub run-InOrder :
    (d : ℕ → ℕ) (ops : List Operation)
    → AllPieces d ops
    → let (s, out) = run ops new_stream_frame_sorter [] in InOrder d s out
unfolding new_stream_frame_sorter
run-InOrder d ops h =
    run-InOrder_from d ops new_stream_frame_sorter [] h
      (record { bytes = tt; position = refl; bound = omega arith; pieces = tt })
