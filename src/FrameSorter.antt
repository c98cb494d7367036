-- ===== src/FrameSorter.antt =====
-- src/sa-ecf/stream_frame_sorter.go: the frames of a stream are queued by their offsets, without the
-- bytes that were received before, and popped in order. The linked list of gaps is a list; that the
-- bytes of a frame which was cut are copied shows nowhere.
pub mod Bytes
pub mod Queue
pub mod Pieces
pub mod InOrder
pub mod Gaps
pub mod Shrink
pub mod Filled
pub mod Received
pub mod Accepted
mod Tests
use ivsh.Common.{
  ℕ, ◌+◌, ◌-◌, ◌^◌, List, [], ◌∷◌, ◌++◌, ◌&&◌, Bool, true, false, Option, none, some, length, take,
  drop, ltb, leb, ◌==◌, if◌then◌else◌, add64, sub64,
}
use ivsh.Common.Assoc.{lookup, insert, erase}
use ivsh.Wire.StreamFrame.{StreamFrame, data_len}

pub data Error : Type 0 where
  too_many_gaps duplicate_stream_data empty_stream_data : Error
  no_gap_found no_end_gap_found : Error

pub record ByteInterval : Type 0 where
  pub start : ℕ
  pub end : ℕ

pub record StreamFrameSorter : Type 0 where
  pub queued_frames : List (ℕ × StreamFrame)
  pub read_position : ℕ
  pub gaps : List ByteInterval

abbrev pub max_byte_count : ℕ
max_byte_count = 2 ^ 64 - 1

abbrev pub max_stream_frame_sorter_gaps : ℕ
max_stream_frame_sorter_gaps = 2500

unfoldable pub new_stream_frame_sorter : StreamFrameSorter
new_stream_frame_sorter = record {
  queued_frames = [];
  read_position = 0;
  gaps = record { start = 0; end = max_byte_count } ∷ [];
}

-- The frame without its first `n` bytes.
unfoldable pub cut_front : ℕ → StreamFrame → StreamFrame
cut_front n frame = record frame { bytes = drop n frame.bytes; offset = add64 frame.offset n }

-- Where the frame starts to differ from a frame with its offset; `none` for a duplicate.
unfoldable pub cut_old : Option StreamFrame → StreamFrame → Option StreamFrame
unfolding cut_front
cut_old none frame = some frame
cut_old (some old) frame =
    if leb (data_len frame) (data_len old) then none else some (cut_front (data_len old) frame)

-- The first gap that the frame reaches, with those before it and behind it.
pub data Search : Type 0 where
  duplicate not_found : Search
  found : List ByteInterval → ByteInterval → List ByteInterval → Search

abbrev pub past_gap : ByteInterval → Search → Search
past_gap g duplicate = duplicate
past_gap g not_found = not_found
past_gap g (found before gap after) = found (g ∷ before) gap after

abbrev pub find_gap : (start end : ℕ) → List ByteInterval → Search
find_gap start end [] = not_found
find_gap start end (g ∷ gs) =
    let rest = past_gap g (find_gap start end gs) in
    if leb end g.start
    then duplicate
    else if ltb g.start end && leb start g.end
    then found [] g gs
    else rest

-- The last gap that the frame reaches: whether it is the first one, too, and whether the frame reaches
-- its end, which takes it off the list unless it is the first one; the gaps behind it, and the queue.
pub record EndGap : Type 0 where
  pub end_gap : ByteInterval
  pub is_first : Bool
  pub is_filled : Bool
  pub after : List ByteInterval
  pub queued_frames : List (ℕ × StreamFrame)

abbrev pub end_at : ByteInterval → Bool → Bool → List ByteInterval → List (ℕ × StreamFrame) → EndGap
end_at g is_first is_filled after queued = record {
  end_gap = g;
  is_first = is_first;
  is_filled = is_filled;
  after = after;
  queued_frames = queued;
}

-- The loop to the end gap.
abbrev pub find_end_gap :
    ℕ → Bool → ByteInterval → List ByteInterval → List (ℕ × StreamFrame) → EndGap × Option Error
find_end_gap end is_first g [] queued =
    (end_at g is_first false [] queued, if leb g.end end then some no_end_gap_found else none)
find_end_gap end is_first g (next ∷ gs) queued =
    let rest = find_end_gap end false next gs (erase g.end queued) in
    if leb g.end end
    then (if leb end next.start then (end_at g is_first true (next ∷ gs) queued, none) else rest)
    else (end_at g is_first false (next ∷ gs) queued, none)

abbrev pub interval : ℕ → ℕ → ByteInterval
interval start end = record { start = start; end = end }

-- What is left of the gap, and of the end gap if that is another one.
unfoldable pub shrink : (start end : ℕ) → ByteInterval → EndGap → List ByteInterval
shrink start end gap e =
    let removed = leb gap.end end in
    let end_gap = e.end_gap in
    if e.is_first
    then (if start == gap.start
        then (if removed then [] else interval end gap.end ∷ [])
        else if end == gap.end
        then interval gap.start start ∷ []
        else interval gap.start start ∷ interval end gap.end ∷ [])
    else (let first =
          if start == gap.start
          then (if removed then [] else gap ∷ [])
          else interval gap.start start ∷ [] in
        let last =
          if start == gap.start
          then (if ltb end end_gap.end then interval end end_gap.end else end_gap)
          else if end == end_gap.end
          then end_gap
          else interval end end_gap.end in
        first ++ (if e.is_filled then [] else last ∷ []))

-- The frame without the bytes behind the end of the last gap that it reaches.
unfoldable pub cut_back : ℕ → ℕ → StreamFrame → StreamFrame
cut_back gap_end end frame =
    if ltb gap_end end
    then record frame { bytes = take (data_len frame - sub64 end gap_end) frame.bytes }
    else frame

-- The new gaps, if they are not too many, and the frame.
unfoldable pub enqueue :
    StreamFrame
    → List ByteInterval
    → List (ℕ × StreamFrame)
    → StreamFrameSorter
    → StreamFrameSorter × Option Error
enqueue frame gaps queued s =
    if ltb max_stream_frame_sorter_gaps (length gaps)
    then (record s { gaps = gaps; queued_frames = queued }, some too_many_gaps)
    else (record s { gaps = gaps; queued_frames = insert frame.offset frame queued }, none)

-- Behind the loop that finds the end gap, for a frame that starts in the gap and ends before `end`:
-- the frame is cut at the end of the end gap, and the gaps shrink.
unfoldable pub store :
    StreamFrame
    → ℕ
    → List ByteInterval
    → ByteInterval
    → EndGap
    → StreamFrameSorter
    → StreamFrameSorter × Option Error
unfolding shrink cut_back enqueue
store frame end before gap e s =
    let end' = if ltb e.end_gap.end end then sub64 end (sub64 end e.end_gap.end) else end in
    enqueue (cut_back e.end_gap.end end frame)
      (before ++ (shrink frame.offset end' gap e ++ e.after)) e.queued_frames s

-- The gaps where no end gap was found: those between are off the list.
abbrev pub unfinished : List ByteInterval → ByteInterval → EndGap → List ByteInterval
unfinished before gap e = before ++ (gap ∷ (if e.is_first then [] else e.end_gap ∷ []))

abbrev pub store_found :
    StreamFrame
    → ℕ
    → List ByteInterval
    → ByteInterval
    → EndGap × Option Error
    → StreamFrameSorter
    → StreamFrameSorter × Option Error
store_found frame end before gap (e, some failure) s =
    (record s { gaps = unfinished before gap e; queued_frames = e.queued_frames }, some failure)
store_found frame end before gap (e, none) s = store frame end before gap e s

abbrev pub cut_to : ℕ → StreamFrame → StreamFrame
cut_to start frame =
    if ltb frame.offset start then cut_front (start - frame.offset) frame else frame

-- With the gap that was found.
unfoldable pub fill :
    StreamFrame
    → List ByteInterval
    → ByteInterval
    → List ByteInterval
    → StreamFrameSorter
    → StreamFrameSorter × Option Error
unfolding store cut_front
fill frame before gap after s =
    let end = add64 frame.offset (data_len frame) in
    store_found (cut_to gap.start frame) end before gap
      (find_end_gap end true gap after s.queued_frames) s

abbrev pub push_found : StreamFrame → Search → StreamFrameSorter → StreamFrameSorter × Option Error
push_found frame duplicate s = (s, some duplicate_stream_data)
push_found frame not_found s = (s, some no_gap_found)
push_found frame (found before gap after) s = fill frame before gap after s

abbrev pub push_new : Option StreamFrame → StreamFrameSorter → StreamFrameSorter × Option Error
push_new none s = (s, some duplicate_stream_data)
push_new (some frame) s =
    push_found frame (find_gap frame.offset (add64 frame.offset (data_len frame)) s.gaps) s

abbrev pub push_empty : Bool → StreamFrame → StreamFrameSorter → StreamFrameSorter × Option Error
push_empty fin_bit frame s =
    if fin_bit
    then (record s { queued_frames = insert frame.offset frame s.queued_frames }, none)
    else (s, some empty_stream_data)

unfoldable pub push : StreamFrame → StreamFrameSorter → StreamFrameSorter × Option Error
unfolding fill cut_old
push frame s =
    if data_len frame == 0
    then push_empty frame.fin_bit frame s
    else push_new (cut_old (lookup frame.offset s.queued_frames) frame) s

unfoldable pub head : StreamFrameSorter → Option StreamFrame
head s = lookup s.read_position s.queued_frames

abbrev pub take_out :
    Option StreamFrame → StreamFrameSorter → StreamFrameSorter × Option StreamFrame
take_out none s = (s, none)
take_out (some frame) s = (
  record s {
    read_position = add64 s.read_position (data_len frame);
    queued_frames = erase frame.offset s.queued_frames;
  },
  some frame,
)

unfoldable pub pop : StreamFrameSorter → StreamFrameSorter × Option StreamFrame
unfolding head
pop s = take_out (head s) s
