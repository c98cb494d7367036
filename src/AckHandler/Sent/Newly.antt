-- ===== src/AckHandler/Sent/Newly.antt =====
-- src/sa-ecf/ackhandler/sent_packet_handler.go: which packets of the history a frame acknowledges.
pub mod Filtered
pub mod Frames
use ivsh.Common.{ℕ, List, [], ◌∷◌, Bool, true, false, ltb, leb, if◌then◌else◌}
use ivsh.Common.Result.{Result, ok, err}
use mathlib.Core.List.{reverse}
use ivsh.Wire.AckFrame.{AckRange, AckFrame, ClosePathFrame, is_empty}
use ivsh.AckHandler.Packet.{Packet}

-- The error "BUG: ackhandler would have acked wrong packet".
pub data Bug : Type 0 where
  wrong_packet : Bug

-- The inner loop. The list is `AckRanges` from its end, from `ackRangeIndex` on.
abbrev pub next_range : ℕ → List AckRange → List AckRange
next_range n (r ∷ s ∷ rs) = if ltb r.last n then next_range n (s ∷ rs) else r ∷ s ∷ rs
next_range n rs = rs

abbrev pub cons : Packet → Result Bug (List Packet) → Result Bug (List Packet)
cons p (ok ps) = ok (p ∷ ps)
cons p (err e) = err e

-- The packet lies between the bounds; no ranges means that none is missing.
abbrev pub take_if_in_range :
    Packet → List AckRange → Result Bug (List Packet) → Result Bug (List Packet)
take_if_in_range p [] rest = cons p rest
take_if_in_range p (r ∷ rs) rest =
    if ltb p.packet_number r.first
    then rest
    else if ltb r.last p.packet_number
    then err wrong_packet
    else cons p rest

-- The loop over the history, with the ranges that are left.
unfoldable pub newly_acked : ℕ → ℕ → List AckRange → List Packet → Result Bug (List Packet)
newly_acked lowest largest rs [] = ok []
newly_acked lowest largest rs (p ∷ ps) =
    let next = next_range p.packet_number rs in
    let skipping = newly_acked lowest largest rs ps in
    let taking = take_if_in_range p next (newly_acked lowest largest next ps) in
    if ltb p.packet_number lowest
    then skipping
    else if ltb largest p.packet_number
    then ok []
    else taking

unfoldable pub determine_newly_acked_packets : AckFrame → List Packet → Result Bug (List Packet)
unfolding newly_acked
determine_newly_acked_packets f history =
    newly_acked f.lowest_acked f.largest_acked (reverse f.ack_ranges) history

unfoldable pub determine_newly_acked_packets_close_path :
    ClosePathFrame → List Packet → Result Bug (List Packet)
unfolding newly_acked
determine_newly_acked_packets_close_path f history =
    newly_acked f.lowest_acked f.largest_acked (reverse f.ack_ranges) history
