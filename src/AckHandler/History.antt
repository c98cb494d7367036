-- ===== src/AckHandler/History.antt =====
-- src/sa-ecf/ackhandler/received_packet_history.go: the packet numbers received, as intervals. The
-- linked list is given from its back, the highest interval, to its front.
pub mod Laws
pub mod Canonical
pub mod Contract
use ivsh.Common.{
  ℕ, ◌+◌, ◌-◌, List, [], ◌∷◌, Bool, true, false, ◌&&◌, length, ltb, leb, ◌==◌, if◌then◌else◌,
}
use ivsh.Common.{add64, sub64}
use ivsh.Common.Result.{Result, ok, err}
use ivsh.Wire.AckFrame.{AckRange}

-- An interval of the list is what an ACK range is: Start is `first` and End is `last`.
pub record History : Type 0 where
  pub ranges : List AckRange
  pub lowest_in_received : ℕ

pub data HistoryError : Type 0 where
  too_many_outstanding_received_ack_ranges : HistoryError

abbrev pub max_tracked_received_ack_ranges : ℕ
max_tracked_received_ack_ranges = 2500

unfoldable pub new_history : History
new_history = record { ranges = []; lowest_in_received = 0 }

-- An interval that was extended is merged with the one before it in the list, if they meet.
abbrev pub merge : AckRange → List AckRange → List AckRange
merge el [] = el ∷ []
merge el (prev ∷ rest) =
    if add64 prev.last 1 == el.first
    then record prev { last = el.last } ∷ rest
    else el ∷ prev ∷ rest

-- The loop of ReceivedPacket, from the back of the list.
unfoldable pub insert_packet : ℕ → List AckRange → List AckRange
insert_packet p [] = record { first = p; last = p } ∷ []
insert_packet p (el ∷ rest) =
    let further = insert_packet p rest in
    if leb el.first p && leb p el.last
    then el ∷ rest
    else if el.last == sub64 p 1
    then merge (record el { last = p }) rest
    else if el.first == add64 p 1
    then merge (record el { first = p }) rest
    else if ltb el.last p
    then record { first = p; last = p } ∷ el ∷ rest
    else el ∷ further

unfoldable pub received_packet : ℕ → History → Result HistoryError History
received_packet p h =
    if leb max_tracked_received_ack_ranges (length h.ranges)
    then err too_many_outstanding_received_ack_ranges
    else ok (record h { ranges = insert_packet p h.ranges })

-- The loop of DeleteUpTo goes from the front and stops at the first interval that it leaves alone;
-- the Boolean says that it has not stopped yet.
abbrev cut : ℕ → AckRange → List AckRange → Bool → List AckRange × Bool
cut p el rest false = (el ∷ rest, false)
cut p el rest true =
    if leb el.first p && ltb p el.last
    then (record el { first = add64 p 1 } ∷ rest, true)
    else if leb el.last p
    then (rest, true)
    else (el ∷ rest, false)

unfoldable pub delete_loop : ℕ → List AckRange → List AckRange × Bool
delete_loop p [] = ([], true)
delete_loop p (el ∷ rest) = let (rest', going) = delete_loop p rest in cut p el rest' going

abbrev max_packet_number : ℕ → ℕ → ℕ
max_packet_number a b = if ltb b a then a else b

unfoldable pub delete_up_to : ℕ → History → History
unfolding delete_loop
delete_up_to p h = record {
  ranges = (delete_loop p h.ranges).0;
  lowest_in_received = max_packet_number h.lowest_in_received (add64 p 1);
}

-- From the highest range to the lowest.
unfoldable pub get_ack_ranges : History → List AckRange
get_ack_ranges h = h.ranges

abbrev highest : List AckRange → AckRange
highest [] = record { first = 0; last = 0 }
highest (r ∷ rs) = r

unfoldable pub get_highest_ack_range : History → AckRange
get_highest_ack_range h = highest h.ranges
