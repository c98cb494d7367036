-- ===== src/Streams/Invariant.antt =====
-- src/sa-ecf/streams_map.go: what holds of the streams between two operations.
use ivsh.Common.{
  ℕ, ◌+◌, ◌%◌, ◌^◌, ◌<◌, ◌≡◌, ◌⊎◌, refl, ap, arith, List, [], ◌∷◌, ◌++◌, true, false, Option,
  if◌then◌else◌, inl, inr, All, All-map, sum_of, sum_of-append,
}
use ivsh.Streams.Map.{StreamsMap, Perspective, server, client, is_server, is_own, new_streams_map}
use ivsh.Streams.Lists.{keys, Absent, Distinct, All-append, append-Distinct}

-- 1 for an even ID, and 1 for an odd one.
abbrev pub even : ℕ → ℕ
even id = (id + 1) % 2

abbrev pub odd : ℕ → ℕ
odd id = id % 2

-- What the next ID of a side has to be above: an ID that is open was opened before.
abbrev pub first_unopened : Perspective → ℕ → ℕ → ℕ → ℕ
first_unopened pers next highest id = if is_own pers id then next else highest + 1

-- The slice of the open streams are the keys of the map, no two the same; the counters count the even
-- and the odd ones; and IDs that are not opened yet are above those that are.
pub record Consistent (pers : Perspective) (next highest evens odds : ℕ) (l ids : List ℕ)
    : Type 0 where
  pub listed : l ≡ ids
  pub distinct : Distinct l
  pub even_counted : evens ≡ sum_of even l % 2 ^ 32
  pub odd_counted : odds ≡ sum_of odd l % 2 ^ 32
  pub opened : All (λ id. id < first_unopened pers next highest id) l
  pub own : is_own pers next ≡ true
  pub peer : (highest ≡ 0) ⊎ (is_own pers highest ≡ false)

module _ {S : Type 0} where
  abbrev pub Inv : StreamsMap S → Type 0
  Inv m =
      Consistent m.perspective m.next_stream m.highest_stream_opened_by_peer m.num_outgoing_streams
        m.num_incoming_streams m.open_streams (keys m.streams)

  pub new_streams_map-Inv :
      (make : ℕ → S) (pers : Perspective) (scheduler : Option (List ℕ))
      → Inv (new_streams_map make pers scheduler)
  unfolding new_streams_map
  new_streams_map-Inv make server scheduler = record {
    listed = refl;
    distinct = tt;
    even_counted = refl;
    odd_counted = refl;
    opened = tt;
    own = refl;
    peer = inl refl;
  }
  new_streams_map-Inv make client scheduler = record {
    listed = refl;
    distinct = tt;
    even_counted = refl;
    odd_counted = refl;
    opened = tt;
    own = refl;
    peer = inl refl;
  }

pub own_fresh :
    (pers : Perspective) (next highest : ℕ) (l : List ℕ)
    → is_own pers next ≡ true
    → All (λ id. id < first_unopened pers next highest id) l
    → Absent next l
own_fresh pers next highest [] own h = tt
own_fresh pers next highest (id ∷ l) own (lt, h) =
    (λ same. differs id same lt, own_fresh pers next highest l own h)
  where
    differs : (id : ℕ) → id ≡ next → id < first_unopened pers next highest id → ⊥
    differs id same lt =
        let own' : is_own pers id ≡ true = rw same own in let lt' = rw own' at lt in omega arith

pub peer_fresh :
    (pers : Perspective) (next highest id : ℕ) (l : List ℕ)
    → is_own pers id ≡ false
    → highest < id
    → All (λ id. id < first_unopened pers next highest id) l
    → Absent id l
peer_fresh pers next highest id [] other lt h = tt
peer_fresh pers next highest id (k ∷ l) other lt (below, h) =
    (λ same. differs k same below, peer_fresh pers next highest id l other lt h)
  where
    differs : (k : ℕ) → k ≡ id → k < first_unopened pers next highest k → ⊥
    differs k same below =
        let other' : is_own pers k ≡ false = rw same other in
        let lt' = rw other' at below in omega arith

-- The next stream of this side.
pub own-Consistent :
    (pers : Perspective) (next highest evens odds : ℕ) (l ids : List ℕ)
    → next + 2 < 2 ^ 32
    → Consistent pers next highest evens odds l ids
    → Consistent pers
        ((next + 2) % 2 ^ 32)
        highest
        (if is_server pers then (evens + 1) % 2 ^ 32 else evens)
        (if is_server pers then odds else (odds + 1) % 2 ^ 32)
        (l ++ (next ∷ []))
        (ids ++ (next ∷ []))
own-Consistent server next highest evens odds l ids small v =
    let e = sum_of-append even l (next ∷ []) in
    let o = sum_of-append odd l (next ∷ []) in
    let own = v.own in
    let ec = v.even_counted in
    let oc = v.odd_counted in
    record {
      listed = ap (λ (l : List ℕ). l ++ (next ∷ [])) v.listed;
      distinct = append-Distinct l next (own_fresh server next highest l own v.opened) v.distinct;
      even_counted = ground (arith, e);
      odd_counted = ground (arith, o);
      opened =
          All-append _ l next (All-map (λ id lt. ground (arith, lt)) l v.opened) (ground arith);
      own = ground arith;
      peer = v.peer;
    }
own-Consistent client next highest evens odds l ids small v =
    let e = sum_of-append even l (next ∷ []) in
    let o = sum_of-append odd l (next ∷ []) in
    let own = v.own in
    let ec = v.even_counted in
    let oc = v.odd_counted in
    record {
      listed = ap (λ (l : List ℕ). l ++ (next ∷ [])) v.listed;
      distinct = append-Distinct l next (own_fresh client next highest l own v.opened) v.distinct;
      even_counted = ground (arith, e);
      odd_counted = ground (arith, o);
      opened =
          All-append _ l next (All-map (λ id lt. ground (arith, lt)) l v.opened) (ground arith);
      own = ground arith;
      peer = v.peer;
    }

-- A stream of the peer, above those that it opened before.
pub peer-Consistent :
    (pers : Perspective) (next highest evens odds id : ℕ) (l ids : List ℕ)
    → is_own pers id ≡ false
    → highest < id
    → Consistent pers next highest evens odds l ids
    → Consistent pers next id
        (if is_server pers then evens else (evens + 1) % 2 ^ 32)
        (if is_server pers then (odds + 1) % 2 ^ 32 else odds)
        (l ++ (id ∷ []))
        (ids ++ (id ∷ []))
peer-Consistent server next highest evens odds id l ids other lt v =
    let e = sum_of-append even l (id ∷ []) in
    let o = sum_of-append odd l (id ∷ []) in
    let ec = v.even_counted in
    let oc = v.odd_counted in
    record {
      listed = ap (λ (l : List ℕ). l ++ (id ∷ [])) v.listed;
      distinct =
          append-Distinct l id (peer_fresh server next highest id l other lt v.opened) v.distinct;
      even_counted = ground (arith, e);
      odd_counted = ground (arith, o);
      opened =
          All-append _ l id (All-map (λ k below. ground (arith, below)) l v.opened) (ground arith);
      own = v.own;
      peer = inr other;
    }
peer-Consistent client next highest evens odds id l ids other lt v =
    let e = sum_of-append even l (id ∷ []) in
    let o = sum_of-append odd l (id ∷ []) in
    let ec = v.even_counted in
    let oc = v.odd_counted in
    record {
      listed = ap (λ (l : List ℕ). l ++ (id ∷ [])) v.listed;
      distinct =
          append-Distinct l id (peer_fresh client next highest id l other lt v.opened) v.distinct;
      even_counted = ground (arith, e);
      odd_counted = ground (arith, o);
      opened =
          All-append _ l id (All-map (λ k below. ground (arith, below)) l v.opened) (ground arith);
      own = v.own;
      peer = inr other;
    }
