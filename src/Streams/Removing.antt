-- ===== src/Streams/Removing.antt =====
-- src/sa-ecf/streams_map.go: removing a stream keeps the invariant.
use ivsh.Common.{
  ℕ, ◌+◌, ◌-◌, ◌%◌, ◌^◌, ◌≡◌, refl, sym, ◌∙◌, arith, List, some, ◌==◌, if◌then◌else◌, inl, inr,
  Bool-cases, Option-cases, sum_of,
}
use ivsh.Common.Assoc.{lookup, erase}
use ivsh.Streams.Map.{StreamsMap, Perspective}
use ivsh.Streams.Walk.{index_of, delete_at, remove_stream}
use ivsh.Streams.Lists.{keys, delete_at-All, delete_at-Distinct, keys-erase, sum_of-delete_at}
use ivsh.Streams.Invariant.{Consistent, Inv, even, odd}

module _ {S : Type 0} where
  remove-Consistent :
      (pers : Perspective) (next highest evens odds id : ℕ) (s : S) (l : List ℕ)
      (streams : List (ℕ × S))
      → lookup id streams ≡ some s
      → Consistent pers next highest evens odds l (keys streams)
      → Consistent pers next highest
          (if id % 2 == 0 then (evens + (2 ^ 32 - 1)) % 2 ^ 32 else evens)
          (if id % 2 == 0 then odds else (odds + (2 ^ 32 - 1)) % 2 ^ 32)
          (delete_at (index_of id l) l)
          (keys (erase id streams))
  remove-Consistent pers next highest evens odds id s l streams found v =
      let distinct = rw v.listed at v.distinct in
      let gone : delete_at (index_of id l) l
          ≡ delete_at (index_of id (keys streams)) (keys streams) =
        rw v.listed refl in
      let e : sum_of even (delete_at (index_of id l) l) + even id ≡ sum_of even l =
        rw v.listed (sum_of-delete_at even id s streams found) in
      let o : sum_of odd (delete_at (index_of id l) l) + odd id ≡ sum_of odd l =
        rw v.listed (sum_of-delete_at odd id s streams found) in
      let ec = v.even_counted in
      let oc = v.odd_counted in
      record {
        listed = gone ∙ sym (keys-erase id streams distinct);
        distinct = delete_at-Distinct (index_of id l) l v.distinct;
        even_counted = ground (arith, e, ec);
        odd_counted = ground (arith, o, oc);
        opened = delete_at-All _ (index_of id l) l v.opened;
        own = v.own;
        peer = v.peer;
      }

  pub remove_stream-Inv : (id : ℕ) (m : StreamsMap S) → Inv m → Inv (remove_stream id m).0
  unfolding remove_stream
  remove_stream-Inv id m v = elim (Option-cases (lookup id m.streams)) [
    | inl missing ↦ rw (remove_stream, missing) v
    | inr (s, found) ↦
        let w = remove-Consistent _ _ _ _ _ id s m.open_streams m.streams found v in
        elim (Bool-cases (id % 2 == 0)) [
          | inl evens ↦ rw (remove_stream, found, evens) (rw evens at w)
          | inr odds ↦ rw (remove_stream, found, odds) (rw odds at w)
        ]
  ]
