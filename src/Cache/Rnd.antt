-- ===== src/Cache/Rnd.antt =====
-- `CacheRND` of tags/cbcbsim-1.0.2/src/CacheRND.cc. A fault (`none`) is an access outside of a
-- bitmap, or a choice from an empty list. The values of `rand()` are a list.
use ccnpl_sim.Prelude.{
  ℕ, ◌/◌, ◌%◌, ◌==◌, ltb, if◌then◌else◌, List, [], ◌∷◌, Option, none, some, get_elem?, length,
  add32,
}
use ccnpl_sim.Packets.{Data, Interest, new_interest, data_of_interest}
use ccnpl_sim.Cache.Store.{Store, discard, store_chunk}

-- A node has no stamp.
abbrev pub CacheRnd : Type 0 → Type 0
CacheRnd M = Store M (Unit {0})

module _ {M : Type 0} where
  -- `CacheRND::search_by_name`: a hit moves nothing.
  unfoldable pub search_by_name : CacheRnd M → Interest M → Option (CacheRnd M × Option (Data M))
  search_by_name c interest = elim (c.by_name interest.content_name) [
    | none ↦ some (record c { search_it = none }, none)
    | some r ↦ (elim (get_elem? r.chunk_bitmap interest.chunk_id) [
      | none ↦ none
      | some none ↦ some (record c { search_it = some interest.content_name }, none)
      | some (some _) ↦ some (
        record c { search_it = some interest.content_name },
        some (data_of_interest c.id interest),
      )
    ])
  ]

  -- The eviction loop: one random number for each round.
  unfoldable pub make_room : List ℕ → CacheRnd M → Data M → Option (CacheRnd M)
  make_room [] c data' =
      if ltb c.cache_limit (add32 c.cache_size (data'.size / 1000)) then none else some c
  make_room (r ∷ rs) c data' =
      if ltb c.cache_limit (add32 c.cache_size (data'.size / 1000))
      then (elim (get_elem? c.by_time (r % length c.by_time)) [
        | none ↦ none
        | some n ↦ (elim (discard c n data'.content_name) [
          | none ↦ none
          | some c' ↦ make_room rs c' data'
        ])
      ])
      else some c

  -- The interest that `add_in_cache` searches with.
  unfoldable pub interest_of_data : Data M → Interest M
  unfolding new_interest
  interest_of_data d = new_interest 0 d.content_name d.chunk_id 0 d.msg d.size 0 0 0

  -- `CacheRND::add_in_cache`, with its value.
  unfoldable pub add_in_cache : List ℕ → CacheRnd M → Data M → Option (CacheRnd M × ℕ)
  add_in_cache rs c data' =
      if c.cache_limit == 0
      then some (c, 0)
      else (elim (search_by_name c (interest_of_data data')) [
        | none ↦ none
        | some (c', some _) ↦ some (c', 0)
        | some (c', none) ↦ (elim (make_room rs c' data') [
          | none ↦ none
          | some c'' ↦ (elim (store_chunk c'' data' tt) [
            | none ↦ none
            | some c''' ↦ some (c''', 1)
          ])
        ])
      ])
