-- ===== src/Cache/Lru.antt =====
-- `CacheLRU` of tags/cbcbsim-1.0.2/src/CacheLRU.cc. A fault (`none`) is an access outside of a
-- bitmap or through the end of a list.
use ccnpl_sim.Prelude.{
  ℕ, zero, suc, ◌/◌, ◌==◌, ltb, if◌then◌else◌, [], ◌∷◌, ◌++◌, Option, none, some, get_elem?, set,
  add32,
}
use ccnpl_sim.Packets.{Data, Interest, new_interest, data_of_interest}
use ccnpl_sim.Cache.Nodes.{erase}
use ccnpl_sim.Cache.Store.{Store, ContentRecord, assign, discard, store_chunk}

-- The stamp of a node is the time of its last use.
abbrev pub CacheLru : Type 0 → Type 0
CacheLru M = Store M ℕ

module _ {M : Type 0} where
  -- A hit renews the node: a new one at the back, with the packet that answers the interest.
  unfoldable pub renew : CacheLru M → Interest M → ContentRecord → ℕ → ℕ → CacheLru M
  renew c interest r a now = record c {
    by_time =
        erase a c.by_time
        ++ (record {
          address = c.next;
          stamp = now;
          data_packet = data_of_interest c.id interest;
          name_it = interest.content_name;
        })
          ∷ [];
    by_name =
        assign c.by_name interest.content_name
          (some (record r { chunk_bitmap = set r.chunk_bitmap interest.chunk_id (some c.next) }));
    search_it = some interest.content_name;
    next = suc c.next;
  }

  -- `CacheLRU::search_by_name` at the time `now`.
  unfoldable pub search_by_name :
      CacheLru M → Interest M → ℕ → Option (CacheLru M × Option (Data M))
  unfolding renew
  search_by_name c interest now = elim (c.by_name interest.content_name) [
    | none ↦ some (record c { search_it = none }, none)
    | some r ↦ (elim (get_elem? r.chunk_bitmap interest.chunk_id) [
      | none ↦ none
      | some none ↦ some (record c { search_it = some interest.content_name }, none)
      | some (some a) ↦ some (renew c interest r a now, some (data_of_interest c.id interest))
    ])
  ]

  -- The eviction loop: the node at the front goes until the new chunk fits.
  unfoldable pub make_room : ℕ → CacheLru M → Data M → Option (CacheLru M)
  make_room zero c data' = none
  make_room (suc fuel) c data' =
      if ltb c.cache_limit (add32 c.cache_size (data'.size / 1000))
      then (elim c.by_time [
        | [] ↦ none
        | n ∷ _ ↦ (elim (discard c n data'.content_name) [
          | none ↦ none
          | some c' ↦ make_room fuel c' data'
        ])
      ])
      else some c

  -- The interest that `add_in_cache` searches with.
  unfoldable pub interest_of_data : Data M → Interest M
  unfolding new_interest
  interest_of_data d = new_interest 0 d.content_name d.chunk_id 0 d.msg d.size 0 0 0

  -- `CacheLRU::add_in_cache`, with its value.
  unfoldable pub add_in_cache : ℕ → CacheLru M → Data M → ℕ → Option (CacheLru M × ℕ)
  add_in_cache fuel c data' now =
      if c.cache_limit == 0
      then some (c, 0)
      else (elim (search_by_name c (interest_of_data data') now) [
        | none ↦ none
        | some (c', some _) ↦ some (c', 0)
        | some (c', none) ↦ (elim (make_room fuel c' data') [
          | none ↦ none
          | some c'' ↦ (elim (store_chunk c'' data' now) [
            | none ↦ none
            | some c''' ↦ some (c''', 1)
          ])
        ])
      ])
