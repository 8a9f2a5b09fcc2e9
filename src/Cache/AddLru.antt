-- ===== src/Cache/AddLru.antt =====
-- `CacheLRU::add_in_cache` (CacheLRU.cc) against the abstract cache.
use ccnpl_sim.Prelude.{
  ℕ, zero, suc, ◌+◌, ◌/◌, ◌≤◌, ◌<◌, ◌≡◌, refl, ◌∙◌, inl, inr, false, some, Bool-cases, [], ◌∷◌, ltb,
  List, sym, length, if◌then◌else◌, u32_mod, add32, arith,
}
use ccnpl_sim.Packets.{Data}
use ccnpl_sim.Cache.Nodes.{Node, lookup, erase, total}
use ccnpl_sim.Cache.Nodes
use ccnpl_sim.Cache.Invariant.{IsLinked}
use ccnpl_sim.Cache.Recency.{
  items, has, evict, insert_item, item_of_data, total_room-items, evict_fits,
}
use ccnpl_sim.Cache.Discard.{Ready, discard_lem}
use ccnpl_sim.Cache.Insert.{IsNumbered, store_chunk_lem}
use ccnpl_sim.Cache.Search.{IsKnown, search_by_name-Searched}
use ccnpl_sim.Cache.Lru.{CacheLru, make_room, add_in_cache, interest_of_data}

module _ {M : Type 0} where
  -- What the eviction loop yields.
  pub record Roomy (c : CacheLru M) (d : Data M) (c' : CacheLru M) : Type 0 where
    pub linked : IsLinked c'
    pub ready : Ready c' d.content_name d.chunk_id
    pub evicted : items c'.by_time ≡ evict c.cache_limit (d.size / 1000) (items c.by_time)
    pub fits : c'.cache_size + d.size / 1000 ≤ c'.cache_limit
    pub same_limit : c'.cache_limit ≡ c.cache_limit
    pub shorter : length c'.by_time ≤ length c.by_time

  -- The chunk alone fits into the cache, and the sums stay within a word.
  pub record IsSmall (c : CacheLru M) (d : Data M) : Type 0 where
    pub alone : d.size / 1000 ≤ c.cache_limit
    pub sum : c.cache_limit + d.size / 1000 < u32_mod
    pub few : length c.by_time + 1 < u32_mod

  abbrev RoomMade : ℕ → CacheLru M → Data M → Type 0
  RoomMade fuel c d = (c' : CacheLru M) × (make_room fuel c d ≡ some c') × Roomy c d c'

  make_room_done :
      (fuel : ℕ) (c : CacheLru M) (d : Data M)
      → IsLinked c
      → IsSmall c d
      → Ready c d.content_name d.chunk_id
      → ltb c.cache_limit (add32 c.cache_size (d.size / 1000)) ≡ false
      → RoomMade (suc fuel) c d
  unfolding make_room
  make_room_done fuel c d v s ready e = (
    c,
    rw e,
    record {
      linked = v;
      ready = ready;
      evicted = sym (
          evict_fits c.cache_limit (d.size / 1000) (items c.by_time)
            (ground (arith, total_room-items c.by_time, v.sized, v.limited, s.sum)));
      fits = ground (arith, v.limited, s.sum);
      same_limit = refl;
      shorter = omega arith;
    },
  )

  make_room_lem :
      (fuel : ℕ) (c : CacheLru M) (d : Data M) (l : List (Node M ℕ))
      → c.by_time ≡ l
      → IsLinked c
      → IsSmall c d
      → Ready c d.content_name d.chunk_id
      → length l < fuel
      → RoomMade fuel c d
  unfolding make_room
  make_room_lem zero c d l e v s ready h = absurd (omega arith)
  make_room_lem (suc fuel) c d [] e v s ready h =
      make_room_done fuel c d v s ready (ground (arith, v.sized, s.alone, s.sum))
  make_room_lem (suc fuel) c d (n ∷ ns) e v s ready h =
      elim (Bool-cases (ltb c.cache_limit (add32 c.cache_size (d.size / 1000)))) [
        | inr roomy ↦ make_room_done fuel c d v s ready roomy
        | inl full ↦
            let at : lookup n.address c.by_time ≡ some n = rw e (Nodes.lookup_front n ns) in
            let (c₁, e₁, v₁, r₁, t₁, l₁, _) =
              discard_lem c n.address n d.content_name d.chunk_id v at (omega (arith, s.few))
                ready in
            let t₁' : c₁.by_time ≡ ns = ground (arith, Nodes.erase_front n ns) in
            let s₁ : IsSmall c₁ d = record {
              alone = omega (arith, s.alone);
              sum = omega (arith, s.sum);
              few = ground (arith, s.few);
            } in
            let (c₂, e₂, m₂) = make_room_lem fuel c₁ d ns t₁' v₁ s₁ r₁ (omega arith) in
            (
              c₂,
              ground arith,
              record {
                linked = m₂.linked;
                ready = m₂.ready;
                evicted =
                    ground
                      (arith, m₂.evicted, total_room-items c.by_time, v.sized, v.limited, s.sum);
                fits = m₂.fits;
                same_limit = m₂.same_limit ∙ l₁;
                shorter = ground (arith, m₂.shorter);
              },
            )
      ]

  -- On linked stores, take a chunk whose id is within its content's size and its bitmap, which is
  -- as large as the stored chunk of its name if there is one, and which fits into the cache, of
  -- some room, within 32-bit words. Then `add_in_cache` ends, given one round of fuel more than
  -- there are stored chunks, without a fault. Its value tells whether the chunk was new; the
  -- items are those of the abstract insertion; the limit stays, and the stores stay linked.
  pub add_in_cache-insert_item :
      (fuel : ℕ) (c : CacheLru M) (d : Data M) (now : ℕ)
      → IsLinked c
      → 0 < c.cache_limit
      → IsKnown c d.content_name d.chunk_id (d.size / 1000)
      → IsNumbered d
      → IsSmall c d
      → length c.by_time < fuel
      → (c' : CacheLru M) × (add_in_cache fuel c d now
          ≡ some (c', (if has d.content_name d.chunk_id (items c.by_time) then 0 else 1)))
        × IsLinked c'
        × (items c'.by_time ≡ insert_item c.cache_limit (item_of_data d) (items c.by_time))
        × (c'.cache_limit ≡ c.cache_limit)
  unfolding add_in_cache interest_of_data
  add_in_cache-insert_item fuel c d now v open' known numbered small enough =
      let (c₁, found, e₁, s₁) = search_by_name-Searched c v (interest_of_data d) now known in
      elim (Bool-cases (has d.content_name d.chunk_id (items c.by_time))) [
        | inl here ↦ (c₁, ground (arith, s₁.hit), s₁.linked, ground (arith, s₁.used), s₁.same_limit)
        | inr new ↦
            let (ready, same) = s₁.miss new in
            let small' : IsSmall c₁ d = record {
              alone = omega (arith, small.alone, s₁.same_limit);
              sum = omega (arith, small.sum, s₁.same_limit);
              few = ground (arith, small.few);
            } in
            let (c₂, e₂, m) =
              make_room_lem fuel c₁ d c.by_time same s₁.linked small' ready enough in
            let (c₃, e₃, v₃, i₃, l₃) =
              store_chunk_lem c₂ d now m.linked numbered m.ready m.fits
                (omega (arith, m.shorter, small'.few)) in
            (
              c₃,
              ground (arith, s₁.hit),
              v₃,
              ground (arith, m.evicted, s₁.same_limit),
              l₃ ∙ m.same_limit ∙ s₁.same_limit,
            )
      ]
