-- ===== src/Cache/AddRnd.antt =====
-- `CacheRND` (CacheRND.cc) against the abstract cache.
use native.Mathlib.Decide.{dec_le}
use native.Mathlib.Nat.{mod-lt}
use ccnpl_sim.Prelude.{
  ℕ, zero, suc, ◌+◌, ◌/◌, ◌%◌, ◌≤◌, ◌<◌, ◌≡◌, refl, ◌∙◌, inl, inr, true, false, Option, none, some,
  Text, Bool-cases, Option-cases, [], ◌∷◌, List, get_elem?, length, if◌then◌else◌, u32_mod, arith,
}
use ccnpl_sim.Packets.{Data, Interest, data_of_interest}
use ccnpl_sim.Cache.Nodes.{Node, lookup, erase, name_of, chunk_of, total}
use ccnpl_sim.Cache.Nodes
use ccnpl_sim.Cache.Bitmap.{get_elem?-cases}
use ccnpl_sim.Cache.Store.{ContentRecord}
use ccnpl_sim.Cache.Invariant.{IsLinked}
use ccnpl_sim.Cache.Recency.{
  erase_at, items, has, has-lookup, item_of_data, evict_random, insert_random, items-erase_at,
  total_room-items,
}
use ccnpl_sim.Cache.Discard.{Ready, not_has, discard_lem}
use ccnpl_sim.Cache.Insert.{IsNumbered, store_chunk_lem}
use ccnpl_sim.Cache.Rnd.{CacheRnd, search_by_name, make_room, add_in_cache, interest_of_data}

module _ {M : Type 0} where
  -- What a search yields: the answer exactly on a stored chunk, and the chunks as they were.
  pub record Searched (c : CacheRnd M) (i : Interest M) (c' : CacheRnd M) (found : Option (Data M))
      : Type 0 where
    pub linked : IsLinked c'
    pub same : c'.by_time ≡ c.by_time
    pub hit : found ≡ (
        if has i.content_name i.chunk_id (items c.by_time)
        then some (data_of_interest c.id i)
        else none)
    pub same_limit : c'.cache_limit ≡ c.cache_limit
    pub miss :
        has i.content_name i.chunk_id (items c.by_time) ≡ false → Ready c' i.content_name i.chunk_id

  abbrev pub Search : CacheRnd M → Interest M → Type 0
  Search c i =
      (c' : CacheRnd M) × (found : Option (Data M)) × (search_by_name c i ≡ some (c', found))
      × Searched c i c' found

  module _ (c : CacheRnd M) (v : IsLinked c) (i : Interest M) where
    moved : (it : Option Text) → IsLinked (record c { search_it = it })
    moved it = record {
      rising = v.rising;
      named = v.named;
      listed = v.listed;
      pointed = v.pointed;
      counted = v.counted;
      sized = v.sized;
      limited = v.limited;
      word = v.word;
    }

    found_entry :
        (r : ContentRecord)
        → c.by_name i.content_name ≡ some r
        → i.chunk_id < length r.chunk_bitmap
        → Search c i
    unfolding search_by_name
    found_entry r er k = elim (get_elem?-cases r.chunk_bitmap i.chunk_id k) [
      | inl free ↦
          let gone = not_has c i.content_name i.chunk_id v (λ s es. ground arith) in
          (
            record c { search_it = some i.content_name },
            none,
            ground arith,
            record {
              linked = moved (some i.content_name);
              same = refl;
              hit = rw gone;
              same_limit = refl;
              miss = λ _. inr (r, er, refl, free);
            },
          )
      | inr (a, pr) ↦
          let (n, at, nm, ch) = v.pointed i.content_name r i.chunk_id a er pr in
          let here : has i.content_name i.chunk_id (items c.by_time) ≡ true =
            ground (arith, has-lookup a c.by_time n at) in
          (
            record c { search_it = some i.content_name },
            some (data_of_interest c.id i),
            ground arith,
            record {
              linked = moved (some i.content_name);
              same = refl;
              hit = rw here;
              same_limit = refl;
              miss = λ e. absurd (ground arith);
            },
          )
    ]

    -- On linked stores, a search for a chunk of its content does not fault.
    pub search_by_name-Searched :
        ((r : ContentRecord)
          → c.by_name i.content_name ≡ some r
          → i.chunk_id < length r.chunk_bitmap)
        → Search c i
    unfolding search_by_name
    search_by_name-Searched k = elim (Option-cases (c.by_name i.content_name)) [
      | inl unknown ↦
          let gone = not_has c i.content_name i.chunk_id v (λ s es. absurd (ground arith)) in
          (
            record c { search_it = none },
            none,
            ground arith,
            record {
              linked = moved none;
              same = refl;
              hit = rw gone;
              same_limit = refl;
              miss = λ _. inl (unknown, refl);
            },
          )
      | inr (r, er) ↦ found_entry r er (k r er)
    ]

  -- What the eviction loop yields.
  pub record Roomy (rs : List ℕ) (c : CacheRnd M) (d : Data M) (c' : CacheRnd M) : Type 0 where
    pub linked : IsLinked c'
    pub ready : Ready c' d.content_name d.chunk_id
    pub evicted :
        evict_random c.cache_limit (d.size / 1000) rs (items c.by_time) ≡ some (items c'.by_time)
    pub fits : c'.cache_size + d.size / 1000 ≤ c'.cache_limit
    pub same_limit : c'.cache_limit ≡ c.cache_limit
    pub shorter : length c'.by_time ≤ length c.by_time

  -- The chunk alone fits into the cache, and the sums stay within a word.
  pub record IsSmall (c : CacheRnd M) (d : Data M) : Type 0 where
    pub alone : d.size / 1000 ≤ c.cache_limit
    pub sum : c.cache_limit + d.size / 1000 < u32_mod
    pub few : length c.by_time + 1 < u32_mod

  abbrev RoomMade : List ℕ → CacheRnd M → Data M → Type 0
  RoomMade rs c d = (c' : CacheRnd M) × (make_room rs c d ≡ some c') × Roomy rs c d c'

  make_room_done :
      (rs : List ℕ) (c : CacheRnd M) (d : Data M)
      → IsLinked c
      → IsSmall c d
      → Ready c d.content_name d.chunk_id
      → c.cache_size + d.size / 1000 ≤ c.cache_limit
      → RoomMade rs c d
  unfolding make_room
  make_room_done [] c d v s ready e = (
    c,
    ground (arith, s.sum),
    record {
      linked = v;
      ready = ready;
      evicted = ground (arith, total_room-items c.by_time, v.sized);
      fits = e;
      same_limit = refl;
      shorter = omega arith;
    },
  )
  make_room_done (r ∷ rs) c d v s ready e = (
    c,
    ground (arith, s.sum),
    record {
      linked = v;
      ready = ready;
      evicted = ground (arith, total_room-items c.by_time, v.sized);
      fits = e;
      same_limit = refl;
      shorter = omega arith;
    },
  )

  get_elem?-some :
      (l : List (Node M (Unit {0}))) (k : ℕ)
      → k < length l
      → (n : Node M (Unit {0})) × (get_elem? l k ≡ some n)
  get_elem?-some [] k h = absurd (omega arith)
  get_elem?-some (n ∷ ns) zero h = (n, refl)
  get_elem?-some (n ∷ ns) (suc k) h = get_elem?-some ns k (omega arith)

  length-items : (l : List (Node M (Unit {0}))) → length (items l) ≡ length l
  length-items [] = refl
  length-items (n ∷ ns) = omega (arith, length-items ns)

  -- A round: the node that the random number chooses goes.
  round :
      (r : ℕ) (c : CacheRnd M) (d : Data M)
      → IsLinked c
      → IsSmall c d
      → Ready c d.content_name d.chunk_id
      → c.cache_limit < c.cache_size + d.size / 1000
      → (c' : CacheRnd M) × ((rs : List ℕ) → make_room (r ∷ rs) c d ≡ make_room rs c' d)
        × IsLinked c'
        × Ready c' d.content_name d.chunk_id
        × (items c'.by_time ≡ erase_at (r % length (items c.by_time)) (items c.by_time))
        × (c'.cache_limit ≡ c.cache_limit)
        × (suc (length c'.by_time) ≡ length c.by_time)
  unfolding make_room
  round r c d v s ready full =
      let some_node : 0 < length c.by_time = nonempty c.by_time refl in
      let (n, en) = get_elem?-some c.by_time (r % length c.by_time) (mod-lt r some_node) in
      let (at, erased) = items-erase_at (r % length c.by_time) 0 c.next c.by_time n v.rising en in
      let (c₁, e₁, v₁, r₁, t₁, l₁, _) =
        discard_lem c n.address n d.content_name d.chunk_id v at (omega (arith, s.few)) ready in
      (
        c₁,
        (λ rs. ground (arith, v.limited, s.sum)),
        v₁,
        r₁,
        ground (arith, length-items c.by_time),
        l₁,
        ground (arith, Nodes.length-erase n.address c.by_time n at),
      )
    where
      nonempty : (l : List (Node M (Unit {0}))) → c.by_time ≡ l → 0 < length c.by_time
      nonempty [] e = absurd (ground (arith, v.sized, s.alone))
      nonempty (n ∷ ns) e = ground arith

  make_room_lem :
      (rs : List ℕ) (c : CacheRnd M) (d : Data M)
      → IsLinked c
      → IsSmall c d
      → Ready c d.content_name d.chunk_id
      → length c.by_time ≤ length rs
      → RoomMade rs c d
  make_room_lem [] c d v s ready h =
      make_room_done [] c d v s ready (ground (arith, v.sized, s.alone, empty c.by_time))
    where
      empty : (l : List (Node M (Unit {0}))) → length l ≤ 0 → total l ≡ 0
      empty [] h = refl
      empty (n ∷ ns) h = absurd (omega arith)
  make_room_lem (r ∷ rs) c d v s ready h =
      elim (dec_le (c.cache_size + d.size / 1000) c.cache_limit) [
        | yes fits ↦ make_room_done (r ∷ rs) c d v s ready fits
        | no full ↦
            let (c₁, e₁, v₁, r₁, i₁, l₁, n₁) = round r c d v s ready (omega arith) in
            let s₁ : IsSmall c₁ d = record {
              alone = omega (arith, s.alone);
              sum = omega (arith, s.sum);
              few = omega (arith, s.few);
            } in
            let (c₂, e₂, m₂) = make_room_lem rs c₁ d v₁ s₁ r₁ (omega arith) in
            (
              c₂,
              e₁ rs ∙ e₂,
              record {
                linked = m₂.linked;
                ready = m₂.ready;
                evicted = ground (arith, m₂.evicted, total_room-items c.by_time, v.sized);
                fits = m₂.fits;
                same_limit = m₂.same_limit ∙ l₁;
                shorter = omega (arith, m₂.shorter);
              },
            )
      ]

  -- On linked stores, take a chunk whose id is within its content's size and its bitmap, and
  -- which fits into the cache, of some room, within 32-bit words. Then `add_in_cache` needs no
  -- more random numbers than there are stored chunks, and does not fault. Its value tells whether
  -- the chunk was new. A stored chunk changes nothing; a new one goes to the back, after the
  -- evictions that the random numbers choose. The limit stays, and the stores stay linked.
  pub rnd_add_in_cache-evict_random :
      (rs : List ℕ) (c : CacheRnd M) (d : Data M)
      → IsLinked c
      → 0 < c.cache_limit
      → ((r : ContentRecord)
          → c.by_name d.content_name ≡ some r
          → d.chunk_id < length r.chunk_bitmap)
      → IsNumbered d
      → IsSmall c d
      → length c.by_time ≤ length rs
      → (c' : CacheRnd M) × (add_in_cache rs c d
          ≡ some (c', (if has d.content_name d.chunk_id (items c.by_time) then 0 else 1)))
        × IsLinked c'
        × (some (items c'.by_time) ≡ (
            if has d.content_name d.chunk_id (items c.by_time)
            then some (items c.by_time)
            else insert_random c.cache_limit (item_of_data d) rs (items c.by_time)))
        × (c'.cache_limit ≡ c.cache_limit)
  unfolding add_in_cache interest_of_data
  rnd_add_in_cache-evict_random rs c d v open' known numbered small enough =
      let (c₁, found, e₁, s₁) = search_by_name-Searched c v (interest_of_data d) known in
      elim (Bool-cases (has d.content_name d.chunk_id (items c.by_time))) [
        | inl here ↦ (c₁, ground (arith, s₁.hit), s₁.linked, ground (arith, s₁.same), s₁.same_limit)
        | inr new ↦
            let same = s₁.same in
            let small' : IsSmall c₁ d = record {
              alone = omega (arith, small.alone, s₁.same_limit);
              sum = omega (arith, small.sum, s₁.same_limit);
              few = ground (arith, small.few);
            } in
            let (c₂, e₂, m) = make_room_lem rs c₁ d s₁.linked small' (s₁.miss new) (ground arith) in
            let (c₃, e₃, v₃, i₃, l₃) =
              store_chunk_lem c₂ d tt m.linked numbered m.ready m.fits
                (omega (arith, m.shorter, small'.few)) in
            (
              c₃,
              ground (arith, s₁.hit),
              v₃,
              ground (arith, m.evicted, s₁.same_limit),
              l₃ ∙ m.same_limit ∙ s₁.same_limit,
            )
      ]

-- On linked stores, a search for a chunk whose id is within the bitmap of its content does not
-- fault. It answers exactly a stored chunk, moves none, and leaves the stores linked and the
-- limit alone.
pub rnd_search_by_name-has :
    {M : Type 0} (c : CacheRnd M) (i : Interest M)
    → IsLinked c
    → ((r : ContentRecord) → c.by_name i.content_name ≡ some r → i.chunk_id < length r.chunk_bitmap)
    → (c' : CacheRnd M) × (search_by_name c i
        ≡ some (
          c',
          (if has i.content_name i.chunk_id (items c.by_time)
              then some (data_of_interest c.id i)
              else none),
        ))
      × IsLinked c'
      × (c'.by_time ≡ c.by_time)
      × (c'.cache_limit ≡ c.cache_limit)
rnd_search_by_name-has c i v k =
    let (c', found, e, s) = search_by_name-Searched c v i k in
    (c', ground (arith, s.hit), s.linked, s.same, s.same_limit)
