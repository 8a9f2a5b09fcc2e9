-- ===== src/Cache/Again.antt =====
-- `CacheLRU::add_in_cache` (CacheLRU.cc) of one chunk again and again, as a node calls it once for each
-- entry that waits for the chunk.
use ccnpl_sim.Prelude.{
  ℕ, zero, suc, ◌+◌, ◌/◌, ◌<◌, ◌≡◌, refl, inl, inr, true, Bool-cases, List, [], ◌∷◌, ◌++◌, Option,
  some, Text, text_eq_iff, leb, get_elem?, length, arith,
}
use ccnpl_sim.Packets.{Data}
use ccnpl_sim.Cache.Nodes.{Node, lookup, name_of, chunk_of, Rising}
use ccnpl_sim.Cache.Nodes
use ccnpl_sim.Cache.Invariant.{IsLinked}
use ccnpl_sim.Cache.Recency.{
  Item, items, is_item, total_room, has, remove, evict, use_item, insert_item, item_of_data,
  lookup-has,
}
use ccnpl_sim.Cache.Insert.{IsNumbered}
use ccnpl_sim.Cache.Search.{IsKnown, search_by_name-Searched}
use ccnpl_sim.Cache.AddLru.{IsSmall, add_in_cache-insert_item}
use ccnpl_sim.Cache.Lru.{CacheLru, add_in_cache, interest_of_data}

-- Every stored copy of a chunk takes the same room.
abbrev pub Rooms : Text → ℕ → ℕ → List Item → Type 0
Rooms name chunk room [] = Unit {0}
Rooms name chunk room (x ∷ xs) =
    (is_item name chunk x ≡ true → x.room ≡ room) × Rooms name chunk room xs

Rooms-append :
    (name : Text) (chunk room : ℕ) (l : List Item) (x : Item)
    → Rooms name chunk room l
    → x.room ≡ room
    → Rooms name chunk room (l ++ x ∷ [])
Rooms-append name chunk room [] x h e = (λ _. e, tt)
Rooms-append name chunk room (y ∷ ys) x h e = (h.0, Rooms-append name chunk room ys x h.1 e)

Rooms-remove :
    (name : Text) (chunk room : ℕ) (n : Text) (c : ℕ) (l : List Item)
    → Rooms name chunk room l
    → Rooms name chunk room (remove n c l)
Rooms-remove name chunk room n c [] h = h
Rooms-remove name chunk room n c (x ∷ xs) h = elim (Bool-cases (is_item n c x)) [
  | inl gone ↦ rw gone (h.1)
  | inr kept ↦ rw kept (h.0, Rooms-remove name chunk room n c xs h.1)
]

Rooms-evict :
    (name : Text) (chunk room limit need : ℕ) (l : List Item)
    → Rooms name chunk room l
    → Rooms name chunk room (evict limit need l)
Rooms-evict name chunk room limit need [] h = h
Rooms-evict name chunk room limit need (x ∷ xs) h =
    elim (Bool-cases (leb (total_room (x ∷ xs) + need) limit)) [
      | inl fits ↦ rw fits h
      | inr full ↦ rw full (Rooms-evict name chunk room limit need xs h.1)
    ]

Rooms-use_item :
    (x : Item) (l : List Item)
    → Rooms x.name x.chunk x.room l
    → Rooms x.name x.chunk x.room (use_item x l)
Rooms-use_item x l h = elim (Bool-cases (has x.name x.chunk l)) [
  | inl there ↦ rw there (
      Rooms-append x.name x.chunk x.room (remove x.name x.chunk l) x
        (Rooms-remove x.name x.chunk x.room x.name x.chunk l h) refl)
  | inr away ↦ rw away h
]

Rooms-insert_item :
    (limit : ℕ) (x : Item) (l : List Item)
    → Rooms x.name x.chunk x.room l
    → Rooms x.name x.chunk x.room (insert_item limit x l)
Rooms-insert_item limit x l h = elim (Bool-cases (has x.name x.chunk l)) [
  | inl there ↦ rw there (rw there at (Rooms-use_item x l h))
  | inr away ↦ rw away (
      Rooms-append x.name x.chunk x.room (evict limit x.room l) x
        (Rooms-evict x.name x.chunk x.room limit x.room l h) refl)
]

has-append : (x : Item) (l : List Item) → has x.name x.chunk (l ++ x ∷ []) ≡ true
has-append x [] = ground (arith, (text_eq_iff x.name x.name).1 refl)
has-append x (y ∷ ys) = ground (arith, has-append x ys)

has-use_item :
    (x : Item) (l : List Item)
    → has x.name x.chunk l ≡ true
    → has x.name x.chunk (use_item x l) ≡ true
has-use_item x l h = ground (arith, h, has-append x (remove x.name x.chunk l))

has-insert_item :
    (limit : ℕ) (x : Item) (l : List Item) → has x.name x.chunk (insert_item limit x l) ≡ true
has-insert_item limit x l =
    ground (arith, has-append x (remove x.name x.chunk l), has-append x (evict limit x.room l))

get_elem?-lt :
    (bm : List (Option ℕ)) (i : ℕ) (v : Option ℕ) → get_elem? bm i ≡ some v → i < length bm
get_elem?-lt [] i v e = cc
get_elem?-lt (x ∷ bm) zero v e = omega arith
get_elem?-lt (x ∷ bm) (suc i) v e = omega (arith, get_elem?-lt bm i v e)

module _ {M : Type 0} where
  Rooms-lookup :
      (name : Text) (chunk room a : ℕ) (l : List (Node M ℕ)) (n : Node M ℕ)
      → Rooms name chunk room (items l)
      → lookup a l ≡ some n
      → name_of n ≡ name
      → chunk_of n ≡ chunk
      → n.data_packet.size / 1000 ≡ room
  unfolding lookup
  Rooms-lookup name chunk room a [] n h e en ec = cc
  Rooms-lookup name chunk room a (m ∷ ms) n h e en ec =
      ground (arith, h.0, Rooms-lookup name chunk room a ms n h.1, (text_eq_iff name name).1 refl)

  Rooms-known :
      (name : Text) (chunk room lo hi : ℕ) (l : List (Node M ℕ))
      → Rising lo hi l
      → ((a : ℕ) (n : Node M ℕ)
          → lookup a l ≡ some n
          → name_of n ≡ name
          → chunk_of n ≡ chunk
          → n.data_packet.size / 1000 ≡ room)
      → Rooms name chunk room (items l)
  Rooms-known name chunk room lo hi [] r h = tt
  Rooms-known name chunk room lo hi (n ∷ ns) r h = (
    λ e.
        h n.address n (Nodes.lookup_front n ns) (ground (arith, text_eq_iff (name_of n) name))
          (ground arith),
    Rooms-known name chunk room (suc n.address) hi ns r.1
        (λ a m at en ec. h a m (Nodes.lookup_tail a lo hi n m ns r at) en ec),
  )

  -- The cache holds the chunk of a data packet, in copies of its room.
  pub record Holds (c : CacheLru M) (d : Data M) : Type 0 where
    pub linked : IsLinked c
    pub stored : has d.content_name d.chunk_id (items c.by_time) ≡ true
    rooms : Rooms d.content_name d.chunk_id (d.size / 1000) (items c.by_time)

  Holds-IsKnown :
      (c : CacheLru M) (d : Data M)
      → Holds c d
      → IsKnown c d.content_name d.chunk_id (d.size / 1000)
  Holds-IsKnown c d h = record {
    in_bitmap = λ r e.
        let (a, n, at, en, ec) =
          lookup-has d.content_name d.chunk_id 0 c.next c.by_time h.linked.rising h.stored in
        let (r', er, at_bit) = h.linked.listed a n at in
        get_elem?-lt r.chunk_bitmap d.chunk_id (some a) (ground (arith, en, ec, e, er, at_bit));
    same_room = λ a n at en ec.
        Rooms-lookup d.content_name d.chunk_id (d.size / 1000) a c.by_time n h.rooms at en ec;
  }

  pub add_again :
      (fuel : ℕ) (c : CacheLru M) (d : Data M) (now : ℕ)
      → 0 < c.cache_limit
      → Holds c d
      → (c' : CacheLru M) × (add_in_cache fuel c d now ≡ some (c', 0))
        × Holds c' d
        × (c'.cache_limit ≡ c.cache_limit)
  unfolding add_in_cache interest_of_data
  add_again fuel c d now room h =
      let (c', found, e, s) =
        search_by_name-Searched c h.linked (interest_of_data d) now (Holds-IsKnown c d h) in
      (
        c',
        ground (arith, e, s.hit, h.stored, room),
        record {
          linked = s.linked;
          stored = rw s.used (has-use_item (item_of_data d) (items c.by_time) h.stored);
          rooms = rw s.used (Rooms-use_item (item_of_data d) (items c.by_time) h.rooms);
        },
        s.same_limit,
      )

  -- What an addition takes: the chunk is known to its content, and fits a cache of some room.
  pub record IsAddable (c : CacheLru M) (d : Data M) : Type 0 where
    pub linked : IsLinked c
    pub room : 0 < c.cache_limit
    pub known : IsKnown c d.content_name d.chunk_id (d.size / 1000)
    pub numbered : IsNumbered d
    pub small : IsSmall c d

  pub add_first :
      (c : CacheLru M) (d : Data M) (now : ℕ)
      → IsAddable c d
      → (c' : CacheLru M) × (value : ℕ) × (add_in_cache (suc (length c.by_time)) c d now
          ≡ some (c', value))
        × Holds c' d
        × (c'.cache_limit ≡ c.cache_limit)
  add_first c d now h =
      let (c', e, v, i, l) =
        add_in_cache-insert_item (suc (length c.by_time)) c d now h.linked h.room h.known h.numbered
          h.small (omega arith) in
      (
        c',
        _,
        e,
        record {
          linked = v;
          stored = rw i (has-insert_item c.cache_limit (item_of_data d) (items c.by_time));
          rooms = rw i (
              Rooms-insert_item c.cache_limit (item_of_data d) (items c.by_time) (
                Rooms-known d.content_name d.chunk_id (d.size / 1000) 0 c.next c.by_time
                  h.linked.rising h.known.same_room));
        },
        l,
      )
