-- ===== src/Cache/Search.antt =====
-- `CacheLRU::search_by_name` (CacheLRU.cc) against the abstract cache.
use mathlib.Core.Path.{fun_ext}
use ccnpl_sim.Prelude.{
  ℕ, ◌+◌, ◌/◌, ◌<◌, ◌≡◌, refl, sym, subst, inl, inr, true, false, none, some, Text, text_eq_iff,
  Option-cases, Option, get_elem?, length, if◌then◌else◌, arith,
}
use ccnpl_sim.Packets.{Data, Interest, data_of_interest}
use ccnpl_sim.Cache.Nodes.{Node, lookup, erase, name_of, chunk_of, total, count}
use ccnpl_sim.Cache.Nodes
use ccnpl_sim.Cache.Bitmap.{get_elem?-cases, get_elem?-set_at, set-set}
use ccnpl_sim.Cache.Store.{ContentRecord}
use ccnpl_sim.Cache.Invariant.{IsLinked, cleared, without, without-IsLinked}
use ccnpl_sim.Cache.Added.{IsFree, added, new_node, added-IsLinked}
use ccnpl_sim.Cache.Recency.{Item, items, has, use_item, items-append, items-erase, has-lookup}
use ccnpl_sim.Cache.Discard.{Ready, not_has}
use ccnpl_sim.Cache.Lru.{CacheLru, search_by_name, renew}

module _ {M : Type 0} where
  abbrev pub item_of_interest : Interest M → Item
  item_of_interest i = record {
    name = i.content_name;
    chunk = i.chunk_id;
    room = i.data_size / 1000;
  }

  -- The chunk is one of its content, as far as the cache knows the content, and takes the room that
  -- a stored copy takes.
  pub record IsKnown (c : CacheLru M) (name : Text) (chunk room : ℕ) : Type 0 where
    pub in_bitmap : (r : ContentRecord) → c.by_name name ≡ some r → chunk < length r.chunk_bitmap
    pub same_room :
        (a : ℕ) (n : Node M ℕ)
        → lookup a c.by_time ≡ some n
        → name_of n ≡ name
        → chunk_of n ≡ chunk
        → n.data_packet.size / 1000 ≡ room

  module _ (c : CacheLru M) (v : IsLinked c) (i : Interest M) (now : ℕ) where
    abbrev answer : Data M
    answer = data_of_interest c.id i

    module _ (r : ContentRecord) (a : ℕ) (n : Node M ℕ) (er : c.by_name i.content_name ≡ some r)
        (pr : get_elem? r.chunk_bitmap i.chunk_id ≡ some (some a))
        (at : lookup a c.by_time ≡ some n) (nm : name_of n ≡ i.content_name)
        (ch : chunk_of n ≡ i.chunk_id) (room : n.data_packet.size / 1000 ≡ i.data_size / 1000) where
      entry : c.by_name (name_of n) ≡ some r
      entry = ground arith

      w : IsLinked (without c v a n r at entry)
      w = without-IsLinked c v a n r at entry

      cleared-IsFree : IsFree (without c v a n r at entry) answer (cleared c v a n r at entry)
      unfolding data_of_interest
      cleared-IsFree = record {
        counted = ground arith;
        pointed = λ j b h.
            w.pointed i.content_name (cleared c v a n r at entry) j b
              (ground (arith, (text_eq_iff (name_of n) i.content_name).1)) h;
        only = λ s h. ground (arith, (text_eq_iff (name_of n) i.content_name).1);
        free = ground (arith, get_elem?-set_at r.chunk_bitmap i.chunk_id none (some a));
      }

      renewed_names :
          (other : Text)
          → (renew c i r a now).by_name other
            ≡ (added (without c v a n r at entry) answer now (cleared c v a n r at entry)).by_name
                other
      unfolding renew data_of_interest
      renewed_names other = ground (
        arith,
        v.counted (name_of n) r entry,
        Nodes.count-erase a (name_of n) c.by_time n at,
        (text_eq_iff (name_of n) (name_of n)).1 refl,
        set-set r.chunk_bitmap i.chunk_id none (some c.next),
      )

      renewed_size : c.cache_size ≡ total (erase a c.by_time) + i.data_size / 1000
      renewed_size = omega (arith, v.sized, Nodes.total-erase a c.by_time n at, room)

      renew-added :
          renew c i r a now
          ≡ added (without c v a n r at entry) answer now (cleared c v a n r at entry)
      unfolding renew data_of_interest
      renew-added = λ k.
          record (added (without c v a n r at entry) answer now (cleared c v a n r at entry)) {
            cache_size = renewed_size k;
            by_name = fun_ext renewed_names k;
          }

      renew-IsLinked : IsLinked (renew c i r a now)
      unfolding data_of_interest
      renew-IsLinked = subst IsLinked (sym renew-added) (
          added-IsLinked (without c v a n r at entry) w answer now (cleared c v a n r at entry)
            cleared-IsFree (omega (arith, renewed_size, v.limited)))

      present : has i.content_name i.chunk_id (items c.by_time) ≡ true
      present = ground (arith, has-lookup a c.by_time n at)

      only_node :
          (b : ℕ) (m : Node M ℕ)
          → lookup b c.by_time ≡ some m
          → name_of m ≡ name_of n
          → chunk_of m ≡ chunk_of n
          → b ≡ a
      only_node b m em p q = let (s, es, ps) = v.listed b m em in ground arith

      renew-items :
          items (renew c i r a now).by_time ≡ use_item (item_of_interest i) (items c.by_time)
      unfolding renew data_of_interest
      renew-items = ground (
        arith,
        present,
        items-append (erase a c.by_time) (new_node c answer now),
        items-erase a 0 c.next c.by_time n v.rising at only_node,
      )

    -- What a search yields: the answer exactly on a stored chunk, which becomes the most recently
    -- used; after a miss the stores are as they were, and ready for an insertion.
    pub record Searched (c' : CacheLru M) (found : Option (Data M)) : Type 0 where
      pub linked : IsLinked c'
      pub used : items c'.by_time ≡ use_item (item_of_interest i) (items c.by_time)
      pub hit : found ≡ (
          if has i.content_name i.chunk_id (items c.by_time)
          then some (data_of_interest c.id i)
          else none)
      pub same_limit : c'.cache_limit ≡ c.cache_limit
      pub miss :
          has i.content_name i.chunk_id (items c.by_time) ≡ false
          → Ready c' i.content_name i.chunk_id × (c'.by_time ≡ c.by_time)

    moved : (it : Option Text) → IsLinked (record c { search_it = it })
    moved it = record {
      rising = v.rising;
      named = v.named;
      listed = v.listed;
      pointed = v.pointed;
      counted = v.counted;
      sized = v.sized;
      limited = v.limited;
      word = v.word;
    }

    abbrev pub Search : Type 0
    Search =
        (c' : CacheLru M) × (found : Option (Data M)) × (search_by_name c i now ≡ some (c', found))
        × Searched c' found

    found_entry :
        (r : ContentRecord)
        → c.by_name i.content_name ≡ some r
        → IsKnown c i.content_name i.chunk_id (i.data_size / 1000)
        → Search
    unfolding search_by_name
    found_entry r er k = elim (get_elem?-cases r.chunk_bitmap i.chunk_id (k.in_bitmap r er)) [
      | inl free ↦
          let gone = not_has c i.content_name i.chunk_id v (λ s es. ground arith) in
          (
            record c { search_it = some i.content_name },
            none,
            ground arith,
            record {
              linked = moved (some i.content_name);
              used = rw gone;
              hit = rw gone;
              same_limit = refl;
              miss = λ _. (inr (r, er, refl, free), refl);
            },
          )
      | inr (a, pr) ↦
          let (n, at, nm, ch) = v.pointed i.content_name r i.chunk_id a er pr in
          let room = k.same_room a n at nm ch in
          let here = present r a n er pr at nm ch room in
          (
            renew c i r a now,
            some answer,
            ground arith,
            record {
              linked = renew-IsLinked r a n er pr at nm ch room;
              used = renew-items r a n er pr at nm ch room;
              hit = rw here;
              same_limit = unfold renew in refl;
              miss = λ e. absurd (ground arith);
            },
          )
    ]

    -- On linked stores, a search for a chunk of its content does not fault.
    pub search_by_name-Searched : IsKnown c i.content_name i.chunk_id (i.data_size / 1000) → Search
    unfolding search_by_name
    search_by_name-Searched k = elim (Option-cases (c.by_name i.content_name)) [
      | inl unknown ↦
          let gone = not_has c i.content_name i.chunk_id v (λ s es. absurd (ground arith)) in
          (
            record c { search_it = none },
            none,
            ground arith,
            record {
              linked = moved none;
              used = rw gone;
              hit = rw gone;
              same_limit = refl;
              miss = λ _. (inl (unknown, refl), refl);
            },
          )
      | inr (r, er) ↦ found_entry r er k
    ]

-- On linked stores, a search for a chunk whose id is within the bitmap of its content, and which
-- is as large as the stored chunk of its name if there is one, does not fault. It answers exactly
-- a stored chunk, which becomes the most recently used, leaves the order of the others and the
-- limit alone, and leaves the stores linked.
pub search_by_name-use_item :
    {M : Type 0} (c : CacheLru M) (i : Interest M) (now : ℕ)
    → IsLinked c
    → IsKnown c i.content_name i.chunk_id (i.data_size / 1000)
    → (c' : CacheLru M) × (search_by_name c i now
        ≡ some (
          c',
          (if has i.content_name i.chunk_id (items c.by_time)
              then some (data_of_interest c.id i)
              else none),
        ))
      × IsLinked c'
      × (items c'.by_time ≡ use_item (item_of_interest i) (items c.by_time))
      × (c'.cache_limit ≡ c.cache_limit)
search_by_name-use_item c i now v k =
    let (c', found, e, s) = search_by_name-Searched c v i now k in
    (c', ground (arith, s.hit), s.linked, s.used, s.same_limit)
