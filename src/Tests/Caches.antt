-- ===== src/Tests/Caches.antt =====
-- The caches of CacheLRU.cc and CacheRND.cc on a small content.
use ccnpl_sim.Prelude.{ℕ, ◌≡◌, ◌<◌, refl, [], ◌∷◌, some, codes, length, arith}
use ccnpl_sim.Prelude.Texts.{text_eq}
use ccnpl_sim.Packets.{Data, Interest, data_of_interest}
use ccnpl_sim.Cache.Nodes.{lookup}
use ccnpl_sim.Cache.Store.{Store, ContentRecord, new_store}
use ccnpl_sim.Cache.Lru.{CacheLru}
use ccnpl_sim.Cache.Rnd.{CacheRnd}
use ccnpl_sim.Cache.Lru
use ccnpl_sim.Cache.Rnd
use ccnpl_sim.Cache.Invariant.{IsLinked}
use ccnpl_sim.Cache.Added.{added, added-IsLinked}
use ccnpl_sim.Cache.Insert.{IsNumbered, new_record, new_record-IsFree, new_store-IsLinked}
use ccnpl_sim.Cache.Recency.{items, item_of_data}
use ccnpl_sim.Cache.Search.{IsKnown, item_of_interest, search_by_name-use_item}
use ccnpl_sim.Cache.AddLru.{IsSmall, add_in_cache-insert_item}
use ccnpl_sim.Cache.AddRnd
use ccnpl_sim.Cache.AddRnd.{rnd_add_in_cache-evict_random, rnd_search_by_name-has}

-- A chunk of 2000 bits of a content with three chunks.
abbrev chunk : ℕ → Data ℕ
chunk k = record {
  packet = record {
    sender = 4;
    chunk_id = k;
    content_name = codes "film";
    size = 2000;
    msg = 0;
    port = 9;
    popularity_class = 0;
    content_size = 3;
    source = [];
  };
  interest_issue_time = 0;
}

abbrev wanted : ℕ → Interest ℕ
wanted k = record {
  packet = record {
    sender = 8;
    chunk_id = k;
    content_name = codes "film";
    size = 200;
    msg = 0;
    port = 9;
    popularity_class = 0;
    content_size = 3;
    source = [];
  };
  issue_time = 5;
  data_size = 2000;
}

first-IsNumbered : IsNumbered (chunk 1)
first-IsNumbered = record { chunk_in = omega arith; content_word = omega arith }

second-IsNumbered : IsNumbered (chunk 2)
second-IsNumbered = record { chunk_in = omega arith; content_word = omega arith }

-- A cache with room for one chunk, which holds chunk 1.
module _ {X : Type 0} (now : X) where
  abbrev one_chunk : Store ℕ X
  one_chunk = added (new_store 7 3) (chunk 1) now (new_record (chunk 1))

  one_chunk-IsLinked : IsLinked one_chunk
  unfolding new_store
  one_chunk-IsLinked =
      added-IsLinked (new_store 7 3) (new_store-IsLinked 7 3 (omega arith)) (chunk 1) now
        (new_record (chunk 1))
        (new_record-IsFree (new_store 7 3) (chunk 1) (new_store-IsLinked 7 3 (omega arith))
          first-IsNumbered refl)
        (omega arith)

  in_bitmap_2 :
      (r : ContentRecord) → one_chunk.by_name (codes "film") ≡ some r → 2 < length r.chunk_bitmap
  unfolding new_store text_eq
  in_bitmap_2 r e = ground arith

first-IsKnown : IsKnown (one_chunk 0) (codes "film") 1 2
unfolding new_store lookup text_eq
first-IsKnown = record { in_bitmap = λ r e. ground arith; same_room = λ a n e x y. ground arith }

second-IsKnown : IsKnown (one_chunk 0) (codes "film") 2 2
unfolding new_store lookup text_eq
second-IsKnown = record { in_bitmap = in_bitmap_2 {X = ℕ} 0; same_room = λ a n e x y. ground arith }

second-IsSmall : IsSmall (one_chunk 0) (chunk 2)
unfolding new_store
second-IsSmall = record { alone = omega arith; sum = omega arith; few = omega arith }

rnd_second-IsSmall : AddRnd.IsSmall (one_chunk (tt {0})) (chunk 2)
unfolding new_store
rnd_second-IsSmall = record { alone = omega arith; sum = omega arith; few = omega arith }

add_in_cache-insert_item_example :
    (c' : CacheLru ℕ) × (Lru.add_in_cache 2 (one_chunk 0) (chunk 2) 6 ≡ some (c', 1))
    × IsLinked c'
    × (items c'.by_time ≡ item_of_data (chunk 2) ∷ [])
    × (c'.cache_limit ≡ 3)
unfolding new_store text_eq
add_in_cache-insert_item_example =
    add_in_cache-insert_item 2 (one_chunk 0) (chunk 2) 6 (one_chunk-IsLinked 0) (omega arith)
      second-IsKnown second-IsNumbered second-IsSmall (omega arith)

search_by_name-use_item_example :
    (c' : CacheLru ℕ) × (Lru.search_by_name (one_chunk 0) (wanted 1) 6
      ≡ some (c', some (data_of_interest 7 (wanted 1))))
    × IsLinked c'
    × (items c'.by_time ≡ item_of_interest (wanted 1) ∷ [])
    × (c'.cache_limit ≡ 3)
unfolding new_store text_eq
search_by_name-use_item_example =
    search_by_name-use_item (one_chunk 0) (wanted 1) 6 (one_chunk-IsLinked 0) first-IsKnown

rnd_add_in_cache-evict_random_example :
    (c' : CacheRnd ℕ) × (Rnd.add_in_cache (5 ∷ []) (one_chunk tt) (chunk 2) ≡ some (c', 1))
    × IsLinked c'
    × (some (items c'.by_time) ≡ some (item_of_data (chunk 2) ∷ []))
    × (c'.cache_limit ≡ 3)
unfolding new_store text_eq
rnd_add_in_cache-evict_random_example =
    rnd_add_in_cache-evict_random (5 ∷ []) (one_chunk tt) (chunk 2) (one_chunk-IsLinked tt)
      (omega arith) (in_bitmap_2 tt) second-IsNumbered rnd_second-IsSmall (omega arith)
