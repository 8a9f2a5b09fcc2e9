-- ===== src/Cache/Insert.antt =====
-- The insertion that ends `add_in_cache` (CacheLRU.cc, CacheRND.cc).
use ccnpl_sim.Prelude.{
  ℕ, ◌+◌, ◌/◌, ◌≤◌, ◌<◌, ◌≡◌, refl, ◌++◌, [], ◌∷◌, inl, inr, false, none, some, text_eq,
  text_eq_iff, get_elem?, replicate, length, u32_mod, add32, arith,
}
use ccnpl_sim.Packets.{Data}
use ccnpl_sim.Cache.Nodes.{Node, lookup, name_of, count}
use ccnpl_sim.Cache.Nodes
use ccnpl_sim.Cache.Bitmap.{get_elem?-replicate, get_elem?-replicate_none}
use ccnpl_sim.Cache.Store.{Store, ContentRecord, new_store, store_chunk}
use ccnpl_sim.Cache.Invariant.{IsLinked}
use ccnpl_sim.Cache.Added.{IsFree, added, new_node, added-IsLinked}
use ccnpl_sim.Cache.Recency.{items, item_of_data, items-append}
use ccnpl_sim.Cache.Discard.{Ready}

module _ {M : Type 0} where
  -- The size of a content counts its chunks, whose ids run from 0 on.
  pub record IsNumbered (d : Data M) : Type 0 where
    pub chunk_in : d.chunk_id ≤ d.content_size
    pub content_word : d.content_size + 1 < u32_mod

  abbrev pub new_record : Data M → ContentRecord
  new_record d = record { stored_chunk = 0; chunk_bitmap = replicate (add32 d.content_size 1) none }

module _ {M X : Type 0} where
  pub new_store-IsLinked :
      (id limit : ℕ) → limit < u32_mod → IsLinked (new_store {M = M} {X = X} id limit)
  unfolding new_store Nodes.lookup
  new_store-IsLinked id limit h = record {
    rising = omega arith;
    named = λ a n e. cc;
    listed = λ a n e. cc;
    pointed = λ name r i a e. cc;
    counted = λ name r e. cc;
    sized = refl;
    limited = omega arith;
    word = h;
  }

  pub new_record-IsFree :
      (c : Store M X) (d : Data M)
      → IsLinked c
      → IsNumbered d
      → c.by_name d.content_name ≡ none
      → IsFree c d (new_record d)
  new_record-IsFree c d v k e = record {
    counted =
        ground (arith, Nodes.count-eq-zero d.content_name 0 c.next c.by_time v.rising unlisted);
    pointed = λ i a h. absurd (get_elem?-replicate_none _ i a h);
    only = λ s h. cc;
    free =
        get_elem?-replicate (add32 d.content_size 1) d.chunk_id
          (omega (arith, k.chunk_in, k.content_word));
  }
    where
      unlisted :
          (a : ℕ) (n : Node M X)
          → lookup a c.by_time ≡ some n
          → text_eq (name_of n) d.content_name ≡ false
      unlisted a n h =
          let (r, er, _) = v.listed a n h in
          ground (arith, (text_eq_iff (name_of n) d.content_name).0)

  old_record-IsFree :
      (c : Store M X) (d : Data M) (r : ContentRecord)
      → IsLinked c
      → c.by_name d.content_name ≡ some r
      → get_elem? r.chunk_bitmap d.chunk_id ≡ some none
      → IsFree c d r
  old_record-IsFree c d r v e free = record {
    counted = v.counted d.content_name r e;
    pointed = λ i a h. v.pointed d.content_name r i a e h;
    only = λ s h. ground arith;
    free = free;
  }

  -- A chunk that fits goes to the back, and the stores stay linked.
  pub store_chunk_lem :
      (c : Store M X) (d : Data M) (now : X)
      → IsLinked c
      → IsNumbered d
      → Ready c d.content_name d.chunk_id
      → c.cache_size + d.size / 1000 ≤ c.cache_limit
      → length c.by_time + 1 < u32_mod
      → (c' : Store M X) × (store_chunk c d now ≡ some c')
        × IsLinked c'
        × (items c'.by_time ≡ items c.by_time ++ item_of_data d ∷ [])
        × (c'.cache_limit ≡ c.cache_limit)
  unfolding store_chunk
  store_chunk_lem c d now v k (inl (unknown, it)) fits few =
      let f = new_record-IsFree c d v k unknown in
      (
        added c d now (new_record d),
        ground (arith, f.free, v.limited, v.word),
        added-IsLinked c v d now (new_record d) f fits,
        items-append c.by_time (new_node c d now),
        refl,
      )
  store_chunk_lem c d now v k (inr (r, e, it, free)) fits few =
      let f = old_record-IsFree c d r v e free in
      (
        added c d now r,
        ground (
          arith,
          v.limited,
          v.word,
          v.counted d.content_name r e,
          Nodes.count-le-length d.content_name c.by_time,
        ),
        added-IsLinked c v d now r f fits,
        items-append c.by_time (new_node c d now),
        refl,
      )
