-- ===== src/Cache/Discard.antt =====
-- One eviction (the body of the loop in `add_in_cache` of CacheLRU.cc and CacheRND.cc).
use ccnpl_sim.Prelude.{
  ℕ, ◌<◌, ◌≡◌, ◌≢◌, ◌⊎◌, ◌==◌, Bool-cases, inl, inr, false, not, ◌&&◌, none, some, Text,
  if◌then◌else◌, text_eq, text_eq_iff, get_elem?, get_elem?-set_ne, length, u32_mod, refl, arith,
}
use ccnpl_sim.Cache.Nodes.{Node, lookup, erase, name_of, chunk_of, total, count}
use ccnpl_sim.Cache.Nodes
use ccnpl_sim.Cache.Store.{Store, ContentRecord, assign, discard}
use ccnpl_sim.Cache.Recency.{items, has, lookup-has}
use ccnpl_sim.Cache.Invariant.{IsLinked, cleared, without, without-IsLinked}

module _ {M X : Type 0} where
  -- What the search of `add_in_cache` leaves after a miss: no entry and no iterator, or the iterator
  -- to an entry whose place for the chunk is free.
  abbrev pub Ready : Store M X → Text → ℕ → Type 0
  Ready c name chunk =
      ((c.by_name name ≡ none) × (c.search_it ≡ none))
      ⊎ ((r : ContentRecord) × (c.by_name name ≡ some r)
          × (c.search_it ≡ some name)
          × (get_elem? r.chunk_bitmap chunk ≡ some none))

  -- A chunk with a free place, or whose content is unknown, is not stored.
  pub not_has :
      (c : Store M X) (name : Text) (chunk : ℕ)
      → IsLinked c
      → ((r : ContentRecord) → c.by_name name ≡ some r → get_elem? r.chunk_bitmap chunk ≡ some none)
      → has name chunk (items c.by_time) ≡ false
  not_has c name chunk v free = elim (Bool-cases (has name chunk (items c.by_time))) [
    | inr e ↦ e
    | inl e ↦
        let (a, n, en, nm, ch) = lookup-has name chunk 0 c.next c.by_time v.rising e in
        let (r, er, pr) = v.listed a n en in absurd (ground (arith, free r))
  ]

  module _ (c : Store M X) (v : IsLinked c) (a : ℕ) (n : Node M X) (r : ContentRecord)
      (at : lookup a c.by_time ≡ some n) (entry : c.by_name (name_of n) ≡ some r) where
    abbrev forgotten : Store M X
    forgotten = record c {
      cache_size = total (erase a c.by_time);
      by_time = erase a c.by_time;
      by_name = assign c.by_name (name_of n) none;
    }

    -- The entry may go with the last chunk of its content.
    forgotten-IsLinked : r.stored_chunk ≡ 1 → IsLinked forgotten
    forgotten-IsLinked last =
        let w = without-IsLinked c v a n r at entry in
        let gone : count (name_of n) (erase a c.by_time) ≡ 0 = ground (
          arith,
          v.counted (name_of n) r entry,
          Nodes.count-erase a (name_of n) c.by_time n at,
          (text_eq_iff (name_of n) (name_of n)).1 refl,
        ) in
        record {
          rising = w.rising;
          named = w.named;
          listed = λ b m e. elim (Bool-cases (text_eq (name_of n) (name_of m))) [
            | inl same ↦ absurd (
                ground (
                  arith,
                  (text_eq_iff (name_of n) (name_of m)).0 same,
                  (text_eq_iff (name_of m) (name_of n)).1,
                  Nodes.count-pos b (name_of n) (erase a c.by_time) m e,
                ))
            | inr other ↦ let (s, es, ps) = w.listed b m e in (s, ground (arith), ps)
          ];
          pointed = λ name s i b es ps. elim (Bool-cases (text_eq (name_of n) name)) [
            | inl same ↦ absurd (ground arith)
            | inr other ↦ w.pointed name s i b (ground arith) ps
          ];
          counted = λ name s es. elim (Bool-cases (text_eq (name_of n) name)) [
            | inl same ↦ absurd (ground arith)
            | inr other ↦ w.counted name s (ground arith)
          ];
          sized = w.sized;
          limited = w.limited;
          word = w.word;
        }

    abbrev discarded : Text → Store M X
    discarded incoming =
        if (r.stored_chunk == 1) && not (text_eq (name_of n) incoming)
        then forgotten
        else without c v a n r at entry

    discard-eq :
        (incoming : Text)
        → length c.by_time < u32_mod
        → discard c n incoming ≡ some (discarded incoming)
    unfolding discard
    discard-eq incoming few =
        let (s, es, ps) = v.listed a n at in
        ground (
          arith,
          v.named a n at,
          Nodes.lookup_bounds a 0 c.next c.by_time n v.rising at,
          Nodes.total-erase a c.by_time n at,
          Nodes.count-erase a (name_of n) c.by_time n at,
          Nodes.count-le-length (name_of n) c.by_time,
          v.counted (name_of n) r entry,
          v.sized,
          v.limited,
          v.word,
          (text_eq_iff (name_of n) (name_of n)).1 refl,
        )

    discarded-IsLinked : (incoming : Text) → IsLinked (discarded incoming)
    discarded-IsLinked incoming =
        elim (Bool-cases ((r.stored_chunk == 1) && not (text_eq (name_of n) incoming))) [
          | inl last ↦ rw last (forgotten-IsLinked (ground arith))
          | inr more ↦ rw more (without-IsLinked c v a n r at entry)
        ]

    discarded-Ready :
        (incoming : Text) (chunk : ℕ)
        → Ready c incoming chunk
        → Ready (discarded incoming) incoming chunk
    discarded-Ready incoming chunk (inl (unknown, it)) =
        let other : text_eq (name_of n) incoming ≡ false =
          ground (arith, (text_eq_iff (name_of n) incoming).0) in
        inl (ground arith, ground arith)
    discarded-Ready incoming chunk (inr (s, es, it, free)) =
        elim (Bool-cases (text_eq (name_of n) incoming)) [
          | inl same ↦
              let same' = (text_eq_iff (name_of n) incoming).0 same in
              let (s', es', ps') = v.listed a n at in
              let ne : chunk_of n ≢ chunk = λ q. ground arith in
              inr (
                cleared c v a n r at entry,
                ground arith,
                ground arith,
                rw (get_elem?-set_ne r.chunk_bitmap none ne) (ground arith),
              )
          | inr other ↦ inr (s, ground arith, ground arith, free)
        ]

  -- One eviction does not fault: it takes the node out and leaves the rest linked, and the entry of
  -- the incoming chunk ready.
  pub discard_lem :
      (c : Store M X) (a : ℕ) (n : Node M X) (incoming : Text) (chunk : ℕ)
      → IsLinked c
      → lookup a c.by_time ≡ some n
      → length c.by_time < u32_mod
      → Ready c incoming chunk
      → (c' : Store M X) × (discard c n incoming ≡ some c')
        × IsLinked c'
        × Ready c' incoming chunk
        × (c'.by_time ≡ erase a c.by_time)
        × (c'.cache_limit ≡ c.cache_limit)
        × (c'.id ≡ c.id)
  discard_lem c a n incoming chunk v at few ready =
      let (r, entry, _) = v.listed a n at in
      (
        discarded c v a n r at entry incoming,
        discard-eq c v a n r at entry incoming few,
        discarded-IsLinked c v a n r at entry incoming,
        discarded-Ready c v a n r at entry incoming chunk ready,
        ground arith,
        ground arith,
        ground arith,
      )
