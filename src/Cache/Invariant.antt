-- ===== src/Cache/Invariant.antt =====
-- The invariant of the two stores of a cache (CacheLRU.cc, CacheRND.cc): each points into the other.
use ccnpl_sim.Prelude.{
  ℕ, ◌≤◌, ◌<◌, ◌≡◌, ◌≢◌, refl, Bool-cases, inl, inr, none, some, Text, text_eq, text_eq_iff,
  get_elem?, set, get_elem?-set_ne, u32_mod, arith,
}
use ccnpl_sim.Cache.Nodes.{Node, lookup, erase, name_of, chunk_of, total, count, Rising}
use ccnpl_sim.Cache.Nodes
use ccnpl_sim.Cache.Bitmap.{get_elem?-set-none}
use ccnpl_sim.Cache.Store.{Store, ContentRecord, assign}

module _ {M X : Type 0} where
  pub record IsLinked (c : Store M X) : Type 0 where
    pub rising : Rising 0 c.next c.by_time
    -- The iterator of a node is to the entry of its own content.
    pub named : (a : ℕ) (n : Node M X) → lookup a c.by_time ≡ some n → n.name_it ≡ name_of n
    -- Every node is where the bitmap of its content says.
    pub listed :
        (a : ℕ) (n : Node M X)
        → lookup a c.by_time ≡ some n
        → (r : ContentRecord) × (c.by_name (name_of n) ≡ some r)
          × (get_elem? r.chunk_bitmap (chunk_of n) ≡ some (some a))
    -- Every address in a bitmap is that of a node, of this content and this chunk.
    pub pointed :
        (name : Text) (r : ContentRecord) (i a : ℕ)
        → c.by_name name ≡ some r
        → get_elem? r.chunk_bitmap i ≡ some (some a)
        → (n : Node M X) × (lookup a c.by_time ≡ some n) × (name_of n ≡ name) × (chunk_of n ≡ i)
    pub counted :
        (name : Text) (r : ContentRecord)
        → c.by_name name ≡ some r
        → r.stored_chunk ≡ count name c.by_time
    -- The size is the room that the stored chunks take, within the limit.
    pub sized : c.cache_size ≡ total c.by_time
    pub limited : c.cache_size ≤ c.cache_limit
    pub word : c.cache_limit < u32_mod

  -- The entries stay pointers to the nodes when one node is taken out and its place is cleared.
  module _ (c : Store M X) (v : IsLinked c) (a : ℕ) (n : Node M X) (r : ContentRecord)
      (at : lookup a c.by_time ≡ some n) (entry : c.by_name (name_of n) ≡ some r) where
    abbrev pub cleared : ContentRecord
    cleared = record {
      stored_chunk = count (name_of n) (erase a c.by_time);
      chunk_bitmap = set r.chunk_bitmap (chunk_of n) none;
    }

    abbrev pub without : Store M X
    without = record c {
      cache_size = total (erase a c.by_time);
      by_time = erase a c.by_time;
      by_name = assign c.by_name (name_of n) (some cleared);
    }

    place : get_elem? r.chunk_bitmap (chunk_of n) ≡ some (some a)
    place = let (s, e, p) = v.listed a n at in ground arith

    kept :
        (b : ℕ) (m : Node M X)
        → lookup b (erase a c.by_time) ≡ some m
        → (b ≢ a) × (lookup b c.by_time ≡ some m)
    kept b m e = (
      ground (arith, Nodes.lookup-erase a b 0 c.next c.by_time v.rising),
      ground (arith, Nodes.lookup-erase a b 0 c.next c.by_time v.rising),
    )

    listed_without :
        (b : ℕ) (m : Node M X)
        → lookup b (erase a c.by_time) ≡ some m
        → (s : ContentRecord) × (without.by_name (name_of m) ≡ some s)
          × (get_elem? s.chunk_bitmap (chunk_of m) ≡ some (some b))
    listed_without b m e =
        let (s, es, ps) = v.listed b m (kept b m e).1 in
        elim (Bool-cases (text_eq (name_of n) (name_of m))) [
          | inl same ↦
              let j : chunk_of n ≢ chunk_of m = λ q.
                (kept b m e).0
                  (ground (arith, place, (text_eq_iff (name_of n) (name_of m)).0 same)) in
              (
                cleared,
                rw same,
                rw (get_elem?-set_ne r.chunk_bitmap none j)
                    (ground (arith, (text_eq_iff (name_of n) (name_of m)).0 same)),
              )
          | inr other ↦ (s, rw other es, ps)
        ]

    pointed_without :
        (name : Text) (s : ContentRecord) (i b : ℕ)
        → without.by_name name ≡ some s
        → get_elem? s.chunk_bitmap i ≡ some (some b)
        → (m : Node M X) × (lookup b (erase a c.by_time) ≡ some m)
          × (name_of m ≡ name)
          × (chunk_of m ≡ i)
    pointed_without name s i b es ps = elim (Bool-cases (text_eq (name_of n) name)) [
      | inl same ↦
          let same' = (text_eq_iff (name_of n) name).0 same in
          let ps' : get_elem? (set r.chunk_bitmap (chunk_of n) none) i ≡ some (some b) =
            ground arith in
          let (ne, old) = get_elem?-set-none r.chunk_bitmap (chunk_of n) i b ps' in
          let (m, em, nm, cm) = v.pointed name r i b (ground arith) old in
          (m, ground (arith, Nodes.lookup-erase a b 0 c.next c.by_time v.rising), nm, cm)
      | inr other ↦
          let (m, em, nm, cm) = v.pointed name s i b (ground arith) ps in
          (
            m,
            ground (
              arith,
              Nodes.lookup-erase a b 0 c.next c.by_time v.rising,
              (text_eq_iff (name_of n) name).1,
            ),
            nm,
            cm,
          )
    ]

    counted_without :
        (name : Text) (s : ContentRecord)
        → without.by_name name ≡ some s
        → s.stored_chunk ≡ count name (erase a c.by_time)
    counted_without name s es = elim (Bool-cases (text_eq (name_of n) name)) [
      | inl same ↦ ground (arith, (text_eq_iff (name_of n) name).0 same)
      | inr other ↦ ground (arith, v.counted name s, Nodes.count-erase a name c.by_time n at)
    ]

    pub without-IsLinked : IsLinked without
    without-IsLinked = record {
      rising = Nodes.Rising-erase a 0 c.next c.by_time v.rising;
      named = λ b m e. v.named b m (kept b m e).1;
      listed = listed_without;
      pointed = pointed_without;
      counted = counted_without;
      sized = refl;
      limited = omega (arith, v.sized, v.limited, Nodes.total-erase a c.by_time n at);
      word = v.word;
    }
