-- ===== src/Cache/Added.antt =====
-- A chunk added at the back of a cache (the ends of `search_by_name` and `add_in_cache` in
-- CacheLRU.cc and CacheRND.cc): the two stores still point into each other.
use ccnpl_sim.Prelude.{
  ℕ, suc, ◌+◌, ◌/◌, ◌≤◌, ◌≡◌, ◌≢◌, refl, ◌∙◌, ◌⊎◌, Bool-cases, inl, inr, [], ◌∷◌, ◌++◌, none, some,
  Text, text_eq, text_eq_iff, text_eq_refl, get_elem?, set, get_elem?-set_ne, arith,
}
use ccnpl_sim.Packets.{Data}
use ccnpl_sim.Cache.Nodes.{Node, lookup, name_of, chunk_of, total, count}
use ccnpl_sim.Cache.Nodes
use ccnpl_sim.Cache.Bitmap.{get_elem?-set-some, get_elem?-set_at}
use ccnpl_sim.Cache.Store.{Store, ContentRecord, assign}
use ccnpl_sim.Cache.Invariant.{IsLinked}

module _ {M X : Type 0} where
  -- `r` can serve as the entry of the chunk's content, and its place for the chunk is free.
  pub record IsFree (c : Store M X) (d : Data M) (r : ContentRecord) : Type 0 where
    pub counted : r.stored_chunk ≡ count d.content_name c.by_time
    pub pointed :
        (i a : ℕ)
        → get_elem? r.chunk_bitmap i ≡ some (some a)
        → (n : Node M X) × (lookup a c.by_time ≡ some n)
          × (name_of n ≡ d.content_name)
          × (chunk_of n ≡ i)
    pub only : (s : ContentRecord) → c.by_name d.content_name ≡ some s → s ≡ r
    pub free : get_elem? r.chunk_bitmap d.chunk_id ≡ some none

  abbrev pub new_node : Store M X → Data M → X → Node M X
  new_node c d now = record {
    address = c.next;
    stamp = now;
    data_packet = d;
    name_it = d.content_name;
  }

  abbrev pub added : Store M X → Data M → X → ContentRecord → Store M X
  added c d now r = record c {
    cache_size = c.cache_size + d.size / 1000;
    by_time = c.by_time ++ new_node c d now ∷ [];
    by_name = assign c.by_name d.content_name (
        some (record {
          stored_chunk = r.stored_chunk + 1;
          chunk_bitmap = set r.chunk_bitmap d.chunk_id (some c.next);
        }));
    search_it = some d.content_name;
    next = suc c.next;
  }

  module _ (c : Store M X) (v : IsLinked c) (d : Data M) (now : X) (r : ContentRecord)
      (f : IsFree c d r) where
    abbrev filled : ContentRecord
    filled = record {
      stored_chunk = r.stored_chunk + 1;
      chunk_bitmap = set r.chunk_bitmap d.chunk_id (some c.next);
    }

    abbrev c' : Store M X
    c' = added c d now r

    split :
        (b : ℕ) (m : Node M X)
        → lookup b c'.by_time ≡ some m
        → ((b ≡ c.next) × (new_node c d now ≡ m)) ⊎ (lookup b c.by_time ≡ some m)
    split b m e =
        ground (arith, Nodes.lookup-append b 0 c.next c.by_time (new_node c d now) v.rising refl)

    old : (b : ℕ) (m : Node M X) → lookup b c.by_time ≡ some m → lookup b c'.by_time ≡ some m
    old b m e = ground (
      arith,
      Nodes.lookup-append b 0 c.next c.by_time (new_node c d now) v.rising refl,
      Nodes.lookup_bounds b 0 c.next c.by_time m v.rising e,
    )

    newest : lookup c.next c'.by_time ≡ some (new_node c d now)
    newest =
        ground
          (arith, Nodes.lookup-append c.next 0 c.next c.by_time (new_node c d now) v.rising refl)

    named_added : (b : ℕ) (m : Node M X) → lookup b c'.by_time ≡ some m → m.name_it ≡ name_of m
    named_added b m e = ground (arith, split b m e, v.named b m)

    listed_added :
        (b : ℕ) (m : Node M X)
        → lookup b c'.by_time ≡ some m
        → (s : ContentRecord) × (c'.by_name (name_of m) ≡ some s)
          × (get_elem? s.chunk_bitmap (chunk_of m) ≡ some (some b))
    listed_added b m e = elim (split b m e) [
      | inl (at, new) ↦ (
        filled,
        ground (arith, text_eq_refl d.content_name),
        ground (arith, get_elem?-set_at r.chunk_bitmap d.chunk_id (some c.next) none f.free),
      )
      | inr kept ↦
          let (s, es, ps) = v.listed b m kept in
          elim (Bool-cases (text_eq d.content_name (name_of m))) [
            | inl same ↦
                let same' = (text_eq_iff d.content_name (name_of m)).0 same in
                let j : d.chunk_id ≢ chunk_of m = λ q. ground (arith, f.only s, f.free) in
                (
                  filled,
                  rw same,
                  rw (get_elem?-set_ne r.chunk_bitmap (some c.next) j) (ground (arith, f.only s)),
                )
            | inr other ↦ (s, rw other es, ps)
          ]
    ]

    pointed_added :
        (name : Text) (s : ContentRecord) (i b : ℕ)
        → c'.by_name name ≡ some s
        → get_elem? s.chunk_bitmap i ≡ some (some b)
        → (m : Node M X) × (lookup b c'.by_time ≡ some m) × (name_of m ≡ name) × (chunk_of m ≡ i)
    pointed_added name s i b es ps = elim (Bool-cases (text_eq d.content_name name)) [
      | inl same ↦
          let same' = (text_eq_iff d.content_name name).0 same in
          let ps' : get_elem? (set r.chunk_bitmap d.chunk_id (some c.next)) i ≡ some (some b) =
            ground arith in
          elim (get_elem?-set-some r.chunk_bitmap d.chunk_id c.next i b ps') [
            | inl (here, new) ↦ (new_node c d now, ground (arith, newest), same', here)
            | inr (_, kept) ↦
                let (m, em, nm, cm) = f.pointed i b kept in (m, old b m em, nm ∙ same', cm)
          ]
      | inr other ↦
          let (m, em, nm, cm) = v.pointed name s i b (ground arith) ps in (m, old b m em, nm, cm)
    ]

    counted_added :
        (name : Text) (s : ContentRecord)
        → c'.by_name name ≡ some s
        → s.stored_chunk ≡ count name c'.by_time
    counted_added name s es = elim (Bool-cases (text_eq d.content_name name)) [
      | inl same ↦ ground (
        arith,
        (text_eq_iff d.content_name name).0 same,
        Nodes.count-append name c.by_time (new_node c d now),
        f.counted,
      )
      | inr other ↦
          ground (arith, v.counted name s, Nodes.count-append name c.by_time (new_node c d now))
    ]

    pub added-IsLinked : c.cache_size + d.size / 1000 ≤ c.cache_limit → IsLinked (added c d now r)
    added-IsLinked fits = record {
      rising = Nodes.Rising-append 0 c.next c.by_time (new_node c d now) refl v.rising;
      named = named_added;
      listed = listed_added;
      pointed = pointed_added;
      counted = counted_added;
      sized = omega (arith, v.sized, Nodes.total-append c.by_time (new_node c d now));
      limited = fits;
      word = v.word;
    }
