-- ===== src/Cache/Store.antt =====
-- What CacheLRU.cc and CacheRND.cc share: the two stores of a cache, which point into each other.
use ccnpl_sim.Prelude.{
  ℕ, suc, ◌/◌, ◌==◌, not, if◌then◌else◌, ◌&&◌, List, [], ◌∷◌, ◌++◌, Option, none, some, Text,
  text_eq, get_elem?, set, replicate, add32, sub32,
}
use ccnpl_sim.Packets.{Data}
use ccnpl_sim.Cache.Nodes.{Node, erase}

-- `content_record`: an entry of the bitmap is the address of a node, or `none` for the list's end.
pub record ContentRecord : Type 0 where
  pub stored_chunk : ℕ
  pub chunk_bitmap : List (Option ℕ)

-- `Cache` with the fields of `CacheLRU` or `CacheRND`.
pub record Store (M X : Type 0) : Type 0 where
  pub id : ℕ
  pub cache_size : ℕ
  pub cache_limit : ℕ
  pub by_time : List (Node M X)
  pub by_name : Text → Option ContentRecord
  -- `content_bitmap_search`, `none` for the end of the map.
  pub search_it : Option Text
  -- The address of the next node.
  pub next : ℕ

-- `unordered_map::insert` or an assignment through an iterator, and `erase`.
abbrev pub assign :
    (Text → Option ContentRecord) → Text → Option ContentRecord → Text → Option ContentRecord
assign m name r other = if text_eq name other then r else m other

module _ {M X : Type 0} where
  -- An empty cache.
  unfoldable pub new_store : ℕ → ℕ → Store M X
  new_store id limit = record {
    id = id;
    cache_size = 0;
    cache_limit = limit;
    by_time = [];
    by_name = λ _. none;
    search_it = none;
    next = 0;
  }

  -- The body of the eviction loop for the chosen node, while a chunk of `incoming` is to be added:
  -- the content's entry goes with its last chunk, unless it is the entry about to be used.
  unfoldable pub discard : Store M X → Node M X → Text → Option (Store M X)
  discard c n incoming = elim (c.by_name n.name_it) [
    | none ↦ none
    | some r ↦
        if (r.stored_chunk == 1) && not (text_eq n.data_packet.content_name incoming)
        then some (record c {
          cache_size = sub32 c.cache_size (n.data_packet.size / 1000);
          by_name = assign c.by_name n.name_it none;
          by_time = erase n.address c.by_time;
        })
        else (elim (get_elem? r.chunk_bitmap n.data_packet.chunk_id) [
          | none ↦ none
          | some _ ↦ some (record c {
            cache_size = sub32 c.cache_size (n.data_packet.size / 1000);
            by_name = assign c.by_name n.name_it (
                some (record {
                  stored_chunk = sub32 r.stored_chunk 1;
                  chunk_bitmap = set r.chunk_bitmap n.data_packet.chunk_id none;
                }));
            by_time = erase n.address c.by_time;
          })
        ])
  ]

  -- The entry that the insertion uses: the one that the search left, or a new one with an empty
  -- bitmap of one place for each chunk and one for chunk 0. Where the map has an entry already, the
  -- insertion fails and the iterator stays at the end.
  unfoldable pub content_entry : Store M X → Data M → Text × Option ContentRecord
  content_entry c data' = elim c.search_it [
    | some name ↦ (name, c.by_name name)
    | none ↦ (
      data'.content_name,
      (elim (c.by_name data'.content_name) [
        | some _ ↦ none
        | none ↦ some (record {
          stored_chunk = 0;
          chunk_bitmap = replicate (add32 data'.content_size 1) none;
        })
      ]),
    )
  ]

  -- The end of `add_in_cache`: a node at the back, and its address in the bitmap.
  unfoldable pub store_chunk : Store M X → Data M → X → Option (Store M X)
  unfolding content_entry
  store_chunk c data' now =
      let (name, entry) = content_entry c data' in
      (elim entry [
        | none ↦ none
        | some r ↦ (elim (get_elem? r.chunk_bitmap data'.chunk_id) [
          | none ↦ none
          | some _ ↦ some (record c {
            cache_size = add32 c.cache_size (data'.size / 1000);
            by_time =
                c.by_time
                ++ (record { address = c.next; stamp = now; data_packet = data'; name_it = name })
                  ∷ [];
            by_name = assign c.by_name name (
                some (record {
                  stored_chunk = add32 r.stored_chunk 1;
                  chunk_bitmap = set r.chunk_bitmap data'.chunk_id (some c.next);
                }));
            search_it = some name;
            next = suc c.next;
          })
        ])
      ])
