-- ===== src/Cache/Recency.antt =====
-- The abstract cache: chunks by content name and chunk id, the least recently used first.
use ccnpl_sim.Prelude.{
  ℕ, zero, suc, ◌+◌, ◌%◌, ◌/◌, ◌≤◌, ◌≡◌, refl, Bool, true, false, ◌&&◌, ◌||◌, ◌==◌, leb,
  if◌then◌else◌, Bool-cases, inl, inr, List, [], ◌∷◌, ◌++◌, Option, none, some, Text, text_eq,
  text_eq_iff, get_elem?, length, arith,
}
use ccnpl_sim.Packets.{Data}
use ccnpl_sim.Cache.Nodes.{Node, lookup, erase, name_of, chunk_of, total, Rising}
use ccnpl_sim.Cache.Nodes

-- A stored chunk and its room.
pub record Item : Type 0 where
  pub name : Text
  pub chunk : ℕ
  pub room : ℕ

abbrev pub is_item : Text → ℕ → Item → Bool
is_item name chunk x = text_eq x.name name && (x.chunk == chunk)

abbrev pub has : Text → ℕ → List Item → Bool
has name chunk [] = false
has name chunk (x ∷ xs) = is_item name chunk x || has name chunk xs

abbrev pub remove : Text → ℕ → List Item → List Item
remove name chunk [] = []
remove name chunk (x ∷ xs) = if is_item name chunk x then xs else x ∷ remove name chunk xs

abbrev pub total_room : List Item → ℕ
total_room [] = 0
total_room (x ∷ xs) = x.room + total_room xs

-- A use: the chunk goes to the back, if it is there.
abbrev pub use_item : Item → List Item → List Item
use_item x l = if has x.name x.chunk l then remove x.name x.chunk l ++ x ∷ [] else l

-- The least recently used chunks go until there is room for `need`.
abbrev pub evict : ℕ → ℕ → List Item → List Item
evict limit need [] = []
evict limit need (x ∷ xs) =
    if leb (total_room (x ∷ xs) + need) limit then x ∷ xs else evict limit need xs

-- An insertion: of a chunk that is there, a use; of another, at the back, after the evictions.
abbrev pub insert_item : ℕ → Item → List Item → List Item
insert_item limit x l =
    if has x.name x.chunk l then use_item x l else evict limit x.room l ++ x ∷ []

-- The chunk at a position goes.
abbrev pub erase_at : ℕ → List Item → List Item
erase_at k [] = []
erase_at zero (x ∷ xs) = xs
erase_at (suc k) (x ∷ xs) = x ∷ erase_at k xs

-- Chunks at the positions that random numbers choose go until there is room for `need`; `none` if
-- the numbers run out or no chunk is left.
abbrev pub evict_random : ℕ → ℕ → List ℕ → List Item → Option (List Item)
evict_random limit need [] l = if leb (total_room l + need) limit then some l else none
evict_random limit need (r ∷ rs) l =
    let rest = evict_random limit need rs (erase_at (r % length l) l) in
    if leb (total_room l + need) limit then some l else rest

-- A new chunk at the back, after the evictions that the random numbers choose.
abbrev pub insert_random : ℕ → Item → List ℕ → List Item → Option (List Item)
insert_random limit x rs l = elim (evict_random limit x.room rs l) [
  | none ↦ none
  | some kept ↦ some (kept ++ x ∷ [])
]

pub evict_fits :
    (limit need : ℕ) (l : List Item) → total_room l + need ≤ limit → evict limit need l ≡ l
evict_fits limit need [] h = refl
evict_fits limit need (x ∷ xs) h = ground arith

abbrev pub item_of_data : {M : Type 0} → Data M → Item
item_of_data d = record { name = d.content_name; chunk = d.chunk_id; room = d.size / 1000 }

module _ {M X : Type 0} where
  abbrev pub items : List (Node M X) → List Item
  items [] = []
  items (n ∷ ns) = item_of_data n.data_packet ∷ items ns

  pub items-append :
      (l : List (Node M X)) (n : Node M X)
      → items (l ++ n ∷ []) ≡ items l ++ item_of_data n.data_packet ∷ []
  items-append [] n = refl
  items-append (m ∷ ms) n = rw (items-append ms n)

  pub total_room-items : (l : List (Node M X)) → total_room (items l) ≡ total l
  total_room-items [] = refl
  total_room-items (n ∷ ns) = omega (arith, total_room-items ns)

  -- What a lookup finds is an item.
  pub has-lookup :
      (a : ℕ) (l : List (Node M X)) (n : Node M X)
      → lookup a l ≡ some n
      → has (name_of n) (chunk_of n) (items l) ≡ true
  unfolding lookup
  has-lookup a [] n e = cc
  has-lookup a (m ∷ ms) n e =
      ground (arith, has-lookup a ms n, (text_eq_iff (name_of n) (name_of n)).1 refl)

  -- An item is found by the address of some node.
  pub lookup-has :
      (name : Text) (chunk lo hi : ℕ) (l : List (Node M X))
      → Rising lo hi l
      → has name chunk (items l) ≡ true
      → (a : ℕ) × (n : Node M X) × (lookup a l ≡ some n) × (name_of n ≡ name) × (chunk_of n ≡ chunk)
  lookup-has name chunk lo hi [] r h = cc
  lookup-has name chunk lo hi (n ∷ ns) r h =
      elim (Bool-cases (is_item name chunk (item_of_data n.data_packet))) [
        | inl here ↦ (
          n.address,
          n,
          Nodes.lookup_front n ns,
          ground (arith, text_eq_iff (name_of n) name),
          ground arith,
        )
        | inr there ↦
            let (a, m, e, en, ec) =
              lookup-has name chunk (suc n.address) hi ns r.1 (ground arith) in
            (a, m, Nodes.lookup_tail a lo hi n m ns r e, en, ec)
      ]

  -- To erase the only node of a chunk is to remove the chunk.
  pub items-erase :
      (a lo hi : ℕ) (l : List (Node M X)) (n : Node M X)
      → Rising lo hi l
      → lookup a l ≡ some n
      → ((b : ℕ) (m : Node M X)
          → lookup b l ≡ some m
          → name_of m ≡ name_of n
          → chunk_of m ≡ chunk_of n
          → b ≡ a)
      → items (erase a l) ≡ remove (name_of n) (chunk_of n) (items l)
  unfolding lookup erase
  items-erase a lo hi [] n r e only = cc
  items-erase a lo hi (m ∷ ms) n r e only = elim (Bool-cases (m.address == a)) [
    | inl here ↦ ground (arith, (text_eq_iff (name_of n) (name_of n)).1 refl)
    | inr there ↦
        let e' : lookup a ms ≡ some n = ground arith in
        let ih =
          items-erase a (suc m.address) hi ms n r.1 e'
            (λ b k f p q. only b k (Nodes.lookup_tail b lo hi m k ms r f) p q) in
        ground (
          arith,
          ih,
          text_eq_iff (name_of m) (name_of n),
          only m.address m (Nodes.lookup_front m ms),
        )
  ]

  -- To erase the node at a position is to erase the item at that position.
  pub items-erase_at :
      (k lo hi : ℕ) (l : List (Node M X)) (n : Node M X)
      → Rising lo hi l
      → get_elem? l k ≡ some n
      → (lookup n.address l ≡ some n) × (items (erase n.address l) ≡ erase_at k (items l))
  unfolding lookup erase
  items-erase_at k lo hi [] n r e = cc
  items-erase_at zero lo hi (m ∷ ms) n r e = (ground arith, ground arith)
  items-erase_at (suc k) lo hi (m ∷ ms) n r e =
      let (found, erased) = items-erase_at k (suc m.address) hi ms n r.1 e in
      let (above, _, _) = Nodes.lookup_bounds n.address (suc m.address) hi ms n r.1 found in
      (ground arith, ground arith)
