-- ===== src/Cache/Nodes.antt =====
-- The linked list of cached chunks, `store_by_time_LRU` and `store_by_chunk_RND`.
--
-- A node has an address, which is what an iterator to it holds. Addresses are given out in order
-- and nodes are added at the back only, so they grow along the list.
use ccnpl_sim.Prelude.{
  ℕ, suc, ◌+◌, ◌/◌, ◌≤◌, ◌<◌, ◌≡◌, refl, ◌==◌, if◌then◌else◌, true, false, List, [], ◌∷◌, ◌++◌,
  Option, none, some, Text, text_eq, length, arith,
}
use ccnpl_sim.Packets.{Data}

-- `time_LRU_record` and `chunk_RND_record`: `X` is the time of the last use, or nothing.
pub record Node (M X : Type 0) : Type 0 where
  pub address : ℕ
  pub stamp : X
  pub data_packet : Data M
  -- The iterator to the entry of the content, by its key.
  pub name_it : Text

module _ {M X : Type 0} where
  unfoldable pub lookup : ℕ → List (Node M X) → Option (Node M X)
  lookup a [] = none
  lookup a (n ∷ ns) = if n.address == a then some n else lookup a ns

  -- `list::erase` at an iterator.
  unfoldable pub erase : ℕ → List (Node M X) → List (Node M X)
  erase a [] = []
  erase a (n ∷ ns) = if n.address == a then ns else n ∷ erase a ns

module _ {M X : Type 0} where
  abbrev pub name_of : Node M X → Text
  name_of n = n.data_packet.content_name

  abbrev pub chunk_of : Node M X → ℕ
  chunk_of n = n.data_packet.chunk_id

  -- The room that the chunks take, in units of 1000 bits, each rounded down.
  abbrev pub total : List (Node M X) → ℕ
  total [] = 0
  total (n ∷ ns) = n.data_packet.size / 1000 + total ns

  abbrev pub count : Text → List (Node M X) → ℕ
  count name [] = 0
  count name (n ∷ ns) = (if text_eq (name_of n) name then 1 else 0) + count name ns

  -- The addresses grow from `lo` on and stay below `hi`.
  abbrev pub Rising : ℕ → ℕ → List (Node M X) → Type 0
  Rising lo hi [] = lo ≤ hi
  Rising lo hi (n ∷ ns) = (lo ≤ n.address) × Rising (suc n.address) hi ns

  pub lookup_front : (n : Node M X) (l : List (Node M X)) → lookup n.address (n ∷ l) ≡ some n
  unfolding lookup
  lookup_front n l = ground arith

  pub erase_front : (n : Node M X) (l : List (Node M X)) → erase n.address (n ∷ l) ≡ l
  unfolding erase
  erase_front n l = ground arith

  pub Rising-lower :
      (lo lo' hi : ℕ) (l : List (Node M X)) → lo' ≤ lo → Rising lo hi l → Rising lo' hi l
  Rising-lower lo lo' hi [] h r = omega arith
  Rising-lower lo lo' hi (n ∷ ns) h r = (omega arith, r.1)

  pub Rising-le : (lo hi : ℕ) (l : List (Node M X)) → Rising lo hi l → lo ≤ hi
  Rising-le lo hi [] r = r
  Rising-le lo hi (n ∷ ns) r = omega (arith, Rising-le (suc n.address) hi ns r.1)

  -- What a lookup finds lies within the bounds and has the address asked for.
  pub lookup_bounds :
      (a lo hi : ℕ) (l : List (Node M X)) (n : Node M X)
      → Rising lo hi l
      → lookup a l ≡ some n
      → (lo ≤ a) × (a < hi) × (n.address ≡ a)
  unfolding lookup
  lookup_bounds a lo hi [] n r e = cc
  lookup_bounds a lo hi (m ∷ ms) n r e =
      ground
        (arith, lookup_bounds a (suc m.address) hi ms n r.1, Rising-le (suc m.address) hi ms r.1)

  pub lookup_tail :
      (a lo hi : ℕ) (n m : Node M X) (l : List (Node M X))
      → Rising lo hi (n ∷ l)
      → lookup a l ≡ some m
      → lookup a (n ∷ l) ≡ some m
  unfolding lookup
  lookup_tail a lo hi n m l r e = ground (arith, lookup_bounds a (suc n.address) hi l m r.1 e)

  pub Rising-erase : (a lo hi : ℕ) (l : List (Node M X)) → Rising lo hi l → Rising lo hi (erase a l)
  unfolding erase
  Rising-erase a lo hi [] r = r
  Rising-erase a lo hi (n ∷ ns) r =
      ground
        (arith, Rising-erase a (suc n.address) hi ns r.1, Rising-lower (suc n.address) lo hi ns)

  pub Rising-append :
      (lo hi : ℕ) (l : List (Node M X)) (n : Node M X)
      → n.address ≡ hi
      → Rising lo hi l
      → Rising lo (suc hi) (l ++ n ∷ [])
  Rising-append lo hi [] n e r = omega arith
  Rising-append lo hi (m ∷ ms) n e r = (r.0, Rising-append (suc m.address) hi ms n e r.1)

  pub lookup_below :
      (b lo hi : ℕ) (l : List (Node M X)) → Rising lo hi l → b < lo → lookup b l ≡ none
  unfolding lookup
  lookup_below b lo hi [] r h = refl
  lookup_below b lo hi (n ∷ ns) r h = ground (arith, lookup_below b (suc n.address) hi ns r.1)

  pub lookup-erase :
      (a b lo hi : ℕ) (l : List (Node M X))
      → Rising lo hi l
      → lookup b (erase a l) ≡ (if b == a then none else lookup b l)
  unfolding lookup erase
  lookup-erase a b lo hi [] r = ground arith
  lookup-erase a b lo hi (n ∷ ns) r =
      ground (
        arith,
        lookup-erase a b (suc n.address) hi ns r.1,
        lookup_below b (suc n.address) hi ns r.1,
      )

  pub lookup-append :
      (b lo hi : ℕ) (l : List (Node M X)) (n : Node M X)
      → Rising lo hi l
      → n.address ≡ hi
      → lookup b (l ++ n ∷ []) ≡ (if b == n.address then some n else lookup b l)
  unfolding lookup
  lookup-append b lo hi [] n r e = ground arith
  lookup-append b lo hi (m ∷ ms) n r e =
      ground
        (arith, lookup-append b (suc m.address) hi ms n r.1 e, Rising-le (suc m.address) hi ms r.1)

  pub count-erase :
      (a : ℕ) (name : Text) (l : List (Node M X)) (n : Node M X)
      → lookup a l ≡ some n
      → count name (erase a l) + (if text_eq (name_of n) name then 1 else 0) ≡ count name l
  unfolding lookup erase
  count-erase a name [] n e = cc
  count-erase a name (m ∷ ms) n e = ground (arith, count-erase a name ms n)

  pub count-append :
      (name : Text) (l : List (Node M X)) (n : Node M X)
      → count name (l ++ n ∷ []) ≡ count name l + (if text_eq (name_of n) name then 1 else 0)
  count-append name [] n = omega arith
  count-append name (m ∷ ms) n = omega (arith, count-append name ms n)

  pub total-erase :
      (a : ℕ) (l : List (Node M X)) (n : Node M X)
      → lookup a l ≡ some n
      → total (erase a l) + n.data_packet.size / 1000 ≡ total l
  unfolding lookup erase
  total-erase a [] n e = cc
  total-erase a (m ∷ ms) n e = ground (arith, total-erase a ms n)

  pub total-append :
      (l : List (Node M X)) (n : Node M X)
      → total (l ++ n ∷ []) ≡ total l + n.data_packet.size / 1000
  total-append [] n = omega arith
  total-append (m ∷ ms) n = omega (arith, total-append ms n)

  -- No node of a name is counted where no lookup finds one.
  pub count-eq-zero :
      (name : Text) (lo hi : ℕ) (l : List (Node M X))
      → Rising lo hi l
      → ((a : ℕ) (n : Node M X) → lookup a l ≡ some n → text_eq (name_of n) name ≡ false)
      → count name l ≡ 0
  count-eq-zero name lo hi [] r h = refl
  count-eq-zero name lo hi (n ∷ ns) r h = ground (
    arith,
    h n.address n (lookup_front n ns),
    count-eq-zero name (suc n.address) hi ns r.1 (λ a m e. h a m (lookup_tail a lo hi n m ns r e)),
  )

  pub count-le-length : (name : Text) (l : List (Node M X)) → count name l ≤ length l
  count-le-length name [] = omega arith
  count-le-length name (n ∷ ns) = ground (arith, count-le-length name ns)

  pub count-pos :
      (a : ℕ) (name : Text) (l : List (Node M X)) (n : Node M X)
      → lookup a l ≡ some n
      → text_eq (name_of n) name ≡ true
      → 0 < count name l
  unfolding lookup
  count-pos a name [] n e h = cc
  count-pos a name (m ∷ ms) n e h = ground (arith, count-pos a name ms n)

  pub length-erase :
      (a : ℕ) (l : List (Node M X)) (n : Node M X)
      → lookup a l ≡ some n
      → suc (length (erase a l)) ≡ length l
  unfolding lookup erase
  length-erase a [] n e = cc
  length-erase a (m ∷ ms) n e = ground (arith, length-erase a ms n)
