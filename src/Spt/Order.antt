-- ===== src/Spt/Order.antt =====
-- The order of the heap of SPTsBroadcastLayer.cc, and the places of its nodes.
use ccnpl_sim.Prelude.{
  ℕ, zero, suc, ◌≤◌, ◌<◌, ◌≡◌, ◌≢◌, refl, ◌∙◌, ltb, ◌==◌, if◌then◌else◌, ◌&&◌, Bool-cases,
  Option-cases, inl, inr, Option, none, some, arith,
}
use ccnpl_sim.Spt.Heap.{Heap, parent, swap_elements, rise}

abbrev pub key : Heap → ℕ → ℕ
key h i = (h.elems i).dist

-- The distance under which a node is in the heap.
abbrev pub queued : Heap → ℕ → Option ℕ
queued h v = elim (h.heap_pos v) [ none ↦ none | some i ↦ some (key h i) ]

-- Elements and places point to each other.
pub record IsPlaced (h : Heap) : Type 0 where
  pub placed : (i : ℕ) → i < h.size → h.heap_pos (h.elems i).node ≡ some i
  pub back : (v i : ℕ) → h.heap_pos v ≡ some i → (i < h.size) × ((h.elems i).node ≡ v)

abbrev pub IsOrdered : Heap → Type 0
IsOrdered h = (c : ℕ) → 0 < c → c < h.size → key h (parent c) ≤ key h c

-- What a movement of elements leaves: the nodes with their distances.
pub record IsMoved (h h' : Heap) : Type 0 where
  pub places : IsPlaced h'
  pub same_size : h'.size ≡ h.size
  pub same : (v : ℕ) → queued h' v ≡ queued h v

pub IsMoved-trans : {h i j : Heap} → IsMoved h i → IsMoved i j → IsMoved h j
IsMoved-trans p q = record {
  places = q.places;
  same_size = q.same_size ∙ p.same_size;
  same = λ v. q.same v ∙ p.same v;
}

module _ (h : Heap) (x y : ℕ) (v : IsPlaced h) (hx : x < h.size) (hy : y < h.size) where
  pub key-swap :
      (c : ℕ)
      → key (swap_elements h x y) c
        ≡ (if c == y then key h x else if c == x then key h y else key h c)
  unfolding swap_elements
  key-swap c = ground arith

  pub swap-size : (swap_elements h x y).size ≡ h.size
  unfolding swap_elements
  swap-size = refl

  pub swap-IsMoved : x ≢ y → IsMoved h (swap_elements h x y)
  unfolding swap_elements
  swap-IsMoved ne = record {
    places = record {
      placed = λ i p. ground (arith, v.placed i, v.placed x hx, v.placed y hy, ne);
      back = λ u i e. ground (arith, v.back u i, v.placed x hx, v.placed y hy, ne);
    };
    same_size = refl;
    same = λ u. elim (Option-cases (h.heap_pos u)) [
      | inl gone ↦ ground (arith, gone, v.placed x hx, v.placed y hy)
      | inr (i, at) ↦ ground (arith, at, v.back u i, v.placed x hx, v.placed y hy)
    ];
  }

-- Every edge but the one above `i` is in order, and so are the edges past `i`.
pub record IsRising (h : Heap) (i : ℕ) : Type 0 where
  pub inside : i < h.size
  pub edges : (c : ℕ) → 0 < c → c < h.size → c ≢ i → key h (parent c) ≤ key h c
  pub bridged : (c : ℕ) → 0 < c → c < h.size → parent c ≡ i → 0 < i → key h (parent i) ≤ key h c

-- Every edge but those below `i` is in order, and so are the edges past `i`.
pub record IsSinking (h : Heap) (i : ℕ) : Type 0 where
  pub edges : (c : ℕ) → 0 < c → c < h.size → parent c ≢ i → key h (parent c) ≤ key h c
  pub bridged : (c : ℕ) → 0 < c → c < h.size → parent c ≡ i → 0 < i → key h (parent i) ≤ key h c

swap-IsRising :
    (h : Heap) (i : ℕ)
    → IsPlaced h
    → IsRising h i
    → 0 < i
    → key h i < key h (parent i)
    → IsRising (swap_elements h i (parent i)) (parent i)
swap-IsRising h i v r pos below =
    let above : parent i < h.size = omega (arith, r.inside) in
    let at = key-swap h i (parent i) v r.inside above in
    let size = swap-size h i (parent i) v r.inside above in
    record {
      inside = omega (arith, size, above);
      edges = λ c p q ne.
          ground (arith, at c, at (parent c), size, r.edges c p, r.edges i, r.bridged c p);
      bridged = λ c p q e t.
          ground (arith, at c, at (parent (parent i)), size, r.edges c p, r.edges (parent i));
    }

pub rise_lem :
    (fuel : ℕ) (h : Heap) (i : ℕ)
    → i < fuel
    → IsPlaced h
    → IsRising h i
    → IsOrdered (rise fuel h i) × IsMoved h (rise fuel h i)
unfolding rise
rise_lem zero h i f v r = absurd (omega arith)
rise_lem (suc fuel) h i f v r = elim (Bool-cases (ltb 0 i && ltb (key h i) (key h (parent i)))) [
  | inl up ↦
      let above : parent i < h.size = omega (arith, r.inside) in
      let moved = swap-IsMoved h i (parent i) v r.inside above (ground arith) in
      let (o, m) =
        rise_lem fuel (swap_elements h i (parent i)) (parent i) (ground arith) moved.places
          (swap-IsRising h i v r (ground arith) (ground arith)) in
      rw up (o, IsMoved-trans moved m)
  | inr settled ↦ rw settled (
    (λ c p q. ground (arith, r.edges c p q)),
    record { places = v; same_size = refl; same = λ u. refl },
  )
]
