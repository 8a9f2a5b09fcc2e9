-- ===== src/Spt/Sink.antt =====
-- `heapify` of SPTsBroadcastLayer.cc and the order of the heap.
use ccnpl_sim.Prelude.{
  ℕ, zero, suc, ◌-◌, ◌≤◌, ◌<◌, ◌≡◌, refl, ◌==◌, Bool-cases, inl, inr, false, arith,
}
use ccnpl_sim.Spt.Heap.{Heap, parent, swap_elements, smallest, heapify}
use ccnpl_sim.Spt.Order.{
  key, IsPlaced, IsOrdered, IsMoved, IsMoved-trans, IsSinking, key-swap, swap-size, swap-IsMoved,
}

-- The child that sinking goes to, if it is not the place itself.
record IsSmallest (h : Heap) (i s : ℕ) : Type 0 where
  child : (s == i) ≡ false → (s < h.size) × (parent s ≡ i) × (0 < s) × (key h s < key h i)
  least : (c : ℕ) → 0 < c → c < h.size → parent c ≡ i → key h s ≤ key h c
  own : key h s ≤ key h i

smallest-IsSmallest : (h : Heap) (i : ℕ) → IsSmallest h i (smallest h i)
unfolding smallest
smallest-IsSmallest h i = record {
  child = λ ne. ground arith;
  least = λ c p q e. ground arith;
  own = ground arith;
}

swap-IsSinking :
    (h : Heap) (i s : ℕ)
    → IsPlaced h
    → i < h.size
    → IsSinking h i
    → IsSmallest h i s
    → (s == i) ≡ false
    → IsSinking (swap_elements h i s) s
swap-IsSinking h i s v inside r m ne =
    let (hs, at_parent, pos, below) = m.child ne in
    let at = key-swap h i s v inside hs in
    let size = swap-size h i s v inside hs in
    record {
      edges = λ c p q other. ground (
        arith,
        at c,
        at (parent c),
        size,
        r.edges c p,
        r.bridged c p,
        m.least c p,
        r.edges i,
        r.bridged s,
      );
      bridged = λ c p q e t. ground (arith, at c, at (parent s), size, r.edges c p, m.least c p);
    }

pub heapify_lem :
    (fuel : ℕ) (h : Heap) (i : ℕ)
    → h.size - i < fuel
    → i < h.size
    → IsPlaced h
    → IsSinking h i
    → IsOrdered (heapify fuel h i) × IsMoved h (heapify fuel h i)
unfolding heapify
heapify_lem zero h i f inside v r = absurd (omega arith)
heapify_lem (suc fuel) h i f inside v r =
    let s = smallest h i in
    let m = smallest-IsSmallest h i in
    elim (Bool-cases (s == i)) [
      | inl settled ↦ rw settled (
        (λ c p q. ground (arith, r.edges c p q, m.least c p q, settled)),
        record { places = v; same_size = refl; same = λ u. refl },
      )
      | inr down ↦
          let (hs, at_parent, pos, below) = m.child down in
          let moved = swap-IsMoved h i s v inside hs (ground arith) in
          let (o, w) =
            heapify_lem fuel (swap_elements h i s) s (omega (arith, swap-size h i s v inside hs))
              (omega (arith, swap-size h i s v inside hs)) moved.places
              (swap-IsSinking h i s v inside r m down) in
          rw down (o, IsMoved-trans moved w)
    ]
