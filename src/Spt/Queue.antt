-- ===== src/Spt/Queue.antt =====
-- The operations of the heap of SPTsBroadcastLayer.cc as those of a priority queue: a map from nodes
-- to distances.
use ccnpl_sim.Prelude.{
  ℕ, zero, suc, ◌-◌, ◌≤◌, ◌<◌, ◌≡◌, ◌≢◌, refl, subst, ◌∙◌, ltb, ◌==◌, if◌then◌else◌, Bool-cases,
  Option-cases, inl, inr, none, some, arith,
}
use ccnpl_sim.Spt.Heap.{
  Heap, Element, write, parent, swap_elements, smallest, new_heap, move_element, heapify,
  decrease_dist, insert, pop_first,
}
use ccnpl_sim.Spt.Order.{key, queued, IsPlaced, IsOrdered, IsMoved, IsRising, IsSinking, rise_lem}
use ccnpl_sim.Spt.Sink.{heapify_lem}

-- A heap in order, in which elements and places point to each other.
pub record IsQueue (h : Heap) : Type 0 where
  pub places : IsPlaced h
  pub ordered : IsOrdered h

pub new_heap-IsQueue : (top : ℕ) → IsQueue (new_heap top)
unfolding new_heap
new_heap-IsQueue top = record {
  places = record { placed = λ i p. absurd (omega arith); back = λ v i e. cc };
  ordered = λ c p q. absurd (omega arith);
}

-- A node that is not in the heap is inserted under its distance, and nothing else changes.
pub insert_lem :
    (h : Heap) (k v : ℕ)
    → IsQueue h
    → h.heap_pos v ≡ none
    → IsQueue (insert h k v)
      × ((insert h k v).size ≡ suc h.size)
      × ((u : ℕ) → queued (insert h k v) u ≡ (if u == v then some k else queued h u))
unfolding insert
insert_lem h k v q new =
    let g : Heap = record h {
      size = suc h.size;
      elems = write h.elems h.size (record { dist = k; node = v });
      heap_pos = write h.heap_pos v (some h.size);
    } in
    let places : IsPlaced g = record {
      placed = λ i p. ground (arith, q.places.placed i);
      back = λ u i e. ground (arith, q.places.back u i);
    } in
    let rising : IsRising g h.size = record {
      inside = omega arith;
      edges = λ c p r ne. ground (arith, q.ordered c p);
      bridged = λ c p r e t. absurd (omega arith);
    } in
    let (o, m) = rise_lem (suc h.size) g h.size (omega arith) places rising in
    (
      record { places = m.places; ordered = o },
      m.same_size,
      λ u. elim (Option-cases (h.heap_pos u)) [
        | inl gone ↦ ground (arith, m.same u, gone)
        | inr (i, at) ↦ ground (arith, m.same u, at, q.places.back u i at)
      ],
    )

-- The distance of a node in the heap becomes the smaller one, and nothing else changes.
pub decrease_dist_lem :
    (h : Heap) (i k v : ℕ)
    → IsQueue h
    → h.heap_pos v ≡ some i
    → IsQueue (decrease_dist h i k)
      × ((decrease_dist h i k).size ≡ h.size)
      × ((u : ℕ)
          → queued (decrease_dist h i k) u
            ≡ (if u == v then some (if ltb k (key h i) then k else key h i) else queued h u))
unfolding decrease_dist
decrease_dist_lem h i k v q at = elim (Bool-cases (ltb k (key h i))) [
  | inr not_less ↦ rw not_less (q, refl, λ u. ground (arith, at))
  | inl less ↦
      let g : Heap = record h { elems = write h.elems i (record (h.elems i) { dist = k }) } in
      let places : IsPlaced g = record {
        placed = λ j p. ground (arith, q.places.placed j p);
        back = λ u j e. ground (arith, q.places.back u j e);
      } in
      let rising : IsRising g i = record {
        inside = (q.places.back v i at).0;
        edges = λ c p r ne. ground (arith, q.ordered c p r);
        bridged = λ c p r e t. ground (arith, q.ordered c p r, q.ordered i t, q.places.back v i at);
      } in
      let (o, m) = rise_lem (suc i) g i (omega arith) places rising in
      rw less (
        record { places = m.places; ordered = o },
        m.same_size,
        λ u. elim (Option-cases (h.heap_pos u)) [
          | inl gone ↦ ground (arith, m.same u, gone, at)
          | inr (j, there) ↦
              ground (arith, m.same u, there, at, q.places.back u j there, q.places.back v i at)
        ],
      )
]

root_least_below :
    (fuel : ℕ) (h : Heap) (i : ℕ) → IsOrdered h → i < fuel → i < h.size → key h 0 ≤ key h i
root_least_below zero h i o f p = absurd (omega arith)
root_least_below (suc fuel) h i o f p = ground (arith, o i, root_least_below fuel h (parent i) o)

-- What `pop_first` yields.
pub record Popped (h : Heap) (e : Element) (h' : Heap) : Type 0 where
  pub from : queued h e.node ≡ some e.dist
  pub least : (u d : ℕ) → queued h u ≡ some d → e.dist ≤ d
  pub queue : IsQueue h'
  pub one_less : suc h'.size ≡ h.size
  pub rest : (u : ℕ) → queued h' u ≡ (if u == e.node then none else queued h u)

-- A heap in which a node has no place.
abbrev without : ℕ → Heap → Heap
without v h = record h { heap_pos = write h.heap_pos v none }

swap-without :
    (h : Heap) (x y v : ℕ)
    → (h.elems x).node ≢ v
    → (h.elems y).node ≢ v
    → swap_elements (without v h) x y ≡ without v (swap_elements h x y)
unfolding swap_elements
swap-without h x y v nx ny = λ i. record (swap_elements h x y) { heap_pos = λ u. same u i }
  where
    same :
        (u : ℕ)
        → (swap_elements (without v h) x y).heap_pos u
          ≡ (without v (swap_elements h x y)).heap_pos u
    same u = ground arith

heapify-without :
    (fuel : ℕ) (h : Heap) (i v : ℕ)
    → i < h.size
    → ((j : ℕ) → j < h.size → (h.elems j).node ≢ v)
    → heapify fuel (without v h) i ≡ without v (heapify fuel h i)
unfolding heapify smallest swap_elements
heapify-without zero h i v p absent = refl
heapify-without (suc fuel) h i v p absent =
    let s = smallest h i in
    elim (Bool-cases (s == i)) [
      | inl settled ↦ rw settled refl
      | inr down ↦
          let inside : s < h.size = ground (arith, down) in
          rw (down, swap-without h i s v (absent i p) (absent s inside))
            (heapify-without fuel (swap_elements h i s) s v inside
              (λ j l. ground (arith, absent j l, absent i p, absent s inside)))
    ]

root_least : (h : Heap) → IsQueue h → (u d : ℕ) → queued h u ≡ some d → key h 0 ≤ d
root_least h q u d e = elim (Option-cases (h.heap_pos u)) [
  | inl gone ↦ ground (arith, gone)
  | inr (i, at) ↦
      ground
        (arith, at, root_least_below (suc i) h i q.ordered (omega arith) (q.places.back u i at).0)
]

-- The heap with its last element at the root, whose node has left.
abbrev replaced : Heap → Heap
replaced h =
    let last = h.size - 1 in
    without (h.elems 0).node (move_element (record h { size = last }) (h.elems last) 0)

replaced-IsPlaced : (h : Heap) → IsQueue h → 1 < h.size → IsPlaced (replaced h)
unfolding move_element
replaced-IsPlaced h q more =
    let at_root = q.places.placed 0 (omega arith) in
    let at_last = q.places.placed (h.size - 1) (omega arith) in
    record {
      placed = λ i p. ground (arith, q.places.placed i, at_root, at_last);
      back = λ u i e. ground (arith, q.places.back u i, at_root, at_last);
    }

replaced-IsSinking : (h : Heap) → IsQueue h → IsSinking (replaced h) 0
unfolding move_element
replaced-IsSinking h q = record {
  edges = λ c p l ne. ground (arith, q.ordered c p);
  bridged = λ c p l e t. absurd (omega arith);
}

replaced-queued :
    (h : Heap)
    → IsQueue h
    → 1 < h.size
    → (u : ℕ) → queued (replaced h) u ≡ (if u == (h.elems 0).node then none else queued h u)
unfolding move_element
replaced-queued h q more u =
    let at_last = q.places.placed (h.size - 1) (omega arith) in
    elim (Option-cases (h.heap_pos u)) [
      | inl gone ↦ ground (arith, gone, at_last)
      | inr (i, at) ↦ ground (arith, at, q.places.back u i at, q.places.placed 0, at_last)
    ]

-- Of a heap that is not empty and in order, `pop_first` takes a node of the least distance, leaves the other
-- nodes with their distances, and the heap in order.
pub pop_first-Popped :
    (h : Heap) → IsQueue h → 0 < h.size → Popped h (pop_first h).0 (pop_first h).1
unfolding pop_first move_element
pop_first-Popped h q some_left =
    let root = (h.elems 0).node in
    let at_root = q.places.placed 0 some_left in
    elim (Bool-cases (ltb 1 h.size)) [
      | inr single ↦ rw single (record {
        from = ground (arith, at_root);
        least = root_least h q;
        queue = record {
          places = record {
            placed = λ i p. absurd (ground arith);
            back = λ u i e. absurd (ground (arith, q.places.back u i, at_root));
          };
          ordered = λ c p l. absurd (ground arith);
        };
        one_less = omega (arith, some_left);
        rest = λ u. elim (Option-cases (h.heap_pos u)) [
          | inl gone ↦ ground (arith, gone)
          | inr (i, at) ↦ ground (arith, at, q.places.back u i at)
        ];
      })
      | inl more ↦
          let last = h.size - 1 in
          let g : Heap = move_element (record h { size = last }) (h.elems last) 0 in
          let same =
            heapify-without (suc last) g 0 root (ground arith)
              (λ j l. ground (arith, at_root, q.places.placed j, q.places.placed last)) in
          let (o, m) =
            subst (λ f. IsOrdered f × IsMoved (replaced h) f) same
              (heapify_lem (suc last) (replaced h) 0 (omega arith) (ground arith)
                (replaced-IsPlaced h q (ground arith)) (replaced-IsSinking h q)) in
          rw more (record {
            from = ground (arith, at_root);
            least = root_least h q;
            queue = record { places = m.places; ordered = o };
            one_less = ground (arith, m.same_size);
            rest = λ u. m.same u ∙ replaced-queued h q (ground arith) u;
          })
    ]
