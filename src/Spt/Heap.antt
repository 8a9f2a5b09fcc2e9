-- ===== src/Spt/Heap.antt =====
-- `min_ndescr_heap` of SPTsBroadcastLayer.cc: a binary heap of node descriptors by distance.
--
-- An array is a function of the index, of which the heap uses the first `size` places. A pointer to a
-- descriptor is the index of its node, and the `heap_pos` of the descriptors stands beside the heap,
-- `none` for -1. A distance is a natural number.
use ccnpl_sim.Prelude.{
  ℕ, zero, suc, ◌+◌, ◌-◌, ◌*◌, ◌/◌, ◌==◌, ltb, if◌then◌else◌, ◌&&◌, Option, none, some,
}

-- `element`.
pub record Element : Type 0 where
  pub dist : ℕ
  pub node : ℕ

pub record Heap : Type 0 where
  pub size : ℕ
  pub elems : ℕ → Element
  pub heap_pos : ℕ → Option ℕ

-- A write at an index.
abbrev pub write {ℓ} : {A : Type ℓ} → (ℕ → A) → ℕ → A → ℕ → A
write f i a j = if j == i then a else f j

-- The heap of no element.
unfoldable pub new_heap : ℕ → Heap
new_heap top = record {
  size = 0;
  elems = λ i. record { dist = top; node = 0 };
  heap_pos = λ v. none;
}

abbrev pub parent : ℕ → ℕ
parent i = (i - 1) / 2

-- `move_element`.
unfoldable pub move_element : Heap → Element → ℕ → Heap
move_element h e pos = record h {
  elems = write h.elems pos e;
  heap_pos = write h.heap_pos e.node (some pos);
}

unfoldable pub swap_elements : Heap → ℕ → ℕ → Heap
swap_elements h x y = record h {
  elems = write (write h.elems x (h.elems y)) y (h.elems x);
  heap_pos = write (write h.heap_pos (h.elems y).node (some x)) (h.elems x).node (some y);
}

-- The smallest of an element and its children.
unfoldable pub smallest : Heap → ℕ → ℕ
smallest h i =
    let l = 2 * i + 1 in
    let r = 2 * i + 2 in
    let s = if ltb l h.size && ltb (h.elems l).dist (h.elems i).dist then l else i in
    if ltb r h.size && ltb (h.elems r).dist (h.elems s).dist then r else s

-- `heapify`. The fuel is more than the places behind the index.
unfoldable pub heapify : ℕ → Heap → ℕ → Heap
heapify zero h i = h
heapify (suc fuel) h i =
    let s = smallest h i in
    let sunk = heapify fuel (swap_elements h i s) s in if s == i then h else sunk

-- `decrease_dist(int)`. The fuel is more than the index.
unfoldable pub rise : ℕ → Heap → ℕ → Heap
rise zero h i = h
rise (suc fuel) h i =
    let risen = rise fuel (swap_elements h i (parent i)) (parent i) in
    if ltb 0 i && ltb (h.elems i).dist (h.elems (parent i)).dist then risen else h

-- `decrease_dist(int, Dist)`.
unfoldable pub decrease_dist : Heap → ℕ → ℕ → Heap
unfolding rise
decrease_dist h i k =
    if ltb k (h.elems i).dist
    then rise (suc i) (record h { elems = write h.elems i (record (h.elems i) { dist = k }) }) i
    else h

unfoldable pub insert : Heap → ℕ → ℕ → Heap
unfolding rise
insert h k v =
    rise (suc h.size)
      (record h {
        size = suc h.size;
        elems = write h.elems h.size (record { dist = k; node = v });
        heap_pos = write h.heap_pos v (some h.size);
      })
      h.size

-- `pop_first` of a heap that is not empty.
unfoldable pub pop_first : Heap → Element × Heap
unfolding heapify move_element
pop_first h =
    let last = h.size - 1 in
    let shrunk = record h { size = last } in
    let rest =
      if ltb 1 h.size
      then heapify (suc last) (move_element shrunk (h.elems last) 0) 0
      else shrunk in
    (h.elems 0, record rest { heap_pos = write rest.heap_pos (h.elems 0).node none })
