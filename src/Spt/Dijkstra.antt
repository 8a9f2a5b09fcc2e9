-- ===== src/Spt/Dijkstra.antt =====
-- `dijkstra` of SPTsBroadcastLayer.cc, to all nodes.
--
-- A length and a distance are natural numbers, and `top` is `INFINITE_DISTANCE`: no distance in the table
-- is past it, so that a sum past it is never less than one, rest it is where the sum is infinite. Lengths
-- are added exactly: a negative length, and the rounding of `double`, are not modelled. `none` is a read
-- at `heap_pos` -1, or fuel that ran out.
use ccnpl_sim.Prelude.{
  ℕ, zero, suc, ◌+◌, ◌==◌, ltb, if◌then◌else◌, List, [], ◌∷◌, Option, none, some,
}
use ccnpl_sim.Spt.Heap.{Heap, Element, write, new_heap, decrease_dist, insert, pop_first}
use ccnpl_sim.Spt.Table.{Adj, NTable}

-- An element of the predecessor table, `none` for `NIL_NID`.
pub record PLink : Type 0 where
  pub prev : Option ℕ
  pub dist : ℕ

-- The queue, and the row of the table for the root.
pub record Search : Type 0 where
  pub heap : Heap
  pub row : ℕ → PLink

-- The first loop: all nodes are in the queue.
unfoldable pub fill : ℕ → ℕ → ℕ → Heap
fill top root zero = new_heap top
fill top root (suc j) = insert (fill top root j) (if j == root then 0 else top) j

-- A row before the search.
unfoldable pub start_row : ℕ → ℕ → ℕ → PLink
start_row top root =
    write (λ v. record { prev = none; dist = top }) root (record { prev = some root; dist = 0 })

-- The relaxation of one edge.
unfoldable pub relax : Element → Adj → Search → Option Search
relax lower a s =
    if ltb (lower.dist + a.len) (s.row a.nid).dist
    then (elim (s.heap.heap_pos a.nid) [
      | none ↦ none
      | some i ↦ some (record {
        heap = decrease_dist s.heap i (lower.dist + a.len);
        row = write s.row a.nid (record { prev = some lower.node; dist = lower.dist + a.len });
      })
    ])
    else some s

unfoldable pub relax_all : Element → List Adj → Search → Option Search
relax_all lower [] s = some s
relax_all lower (a ∷ rest) s = elim (relax lower a s) [
  | none ↦ none
  | some s' ↦ relax_all lower rest s'
]

-- The second loop. The fuel is one more than the size of the queue, for the last test of the loop.
unfoldable pub search : ℕ → NTable → Search → Option Search
search zero t s = none
search (suc fuel) t s =
    if ltb 0 s.heap.size
    then (let (lower, heap) = pop_first s.heap in
        elim (relax_all lower (t.adj lower.node) (record s { heap = heap })) [
          | none ↦ none
          | some s' ↦ search fuel t s'
        ])
    else some s

unfoldable pub dijkstra : ℕ → NTable → ℕ → Option (ℕ → PLink)
unfolding start_row
dijkstra top t root =
    elim (search (suc t.size) t
      (record { heap = fill top root t.size; row = start_row top root })) [
        | none ↦ none
        | some s ↦ some s.row
      ]
