-- ===== src/Tests/Routes.antt =====
-- Runs of the shortest-path trees of SPTsBroadcastLayer.cc, and the theorems on them at these inputs.
use ccnpl_sim.Prelude.{
  ℕ, suc, ◌<◌, ◌≡◌, refl, if◌then◌else◌, ◌==◌, List, [], ◌∷◌, Option, none, some, arith, ◌++◌,
  length,
}
use ccnpl_sim.Spt.Heap.{Heap, Element, new_heap, insert, decrease_dist, pop_first}
use ccnpl_sim.Spt.Order.{queued}
use ccnpl_sim.Spt.Queue.{IsQueue, new_heap-IsQueue, insert_lem, Popped, pop_first-Popped}
use ccnpl_sim.Spt.Table.{Edge, NTable, new_table, add_edges}
use ccnpl_sim.Spt.Graph.{IsGraph, new_table-IsGraph, add_edges-IsGraph}
use ccnpl_sim.Spt.Entered.{between, first_between, or_else, between-add_edges}
use ccnpl_sim.Spt.Dijkstra.{PLink, dijkstra}
use ccnpl_sim.Spt.Shortest.{IsShortest, dijkstra-IsShortest}
use ccnpl_sim.Spt.Single.{dijkstra_to, IsPath, dijkstra_to-IsPath}
use ccnpl_sim.Spt.Alternative.{remaining, AlternativePaths, compute_alternative_paths}
use ccnpl_sim.Spt.Numbering.{loops, IsWithin, IsLoopless}
use ccnpl_sim.Spt.Disjoint.{compute_alternative_paths_total}
use mathlib.Core.List.{Memᴰ}
use mathlib.Core.List.Memᴰ.{head, tail}
use ccnpl_sim.Spt.Layer.{Layer, add_link, compute_trees, get_parent, get_children, get_hop_count}

abbrev edge : ℕ → ℕ → ℕ → Edge
edge from to len = record { from = from; to = to; len = len }

-- The way from 7 to 9 over 8 is shorter than the link between them, and 5 is apart.
abbrev square : List Edge
square = edge 7 8 1 ∷ edge 7 9 5 ∷ edge 8 9 2 ∷ edge 7 9 1 ∷ edge 5 5 0 ∷ []

abbrev square_layer : Layer
square_layer = record { nodes = 5 ∷ 7 ∷ 8 ∷ 9 ∷ []; input = square }

abbrev square_reads : Option (Option ℕ × Option ℕ × Option ℕ × List ℕ × Option ℕ)
square_reads = elim (compute_trees 1000 square_layer) [
  | none ↦ none
  | some s ↦ some (
    get_parent s 7 9,
    get_parent s 9 7,
    get_hop_count s 9 7,
    get_children s 7 8,
    get_parent s 5 7,
  )
]

square_reads_lem : square_reads ≡ some (some 8, some 8, some 2, 9 ∷ [], none)
unfolding compute_trees get_parent get_children get_hop_count ccnpl_sim.Spt.Layer.compute_rows
    add_edges ccnpl_sim.Spt.Table.add_edge new_table dijkstra ccnpl_sim.Spt.Dijkstra.search
    ccnpl_sim.Spt.Dijkstra.fill insert new_heap ccnpl_sim.Spt.Dijkstra.relax_all pop_first
    ccnpl_sim.Spt.Dijkstra.relax ccnpl_sim.Spt.Heap.smallest decrease_dist
    ccnpl_sim.Spt.Heap.swap_elements ccnpl_sim.Spt.Layer.link_node ccnpl_sim.Spt.Layer.link_pair
    ccnpl_sim.Mst.Layer.insert ccnpl_sim.Spt.Dijkstra.start_row ccnpl_sim.Spt.Heap.heapify
    ccnpl_sim.Spt.Heap.move_element ccnpl_sim.Spt.Heap.rise ccnpl_sim.Spt.Layer.add_child
    ccnpl_sim.Spt.Layer.first_hop ccnpl_sim.Spt.Layer.for_each ccnpl_sim.Spt.Layer.link_at
    ccnpl_sim.Spt.Layer.set_link ccnpl_sim.Spt.Layer.update ccnpl_sim.Spt.Table.add_adj
    ccnpl_sim.Spt.Table.add_node ccnpl_sim.Spt.Table.connect
square_reads_lem = refl

-- On the square, where 7 is node 0 and 9 node 2.
abbrev square_table : NTable
square_table = add_edges square new_table

square_IsGraph : IsGraph square_table
square_IsGraph = add_edges-IsGraph square new_table new_table-IsGraph

square_size : square_table.size ≡ 4
unfolding add_edges ccnpl_sim.Spt.Table.add_edge ccnpl_sim.Spt.Table.add_node
    ccnpl_sim.Spt.Table.connect new_table
square_size = refl

add_edges-IsGraph_example : IsGraph (add_edges square new_table)
add_edges-IsGraph_example = add_edges-IsGraph square new_table new_table-IsGraph

between-add_edges_example :
    between (add_edges square new_table) 9 7
    ≡ or_else (between new_table 9 7) (first_between square 9 7)
between-add_edges_example = between-add_edges square new_table new_table-IsGraph 9 7

dijkstra-IsShortest_example :
    (row : ℕ → PLink) × (dijkstra 1000 square_table 0 ≡ some row)
    × IsShortest 1000 square_table 0 row
dijkstra-IsShortest_example =
    dijkstra-IsShortest 1000 square_table square_IsGraph.closed 0 (omega (arith, square_size))

dijkstra_to-IsPath_example :
    (es : List Edge) × (dijkstra_to 1000 square_table 0 2 ≡ some es)
    × IsPath 1000 square_table 0 2 es
dijkstra_to-IsPath_example =
    dijkstra_to-IsPath 1000 square_table square_IsGraph.closed 0 2 (omega (arith, square_size))
      (omega (arith, square_size))

-- A queue with a node at distance 3 and one at distance 1.
abbrev two_queued : Heap
two_queued = insert (insert (new_heap 1000) 3 0) 1 1

abbrev one_queued : Heap
one_queued = insert (new_heap 1000) 3 0

fresh_0 : (new_heap 1000).heap_pos 0 ≡ none
unfolding new_heap
fresh_0 = refl

fresh_1 : one_queued.heap_pos 1 ≡ none
unfolding insert new_heap ccnpl_sim.Spt.Heap.rise
fresh_1 = refl

one_queued_lem :
    IsQueue one_queued
    × (one_queued.size ≡ suc (new_heap 1000).size)
    × ((u : ℕ) → queued one_queued u ≡ (if u == 0 then some 3 else queued (new_heap 1000) u))
one_queued_lem = insert_lem (new_heap 1000) 3 0 (new_heap-IsQueue 1000) fresh_0

two_queued_lem :
    IsQueue two_queued
    × (two_queued.size ≡ suc one_queued.size)
    × ((u : ℕ) → queued two_queued u ≡ (if u == 1 then some 1 else queued one_queued u))
two_queued_lem = insert_lem one_queued 1 1 one_queued_lem.0 fresh_1

pop_first-Popped_example : Popped two_queued (pop_first two_queued).0 (pop_first two_queued).1
pop_first-Popped_example =
    pop_first-Popped two_queued two_queued_lem.0 (omega (arith, two_queued_lem.1))

-- Nodes 0 to 2 with links between all of them; the link between 0 and 1 is explored.
abbrev triangle_links : List Edge
triangle_links = edge 0 1 1 ∷ edge 1 2 1 ∷ edge 2 0 1 ∷ []

triangle-IsWithin : IsWithin 3 triangle_links
triangle-IsWithin e (head q) = ground (arith, q)
triangle-IsWithin e (tail (head q)) = ground (arith, q)
triangle-IsWithin e (tail (tail (head q))) = ground (arith, q)
triangle-IsWithin e (tail (tail (tail m))) = elim m [ ]

explored-IsLoopless : IsLoopless (edge 1 0 0 ∷ [])
explored-IsLoopless e (head q) = ground (arith, q)
explored-IsLoopless e (tail m) = elim m [ ]

few : length (remaining (edge 1 0 0 ∷ []) (loops 0 3 ++ triangle_links)) < 6
unfolding remaining
few = omega arith

compute_alternative_paths_total_example :
    (paths' : AlternativePaths) × (compute_alternative_paths 6 1000
        (loops 0 3 ++ triangle_links)
        (edge 1 0 0 ∷ [])
        0
        1
        2
        (λ _ _ _. none)
      ≡ some paths')
compute_alternative_paths_total_example =
    compute_alternative_paths_total 1000 3 triangle_links triangle-IsWithin 0 1 (omega arith)
      (omega arith) 6 (edge 1 0 0 ∷ []) explored-IsLoopless few 2 (λ _ _ _. none)

-- Without nodes that are entered first, the node ids are not process ids: what is found beside the link
-- between 0 and 1 is that link.
lost_path_lem :
    dijkstra_to 1000 (add_edges (remaining (edge 1 0 0 ∷ []) triangle_links) new_table) 0 1
    ≡ some (edge 1 0 0 ∷ [])
unfolding dijkstra_to remaining ccnpl_sim.Spt.Single.search_to ccnpl_sim.Spt.Single.follow add_edges
    ccnpl_sim.Spt.Table.add_edge new_table ccnpl_sim.Spt.Dijkstra.fill insert new_heap
    ccnpl_sim.Spt.Dijkstra.relax_all pop_first ccnpl_sim.Spt.Dijkstra.relax
    ccnpl_sim.Spt.Heap.smallest decrease_dist ccnpl_sim.Spt.Heap.swap_elements
    ccnpl_sim.Spt.Dijkstra.start_row ccnpl_sim.Spt.Heap.heapify ccnpl_sim.Spt.Heap.move_element
    ccnpl_sim.Spt.Heap.rise ccnpl_sim.Spt.Table.add_adj ccnpl_sim.Spt.Table.add_node
    ccnpl_sim.Spt.Table.connect
lost_path_lem = refl
