-- ===== src/Spt/Alternative.antt =====
-- `computeAlternativePaths` and `getNext` of SPTsBroadcastLayer.cc, and the loop of `computePaths` over the
-- pairs of nodes. `none` is a fault, or fuel that ran out.
use ccnpl_sim.Prelude.{
  ℕ, zero, suc, ◌-◌, ◌==◌, if◌then◌else◌, Bool, false, ◌&&◌, ◌||◌, List, [], ◌∷◌, ◌++◌, Option,
  none, some,
}
use ccnpl_sim.Spt.Heap.{write}
use ccnpl_sim.Spt.Table.{Edge, new_table, add_edges}
use ccnpl_sim.Spt.Single.{dijkstra_to}
use ccnpl_sim.Spt.Layer.{Layer, Paths, link_at, range, for_each, compute_trees}

-- A link of a path is that of the edge, in the one direction or the other.
abbrev pub in_path : List Edge → Edge → Bool
in_path [] e = false
in_path (j ∷ js) e =
    ((j.from == e.from && j.to == e.to) || (j.from == e.to && j.to == e.from)) || in_path js e

-- The edges of the auxiliary graph.
unfoldable pub remaining : List Edge → List Edge → List Edge
remaining explored [] = []
remaining explored (e ∷ es) =
    if in_path explored e then remaining explored es else e ∷ remaining explored es

-- `BOneWay`: the next node, by node.
abbrev pub BOneWay : Type 0
BOneWay = ℕ → Option ℕ

abbrev pub AlternativePaths : Type 0
AlternativePaths = ℕ → ℕ → ℕ → Option BOneWay

-- The loop over the links of a new path: the next nodes in the two directions.
unfoldable pub record_path : List Edge → BOneWay × BOneWay → BOneWay × BOneWay
record_path [] ways = ways
record_path (e ∷ es) (ij, ji) =
    record_path es (write ij e.to (some e.from), write ji e.from (some e.to))

-- `alternative_paths.insert`, which leaves what is there.
unfoldable pub insert_path : ℕ → ℕ → ℕ → BOneWay → AlternativePaths → AlternativePaths
insert_path from to number way paths = elim (paths from to number) [
  | some _ ↦ paths
  | none ↦ write paths from (write (paths from) to (write (paths from to) number (some way)))
]

-- `computeAlternativePaths`. The fuel is more than the number of edges.
unfoldable pub compute_alternative_paths :
    ℕ → ℕ → List Edge → List Edge → ℕ → ℕ → ℕ → AlternativePaths → Option AlternativePaths
unfolding insert_path record_path
compute_alternative_paths zero top input explored from to number paths = none
compute_alternative_paths (suc fuel) top input explored from to number paths =
    elim (dijkstra_to top (add_edges (remaining explored input) new_table) from to) [
      | none ↦ none
      | some [] ↦ some paths
      | some (e ∷ es) ↦
          let (ij, ji) = record_path (e ∷ es) ((λ _. none), (λ _. none)) in
          compute_alternative_paths fuel top input (explored ++ (e ∷ es)) from to (suc number)
            (insert_path to from number ji (insert_path from to number ij paths))
    ]

-- The path between two nodes in the tree of the first. The fuel is the number of nodes.
unfoldable pub explored_path : ℕ → Paths → ℕ → ℕ → Option (List Edge)
unfolding link_at
explored_path zero trees i from = none
explored_path (suc fuel) trees i from =
    let rest = explored_path fuel trees i in
    if from == i then some [] else (elim (link_at trees i from) [
      | none ↦ none
      | some l ↦ elim (l.prev) [
        | none ↦ none
        | some to ↦ elim (rest to) [
          | none ↦ none
          | some es ↦ some (record { from = from; to = to; len = 0 } ∷ es)
        ]
      ]
    ])

-- The body of the loop over pairs: `i` and `j` are taken for process ids.
unfoldable pub alternatives_of :
    ℕ → ℕ → ℕ → List Edge → Paths → ℕ → ℕ → AlternativePaths → Option AlternativePaths
unfolding explored_path link_at
alternatives_of fuel top size input trees i j paths =
    let go : List Edge → Option AlternativePaths =
      λ explored. compute_alternative_paths fuel top input explored i j 2 paths in
    elim (trees i) [
      | none ↦ none
      | some b ↦ elim (b j) [
        | none ↦ go []
        | some l ↦ elim (l.prev) [
          | none ↦ go []
          | some _ ↦ elim (explored_path size trees i j) [ none ↦ none | some es ↦ go es ]
        ]
      ]
    ]

-- `computePaths`.
unfoldable pub compute_paths : ℕ → ℕ → Layer → AlternativePaths → Option (Paths × AlternativePaths)
unfolding for_each compute_trees alternatives_of
compute_paths fuel top s paths =
    let size = (add_edges s.input new_table).size in
    elim (compute_trees top s) [
      | none ↦ none
      | some trees ↦
          elim (for_each (range 0 size)
            (λ i.
              for_each (range (suc i) (size - suc i))
                (alternatives_of fuel top size s.input trees i))
            paths) [ none ↦ none | some paths' ↦ some (trees, paths') ]
    ]

-- `none` is `NULL_PROCESSID`.
unfoldable pub get_next : AlternativePaths → ℕ → ℕ → ℕ → ℕ → Option ℕ
get_next paths from to current_node path_number = elim (paths from to path_number) [
  | none ↦ none
  | some b ↦ b current_node
]
