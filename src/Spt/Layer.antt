-- ===== src/Spt/Layer.antt =====
-- `SPTsBroadcastLayer` of SPTsBroadcastLayer.cc: the trees that `computePaths` builds from the rows of
-- `dijkstra`, and their reading. `none` is a read at `NIL_NID`, or fuel that ran out.
--
-- A map from process ids is a function, `none` where it has no entry.
use ccnpl_sim.Prelude.{
  ℕ, zero, suc, ◌-◌, ◌==◌, if◌then◌else◌, List, [], ◌∷◌, ◌++◌, Option, none, some,
}
use mathlib.Core.Option
use ccnpl_sim.Mst.Layer.{insert}
use ccnpl_sim.Spt.Heap.{write}
use ccnpl_sim.Spt.Table.{Edge, NTable, new_table, add_edges}
use ccnpl_sim.Spt.Dijkstra.{PLink, dijkstra}

-- The layer before `computePaths`; the nodes are in order.
pub record Layer : Type 0 where
  pub nodes : List ℕ
  pub input : List Edge

-- `none` is `NULL_PROCESSID`, and a hop count that is not set.
pub record BLink : Type 0 where
  pub prev : Option ℕ
  pub next : List ℕ
  pub hop_count : Option ℕ

abbrev pub Paths : Type 0
Paths = ℕ → Option (ℕ → Option BLink)

unfoldable pub add_link : Layer → ℕ → ℕ → ℕ → Layer
add_link s from to length = record {
  nodes = insert to (insert from s.nodes);
  input = s.input ++ (record { from = from; to = to; len = length } ∷ []);
}

unfoldable pub add_node : Layer → ℕ → Layer
add_node s p = record {
  nodes = insert p s.nodes;
  input = s.input ++ (record { from = p; to = p; len = 0 } ∷ []);
}

abbrev pub no_link : BLink
no_link = record { prev = none; next = []; hop_count = none }

unfoldable pub link_at : Paths → ℕ → ℕ → Option BLink
link_at paths r v = elim (paths r) [ none ↦ none | some b ↦ b v ]

-- `paths[r][v]`, which puts in a new link where there is none, and a write to it.
unfoldable pub update : Paths → ℕ → ℕ → (BLink → BLink) → Paths
unfolding link_at
update paths r v f = write paths r (
    some (
      write (Option.get_or (paths r) (λ _. none)) v
        (some (f (Option.get_or (link_at paths r v) no_link)))))

unfoldable pub set_link : Paths → ℕ → ℕ → ℕ → ℕ → Paths
set_link paths r v prev hop_count =
    update paths r v (λ l. record l { prev = some prev; hop_count = some hop_count })

unfoldable pub add_child : Paths → ℕ → ℕ → ℕ → Paths
add_child paths r v child = update paths r v (λ l. record l { next = insert child l.next })

-- `from`, and the numbers behind it.
abbrev pub range : ℕ → ℕ → List ℕ
range from zero = []
range from (suc n) = from ∷ range (suc from) n

-- A loop whose body may fail.
unfoldable pub for_each {ℓ} : {S : Type ℓ} → List ℕ → (ℕ → S → Option S) → S → Option S
for_each [] body s = some s
for_each (i ∷ is) body s = elim (body i s) [ none ↦ none | some s' ↦ for_each is body s' ]

-- The predecessor table after the searches from all nodes.
unfoldable pub compute_rows : ℕ → NTable → ℕ → Option (ℕ → ℕ → PLink)
compute_rows top t zero = some (λ i v. record { prev = none; dist = top })
compute_rows top t (suc i) = elim (compute_rows top t i) [
  | none ↦ none
  | some rows ↦ elim (dijkstra top t i) [ none ↦ none | some row ↦ some (write rows i row) ]
]

-- The loop that counts the hops: the node behind `i` on the path to a node, and the number of hops. The
-- fuel is the number of nodes.
unfoldable pub first_hop : ℕ → (ℕ → PLink) → ℕ → ℕ → ℕ → Option (ℕ × ℕ)
first_hop zero row i node hop_count = none
first_hop (suc fuel) row i node hop_count = elim ((row node).prev) [
  | none ↦ none
  | some prev ↦
      let on = first_hop fuel row i prev (suc hop_count) in
      if prev == i then some (node, hop_count) else on
]

-- The body of the inner loop of `computePaths`.
unfoldable pub link_pair : NTable → (ℕ → ℕ → PLink) → ℕ → ℕ → Paths → Option Paths
unfolding set_link add_child
link_pair t rows i j paths = elim ((rows i j).prev) [
  | none ↦ some paths
  | some prev_ij ↦ elim (first_hop t.size (rows i) i j 1) [
    | none ↦ none
    | some (prev_ji, hop_count) ↦
        let p₁ = set_link paths (t.pid i) (t.pid j) (t.pid prev_ij) hop_count in
        let p₂ = add_child p₁ (t.pid i) (t.pid prev_ij) (t.pid j) in
        let p₃ = set_link p₂ (t.pid j) (t.pid i) (t.pid prev_ji) hop_count in
        some (add_child p₃ (t.pid j) (t.pid prev_ji) (t.pid i))
  ]
]

-- The body of the outer loop.
unfoldable pub link_node : NTable → (ℕ → ℕ → PLink) → ℕ → Paths → Option Paths
unfolding set_link for_each
link_node t rows i paths =
    for_each (range (suc i) (t.size - suc i)) (link_pair t rows i)
      (set_link paths (t.pid i) (t.pid i) (t.pid i) 0)

-- `computePaths` up to the loop over alternative paths.
unfoldable pub compute_trees : ℕ → Layer → Option Paths
unfolding for_each
compute_trees top s =
    let t = add_edges s.input new_table in
    elim (compute_rows top t t.size) [
      | none ↦ none
      | some rows ↦ for_each (range 0 t.size) (link_node t rows) (λ _. none)
    ]

unfoldable pub get_children : Paths → ℕ → ℕ → List ℕ
get_children paths root node = elim (link_at paths root node) [ none ↦ [] | some l ↦ l.next ]

-- `none` is `NULL_PROCESSID`.
unfoldable pub get_parent : Paths → ℕ → ℕ → Option ℕ
get_parent paths root node = elim (link_at paths root node) [ none ↦ none | some l ↦ l.prev ]

-- `none` is -1.
unfoldable pub get_hop_count : Paths → ℕ → ℕ → Option ℕ
get_hop_count paths from to = elim (link_at paths to from) [ none ↦ none | some l ↦ l.hop_count ]
