-- ===== src/Mst/Layer.antt =====
-- `MSTBroadcastLayer` of MSTBroadcastLayer.cc. Lengths are not negative. A map from process ids is a
-- function, `none` where it has no entry; a set of process ids is a list in order, with no repeats.
use ccnpl_sim.Prelude.{
  ℕ, zero, suc, ◌==◌, ltb, leb, if◌then◌else◌, Bool, false, ◌||◌, List, [], ◌∷◌, Option, none, some,
}
use mathlib.Core.Option

-- `set::insert`.
unfoldable pub insert : ℕ → List ℕ → List ℕ
insert a [] = a ∷ []
insert a (b ∷ bs) = if a == b then b ∷ bs else if ltb a b then a ∷ b ∷ bs else b ∷ insert a bs

abbrev pub member : ℕ → List ℕ → Bool
member a [] = false
member a (b ∷ bs) = (b == a) || member a bs

pub record WeightedLink : Type 0 where
  pub length : ℕ
  pub from : ℕ
  pub to : ℕ

abbrev pub SetMap : Type 0
SetMap = ℕ → Option (List ℕ)

abbrev pub RootMap : Type 0
RootMap = ℕ → Option ℕ

-- The state before `computePaths`: the nodes in order, the links by length.
pub record Layer : Type 0 where
  pub nodes : List ℕ
  pub links : List WeightedLink
  pub mst : SetMap

-- `multimap::insert` by length: behind the links that are not longer.
unfoldable pub insert_link : WeightedLink → List WeightedLink → List WeightedLink
insert_link l [] = l ∷ []
insert_link l (m ∷ ms) = if leb m.length l.length then m ∷ insert_link l ms else l ∷ m ∷ ms

-- `addLink` and `addNode`.
unfoldable pub add_link : Layer → ℕ → ℕ → ℕ → Layer
add_link s from to length = record s {
  links = insert_link (record { length = length; from = from; to = to }) s.links;
}

unfoldable pub add_node : Layer → ℕ → Layer
add_node s id = record s { nodes = insert id s.nodes }

-- The first loop of `computePaths`: every node is its own root, and has no neighbour.
unfoldable pub start_roots : List ℕ → RootMap → RootMap
start_roots [] roots = roots
start_roots (n ∷ ns) roots = start_roots ns (λ k. if k == n then some n else roots k)

unfoldable pub start_mst : List ℕ → SetMap → SetMap
start_mst [] mst = mst
start_mst (n ∷ ns) mst = start_mst ns (λ k. if k == n then some [] else mst k)

-- `roots[n]`, which puts in 0 where there is no entry.
unfoldable pub root_of : RootMap → ℕ → ℕ
root_of roots n = Option.get_or (roots n) 0

unfoldable pub touch : RootMap → ℕ → RootMap
unfolding root_of
touch roots n k = if k == n then some (root_of roots n) else roots k

-- The inner loop: what had the one root has the other.
unfoldable pub relabel : RootMap → ℕ → ℕ → RootMap
relabel roots from to k = Option.map (λ r. if r == from then to else r) (roots k)

-- `m_mst[a].insert( b )`.
unfoldable pub add_neighbour : SetMap → ℕ → ℕ → SetMap
add_neighbour mst a b k = if k == a then some (insert b (Option.get_or (mst a) [])) else mst k

-- The loop of `computePaths` over the links.
unfoldable pub join_links : List WeightedLink → RootMap → SetMap → RootMap × SetMap
join_links [] roots mst = (roots, mst)
join_links (l ∷ ls) roots mst =
    let roots' = touch (touch roots l.from) l.to in
    let r1 = root_of roots' l.from in
    let r2 = root_of roots' l.to in
    join_links ls (if r1 == r2 then roots' else relabel roots' r2 r1)
      (if r1 == r2 then mst else add_neighbour (add_neighbour mst l.from l.to) l.to l.from)

-- The spanning tree of `computePaths`, with the roots that it ends with.
unfoldable pub spanning : Layer → RootMap × SetMap
spanning s = join_links s.links (start_roots s.nodes (λ _. none)) (start_mst s.nodes s.mst)

-- `visit`: the depth-first walk, from the neighbours on. It returns the nodes visited, the children
-- and the parents; `none` if the fuel runs out or a node has no entry in the tree.
abbrev pub Walk : Type 0
Walk = List ℕ × SetMap × RootMap

unfoldable pub visit_all : (Walk → ℕ → Option Walk) → ℕ → Walk → List ℕ → Option Walk
visit_all go node w [] = some w
visit_all go node (visited, children, parents) (i ∷ is) =
    if member i visited
    then visit_all go node (visited, children, parents) is
    else (elim (go
        (visited, add_neighbour children node i, (λ k. if k == i then some node else parents k))
        i) [ none ↦ none | some w ↦ visit_all go node w is ])

unfoldable pub visit : ℕ → SetMap → Walk → ℕ → Option Walk
visit zero mst w node = none
visit (suc fuel) mst (visited, children, parents) node = elim (mst node) [
  | none ↦ none
  | some neighbours ↦
      visit_all (visit fuel mst) node (insert node visited, children, parents) neighbours
]
