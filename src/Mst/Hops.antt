-- ===== src/Mst/Hops.antt =====
-- The search of `MSTBroadcastLayer::getHopCount` (MSTBroadcastLayer.cc) comes to its end.
use ccnpl_sim.Prelude.{
  ℕ, zero, suc, ◌+◌, ◌≤◌, ◌<◌, ◌==◌, if◌then◌else◌, Bool-cases, inl, inr, ◌≡◌, refl, true, false,
  List, [], ◌∷◌, Option, none, some, Option-cases, length, arith,
}
use ccnpl_sim.Mst.Layer.{insert, member, SetMap}
use ccnpl_sim.Mst.Spanning.{member-insert}
use ccnpl_sim.Mst.Paths.{Paths, Hops, hop_all, hop_from, get_hop_count}

-- How many of the nodes are not visited.
abbrev unvisited : List ℕ → List ℕ → ℕ
unvisited [] v = 0
unvisited (n ∷ ns) v = (if member n v then 0 else 1) + unvisited ns v

unvisited-le-length : (ns v : List ℕ) → unvisited ns v ≤ length ns
unvisited-le-length [] v = omega arith
unvisited-le-length (n ∷ ns) v = ground (arith, unvisited-le-length ns v)

unvisited-insert : (j : ℕ) (ns v : List ℕ) → unvisited ns (insert j v) ≤ unvisited ns v
unvisited-insert j [] v = omega arith
unvisited-insert j (n ∷ ns) v = ground (arith, unvisited-insert j ns v, member-insert j n v)

unvisited-insert_new :
    (j : ℕ) (ns v : List ℕ)
    → member j ns ≡ true
    → member j v ≡ false
    → unvisited ns (insert j v) < unvisited ns v
unvisited-insert_new j [] v m new = ground arith
unvisited-insert_new j (n ∷ ns) v m new = elim (Bool-cases (n == j)) [
  | inl same ↦ ground (arith, unvisited-insert j ns v, member-insert j n v)
  | inr other ↦ ground (arith, unvisited-insert_new j ns v, member-insert j n v)
]

-- Every node has an entry in the tree, whose neighbours are nodes.
abbrev pub IsClosed : SetMap → List ℕ → Type 0
IsClosed mst nodes =
    (a : ℕ)
    → member a nodes ≡ true
    → (s : List ℕ) × (mst a ≡ some s) × ((b : ℕ) → member b s ≡ true → member b nodes ≡ true)

abbrev Ends : List ℕ → List ℕ → Option Hops → Type 0
Ends nodes v o =
    (v' : List ℕ) × (h : Option ℕ) × (o ≡ some (v', h)) × (unvisited nodes v' ≤ unvisited nodes v)

hop_all-Ends :
    (nodes : List ℕ) (f : ℕ) (go : List ℕ → ℕ → Option Hops) (v js : List ℕ)
    → ((v : List ℕ) (a : ℕ) → member a nodes ≡ true → unvisited nodes v < f → Ends nodes v (go v a))
    → ((b : ℕ) → member b js ≡ true → member b nodes ≡ true)
    → unvisited nodes v ≤ f
    → Ends nodes v (hop_all go v js)
unfolding hop_all
hop_all-Ends nodes f go v [] ends sub few = (v, none, refl, omega arith)
hop_all-Ends nodes f go v (j ∷ js) ends sub few =
    let sub' : (b : ℕ) → member b js ≡ true → member b nodes ≡ true = λ b h. sub b (ground arith) in
    let j_node : member j nodes ≡ true = sub j (ground arith) in
    elim (Bool-cases (member j v)) [
      | inl seen ↦ rw seen (hop_all-Ends nodes f go v js ends sub' few)
      | inr new ↦
          let less = unvisited-insert_new j nodes v j_node new in
          let (v', h', e, le) = ends (insert j v) j j_node (omega (arith, less, few)) in
          elim (Option-cases h') [
            | inr (n, found) ↦ (v', some (suc n), ground arith, omega (arith, less, le))
            | inl far ↦
                let (v'', h, e', le') =
                  hop_all-Ends nodes f go v' js ends sub' (omega (arith, less, le, few)) in
                (v'', h, ground arith, omega (arith, less, le, le'))
          ]
    ]

hop_from-Ends :
    (fuel : ℕ) (mst : SetMap) (nodes : List ℕ) (to : ℕ) (v : List ℕ) (a : ℕ)
    → IsClosed mst nodes
    → member a nodes ≡ true
    → unvisited nodes v < fuel
    → Ends nodes v (hop_from fuel mst to v a)
unfolding hop_from
hop_from-Ends zero mst nodes to v a closed m few = ground arith
hop_from-Ends (suc fuel) mst nodes to v a closed m few =
    let (s, es, sub) = closed a m in
    elim (Bool-cases (a == to)) [
      | inl there ↦ (v, some 0, ground arith, omega arith)
      | inr apart ↦ elim (Bool-cases (member to s)) [
        | inl near ↦ (v, some 1, ground arith, omega arith)
        | inr far ↦
            let (v', h, e, le) =
              hop_all-Ends nodes fuel (hop_from fuel mst to) v s
                (λ w b mb fb. hop_from-Ends fuel mst nodes to w b closed mb fb) sub
                (omega (arith, few)) in
            (v', h, ground arith, le)
      ]
    ]

-- From a node of a tree with an entry for every node, `getHopCount` ends with a count or with -1, not
-- with an error, given one unit of fuel more than there are nodes.
pub get_hop_count_total :
    (fuel : ℕ) (s : Paths) (nodes : List ℕ) (from to : ℕ)
    → IsClosed s.mst nodes
    → member from nodes ≡ true
    → length nodes < fuel
    → (hops : Option ℕ) × (get_hop_count fuel s from to ≡ some hops)
unfolding get_hop_count
get_hop_count_total fuel s nodes from to closed m enough =
    let (v, h, e, _) =
      hop_from-Ends fuel s.mst nodes to (insert from []) from closed m
        (omega (arith, enough, unvisited-le-length nodes (insert from []))) in
    (h, ground arith)
