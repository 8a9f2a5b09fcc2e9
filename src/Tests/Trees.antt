-- ===== src/Tests/Trees.antt =====
-- The tree of MSTBroadcastLayer.cc for a triangle and a node apart.
use ccnpl_sim.Prelude.{
  arith, Option, Bool-cases, inl, inr, ◌≡◌, some, ◌==◌, if◌then◌else◌, ℕ, refl, ◌↔◌, List, [], ◌∷◌,
  none,
}
use ccnpl_sim.Mst.Layer.{insert, WeightedLink, spanning}
use ccnpl_sim.Mst.Paths.{Paths, get_hop_count, hop_from, hop_all, Steps, get_hop_count-Steps}
use ccnpl_sim.Mst.Hops.{IsClosed, get_hop_count_total}
use ccnpl_sim.Mst.Spanning.{Route, LinkIn, Adjacent, Acyclic, spanning-connects}

abbrev sides : List WeightedLink
sides =
    record { length = 1; from = 1; to = 2 }
    ∷ record { length = 2; from = 3; to = 2 }
    ∷ record { length = 5; from = 1; to = 3 }
    ∷ []

spanning-connects_example :
    let tree =
      (spanning (record { nodes = 1 ∷ 2 ∷ 3 ∷ 4 ∷ []; links = sides; mst = λ _. none })).1 in
    (Route (LinkIn sides) 1 3 ↔ Route (Adjacent tree) 1 3)
    × ((x y : ℕ) → Adjacent tree x y → LinkIn sides x y)
    × Acyclic (Adjacent tree)
spanning-connects_example =
    spanning-connects (1 ∷ 2 ∷ 3 ∷ 4 ∷ []) sides 1 3 (refl, refl, (refl, refl, (refl, refl, tt)))

-- The triangle's nodes with the tree of its two shorter sides.
abbrev triangle : Paths
triangle = record {
  layer = record {
    nodes = [];
    links = [];
    mst = λ k.
        if k == 1
        then some (2 ∷ [])
        else if k == 2
        then some (1 ∷ 3 ∷ [])
        else if k == 3
        then some (2 ∷ [])
        else none;
  };
  children = λ _. none;
  parents = λ _. none;
}

triangle-IsClosed : IsClosed triangle.mst (1 ∷ 2 ∷ 3 ∷ [])
triangle-IsClosed a m = elim (Bool-cases (a == 1)) [
  | inl e ↦ (2 ∷ [], ground arith, λ b h. ground arith)
  | inr n ↦ elim (Bool-cases (a == 2)) [
    | inl e ↦ (1 ∷ 3 ∷ [], ground arith, λ b h. ground arith)
    | inr n' ↦ (2 ∷ [], ground arith, λ b h. ground arith)
  ]
]

get_hop_count_total_example : (hops : Option ℕ) × (get_hop_count 4 triangle 1 3 ≡ some hops)
get_hop_count_total_example =
    get_hop_count_total 4 triangle (1 ∷ 2 ∷ 3 ∷ []) 1 3 triangle-IsClosed refl (omega arith)

get_hop_count-Steps_example : Steps triangle.mst 2 1 3
unfolding get_hop_count hop_from hop_all insert
get_hop_count-Steps_example = get_hop_count-Steps 4 triangle 1 3 2 refl
