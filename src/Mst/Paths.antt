-- ===== src/Mst/Paths.antt =====
-- The rest of `MSTBroadcastLayer` (MSTBroadcastLayer.cc): the trees of each node that `computePaths`
-- keeps, `getChildren`, `getParent` and `getHopCount`. `none` is a `logic_error`, or fuel that ran out.
use ccnpl_sim.Prelude.{
  ℕ, zero, suc, ◌==◌, if◌then◌else◌, Bool-cases, inl, inr, ◌≡◌, subst, true, List, [], ◌∷◌, Option,
  none, some, Option-cases, arith,
}
use mathlib.Core.Option
use ccnpl_sim.Mst.Layer.{insert, member, SetMap, RootMap, Layer, spanning, visit}
use ccnpl_sim.Mst.Spanning.{Adjacent}

pub record Paths : Type 0 where
  pub layer : Layer
  pub open layer use *
  pub children : ℕ → Option SetMap
  pub parents : ℕ → Option RootMap

-- The last loop of `computePaths`: the walk from each node over the tree.
unfoldable pub walk_nodes :
    ℕ
    → SetMap
    → List ℕ
    → (ℕ → Option SetMap)
    → (ℕ → Option RootMap)
    → Option ((ℕ → Option SetMap) × (ℕ → Option RootMap))
walk_nodes fuel mst [] children parents = some (children, parents)
walk_nodes fuel mst (i ∷ is) children parents =
    elim (visit fuel mst ([], (λ _. none), (λ k. if k == i then some i else none)) i) [
      | none ↦ none
      | some (_, cs, ps) ↦
          walk_nodes fuel mst is (λ k. if k == i then some cs else children k)
            (λ k. if k == i then some ps else parents k)
    ]

unfoldable pub compute_paths : ℕ → Paths → Option Paths
compute_paths fuel s =
    let mst = (spanning s.layer).1 in
    (elim (walk_nodes fuel mst s.nodes s.children s.parents) [
      | none ↦ none
      | some (cs, ps) ↦ some (record {
        layer = record { nodes = []; links = []; mst = mst };
        children = cs;
        parents = ps;
      })
    ])

-- `getChildren`: the empty set for a node with no children.
unfoldable pub get_children : Paths → ℕ → ℕ → Option (List ℕ)
get_children s root node = elim (s.children root) [
  | none ↦ none
  | some cs ↦ some (Option.get_or (cs node) [])
]

-- `getParent`; the inner `none` is `NULL_PROCESSID`.
unfoldable pub get_parent : Paths → ℕ → ℕ → Option (Option ℕ)
get_parent s root node = elim (s.parents root) [ none ↦ none | some ps ↦ some (ps node) ]

-- The loop of `getHopCount` over the neighbours, which shares the set of the visited nodes.
abbrev pub Hops : Type 0
Hops = List ℕ × Option ℕ

unfoldable pub hop_all : (List ℕ → ℕ → Option Hops) → List ℕ → List ℕ → Option Hops
hop_all go visited [] = some (visited, none)
hop_all go visited (j ∷ js) =
    if member j visited then hop_all go visited js else (elim (go (insert j visited) j) [
      | none ↦ none
      | some (visited', some n) ↦ some (visited', some (suc n))
      | some (visited', none) ↦ hop_all go visited' js
    ])

-- `getHopCount`; an inner `none` is -1.
unfoldable pub hop_from : ℕ → SetMap → ℕ → List ℕ → ℕ → Option Hops
hop_from zero mst to visited from = none
hop_from (suc fuel) mst to visited from =
    if from == to then some (visited, some 0) else (elim (mst from) [
      | none ↦ none
      | some neighbours ↦
          if member to neighbours
          then some (visited, some 1)
          else hop_all (hop_from fuel mst to) visited neighbours
    ])

unfoldable pub get_hop_count : ℕ → Paths → ℕ → ℕ → Option (Option ℕ)
get_hop_count fuel s from to = elim (hop_from fuel s.mst to (insert from []) from) [
  | none ↦ none
  | some (_, hops) ↦ some hops
]

-- A way of so many steps in the tree.
pub data Steps (mst : SetMap) : ℕ → ℕ → ℕ → Type 0 where
  here : {a : ℕ} → Steps mst 0 a a
  further : {n a b c : ℕ} → Adjacent mst a b → Steps mst n b c → Steps mst (suc n) a c

-- What a search says, wherever it starts.
Right : SetMap → ℕ → (List ℕ → ℕ → Option Hops) → Type 0
Right mst to go =
    (visited visited' : List ℕ) (from n : ℕ)
    → go visited from ≡ some (visited', some n)
    → Steps mst n from to

hop_all-Steps :
    (mst : SetMap) (to from : ℕ) (go : List ℕ → ℕ → Option Hops) (all visited visited' js : List ℕ)
    (n : ℕ)
    → Right mst to go
    → mst from ≡ some all
    → ((j : ℕ) → member j js ≡ true → member j all ≡ true)
    → hop_all go visited js ≡ some (visited', some n)
    → Steps mst n from to
unfolding hop_all Right
hop_all-Steps mst to from go all visited visited' [] n right e sub found = ground arith
hop_all-Steps mst to from go all visited visited' (j ∷ js) n right e sub found =
    let sub' : (i : ℕ) → member i js ≡ true → member i all ≡ true = λ i h. sub i (ground arith) in
    elim (Bool-cases (member j visited)) [
      | inl seen ↦
          hop_all-Steps mst to from go all visited visited' js n right e sub' (ground arith)
      | inr new ↦ elim (Option-cases (go (insert j visited) j)) [
        | inl failed ↦ ground arith
        | inr ((v, none), far) ↦
            hop_all-Steps mst to from go all v visited' js n right e sub' (ground arith)
        | inr ((v, some m), near) ↦
            let step : Adjacent mst from j = (all, e, sub j (ground arith)) in
            let way : Steps mst (suc m) from to =
              further step (right (insert j visited) v j m near) in
            subst (λ k. Steps mst k from to) (ground arith) way
      ]
    ]

hop_from-Steps : (fuel : ℕ) (mst : SetMap) (to : ℕ) → Right mst to (hop_from fuel mst to)
unfolding hop_from Right
hop_from-Steps zero mst to visited visited' from n e = ground arith
hop_from-Steps (suc fuel) mst to visited visited' from n e = elim (Bool-cases (from == to)) [
  | inl there ↦
      let n_zero : zero ≡ n = ground arith in
      subst (λ k. Steps mst k from to) n_zero
        (subst (λ b. Steps mst zero from b) (ground arith) here)
  | inr apart ↦ elim (Option-cases (mst from)) [
    | inl unknown ↦ ground arith
    | inr (ns, en) ↦ elim (Bool-cases (member to ns)) [
      | inl near ↦ subst (λ k. Steps mst k from to) (ground arith) (further (ns, en, near) here)
      | inr far ↦
          hop_all-Steps mst to from (hop_from fuel mst to) ns visited visited' ns n
            (hop_from-Steps fuel mst to) en (λ i h. h) (ground arith)
    ]
  ]
]

-- A hop count is the length of a way in the tree.
pub get_hop_count-Steps :
    (fuel : ℕ) (s : Paths) (from to n : ℕ)
    → get_hop_count fuel s from to ≡ some (some n)
    → Steps s.mst n from to
unfolding get_hop_count Right
get_hop_count-Steps fuel s from to n e =
    elim (Option-cases (hop_from fuel s.mst to (insert from []) from)) [
      | inl failed ↦ ground arith
      | inr ((visited, hops), found) ↦
          hop_from-Steps fuel s.mst to (insert from []) visited from n (ground arith)
    ]
