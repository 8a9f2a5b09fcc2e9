-- ===== src/Spt/Entered.antt =====
-- The lengths in the table of SPTsBroadcastLayer.cc beside the edges that are entered.
use ccnpl_sim.Prelude.{
  ℕ, ◌<◌, ◌≡◌, refl, ◌∙◌, ◌==◌, if◌then◌else◌, Bool, Option-cases, inl, inr, List, [], ◌∷◌, Option,
  none, some, ◌||◌, ◌&&◌, arith,
}
use mathlib.Core.List.{Memᴰ}
use mathlib.Core.List.Memᴰ.{head, tail}
use ccnpl_sim.Spt.Table.{Adj, Edge, NTable, add_adj, add_node, connect, add_edge, add_edges}
use ccnpl_sim.Spt.Graph.{IsGraph, add_node-Entered, add_edge-IsGraph}

abbrev pub find_len : ℕ → List Adj → Option ℕ
find_len n [] = none
find_len n (a ∷ l) = if a.nid == n then some a.len else find_len n l

-- The length between two processes.
abbrev pub between : NTable → ℕ → ℕ → Option ℕ
between t p q = elim (t.reverse_map p) [
  | none ↦ none
  | some i ↦ elim (t.reverse_map q) [ none ↦ none | some j ↦ find_len j (t.adj i) ]
]

abbrev pub joins : Edge → ℕ → ℕ → Bool
joins e p q = (e.from == p && e.to == q) || (e.from == q && e.to == p)

abbrev pub first_between : List Edge → ℕ → ℕ → Option ℕ
first_between [] p q = none
first_between (e ∷ es) p q = if joins e p q then some e.len else first_between es p q

abbrev pub or_else : Option ℕ → Option ℕ → Option ℕ
or_else none o = o
or_else (some n) o = some n

find_len-add_adj :
    (k n len : ℕ) (l : List Adj)
    → find_len k (add_adj n len l) ≡ or_else (find_len k l) (if n == k then some len else none)
unfolding add_adj
find_len-add_adj k n len [] = ground arith
find_len-add_adj k n len (a ∷ l) = ground (arith, find_len-add_adj k n len l)

find_len-new : (k : ℕ) (l : List Adj) → ((a : Adj) → Memᴰ a l → a.nid < k) → find_len k l ≡ none
find_len-new k [] below = refl
find_len-new k (a ∷ l) below =
    ground (arith, below a (head refl), find_len-new k l (λ b m. below b (tail m)))

between-connect :
    (i j len : ℕ) (t : NTable) (x y : ℕ)
    → find_len y ((connect i j len t).adj x)
      ≡ or_else
          (find_len y (t.adj x))
          (if (i == x && j == y) || (i == y && j == x) then some len else none)
unfolding connect
between-connect i j len t x y = ground (
  arith,
  find_len-add_adj y j len (t.adj x),
  find_len-add_adj y i len (t.adj x),
  find_len-add_adj y i len (add_adj j len (t.adj x)),
)

between-add_node :
    (p : ℕ) (t : NTable) → IsGraph t → (q r : ℕ) → between (add_node p t).1 q r ≡ between t q r
unfolding add_node
between-add_node p t g q r = elim (Option-cases (t.reverse_map p)) [
  | inr (i, at) ↦ ground (arith, at)
  | inl new ↦ elim (Option-cases (t.reverse_map q)) [
    | inl no_q ↦ ground (arith, new, no_q)
    | inr (i, at_q) ↦
        let (inside, _) = g.numbered q i at_q in
        let fresh = find_len-new t.size (t.adj i) (g.closed i inside) in
        ground (arith, new, at_q, inside, fresh, g.numbered r)
  ]
]

between-add_edge :
    (e : Edge) (t : NTable)
    → IsGraph t
    → (p q : ℕ)
    → between (add_edge e t) p q
      ≡ or_else (between t p q) (if joins e p q then some e.len else none)
unfolding add_edge connect
between-add_edge e t g p q =
    let (i, t₁) = add_node e.from t in
    let n₁ = add_node-Entered e.from t g in
    let (j, t₂) = add_node e.to t₁ in
    let n₂ = add_node-Entered e.to t₁ n₁.graph in
    let at_i = n₂.kept e.from i n₁.at in
    let same = between-add_node e.to t₁ n₁.graph p q ∙ between-add_node e.from t g p q in
    elim (Option-cases (t₂.reverse_map p)) [
      | inl no_p ↦ ground (arith, no_p, at_i, n₂.at, same)
      | inr (x, at_p) ↦ elim (Option-cases (t₂.reverse_map q)) [
        | inl no_q ↦ ground (arith, no_q, at_p, at_i, n₂.at, same)
        | inr (y, at_q) ↦
            let num = n₂.graph.numbered in
            ground (
              arith,
              at_p,
              at_q,
              at_i,
              n₂.at,
              same,
              between-connect i j e.len t₂ x y,
              num p x at_p,
              num q y at_q,
              num e.from i at_i,
              num e.to j n₂.at,
            )
      ]
    ]

-- After edges are entered into a table that is an undirected graph, the length between two processes is
-- the one that there was, or else that of the first of the edges between them.
pub between-add_edges :
    (es : List Edge) (t : NTable)
    → IsGraph t
    → (p q : ℕ) → between (add_edges es t) p q ≡ or_else (between t p q) (first_between es p q)
unfolding add_edges
between-add_edges [] t g p q = ground arith
between-add_edges (e ∷ es) t g p q = ground (
  arith,
  between-add_edges es (add_edge e t) (add_edge-IsGraph e t g) p q,
  between-add_edge e t g p q,
)
