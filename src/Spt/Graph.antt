-- ===== src/Spt/Graph.antt =====
-- The table of SPTsBroadcastLayer.cc as an undirected graph.
use ccnpl_sim.Prelude.{
  ℕ, ◌<◌, ◌≤◌, ◌≡◌, ◌≢◌, refl, ◌==◌, true, false, Bool-cases, Option-cases, ◌⊎◌, inl, inr, List, [],
  ◌∷◌, none, some, subst, arith,
}
use mathlib.Core.Path.{subst₂}
use mathlib.Core.List.{Memᴰ}
use mathlib.Core.List.Memᴰ.{head, tail}
use ccnpl_sim.Spt.Heap.{write}
use ccnpl_sim.Spt.Table.{
  Adj, Edge, NTable, new_table, is_adjacent, add_adj, add_node, connect, add_edge, add_edges,
}
use ccnpl_sim.Spt.Relaxed.{IsClosed}

mem-write :
    {a : Adj} (f : ℕ → List Adj) (i : ℕ) (l : List Adj) (u : ℕ)
    → Memᴰ a (write f i l u)
    → ((u ≡ i) × Memᴰ a l) ⊎ ((u ≢ i) × Memᴰ a (f u))
mem-write {a} f i l u m = elim (Bool-cases (u == i)) [
  | inl here ↦ inl (ground (arith, here), subst (Memᴰ a) {y = l} (ground (arith, here)) m)
  | inr there ↦ inr (ground (arith, there), subst (Memᴰ a) {y = f u} (ground (arith, there)) m)
]

mem_at :
    {a : Adj} (f : ℕ → List Adj) (i : ℕ) (l : List Adj) (u : ℕ)
    → u ≡ i
    → Memᴰ a l
    → Memᴰ a (write f i l u)
mem_at {a} f i l u here m = subst (Memᴰ a) (ground (arith, here)) m

mem_away :
    {a : Adj} (f : ℕ → List Adj) (i : ℕ) (l : List Adj) (u : ℕ)
    → u ≢ i
    → Memᴰ a (f u)
    → Memᴰ a (write f i l u)
mem_away {a} f i l u there m = subst (Memᴰ a) (ground (arith, there)) m

-- Processes and nodes are numbered one to one, and edges lead both ways.
pub record IsGraph (t : NTable) : Type 0 where
  pub numbered : (p i : ℕ) → t.reverse_map p ≡ some i → (i < t.size) × (t.pid i ≡ p)
  pub named : (i : ℕ) → i < t.size → t.reverse_map (t.pid i) ≡ some i
  pub closed : IsClosed t
  pub symmetric :
      (u : ℕ)
      → u < t.size
      → (a : Adj) → Memᴰ a (t.adj u)
      → Memᴰ (record { nid = u; len = a.len }) (t.adj a.nid)

pub new_table-IsGraph : IsGraph new_table
unfolding new_table
new_table-IsGraph = record {
  numbered = λ p i e. cc;
  named = λ i l. absurd (omega arith);
  closed = λ u l. absurd (omega arith);
  symmetric = λ u l. absurd (omega arith);
}

-- The node of a process is in the table once it is entered, and no other changes.
pub record Entered (p : ℕ) (t : NTable) (i : ℕ) (t' : NTable) : Type 0 where
  pub graph : IsGraph t'
  pub at : t'.reverse_map p ≡ some i
  pub others : (q : ℕ) → q ≢ p → t'.reverse_map q ≡ t.reverse_map q
  pub kept : (q j : ℕ) → t.reverse_map q ≡ some j → t'.reverse_map q ≡ some j
  pub edges : (u : ℕ) → u < t.size → t'.adj u ≡ t.adj u
  pub no_edges : t.reverse_map p ≡ none → t'.adj i ≡ []
  pub grows : t.size ≤ t'.size

pub add_node-Entered :
    (p : ℕ) (t : NTable) → IsGraph t → Entered p t (add_node p t).0 (add_node p t).1
unfolding add_node
add_node-Entered p t g = elim (Option-cases (t.reverse_map p)) [
  | inr (i, at) ↦
      rw (at, add_node)
        (record {
          graph = g;
          at = at;
          others = λ q ne. refl;
          kept = λ q j e. e;
          edges = λ u l. refl;
          no_edges = λ e. cc;
          grows = omega arith;
        })
  | inl new ↦
      rw (new, add_node)
        (record {
          graph = record {
            numbered = λ q i e. ground (arith, g.numbered q i);
            named = λ i l. ground (arith, g.named i);
            closed = λ u l a m. elim (mem-write t.adj t.size [] u m) [
              | inl (_, no_edge) ↦ elim no_edge [ ]
              | inr (ne, m') ↦ omega (arith, ne, l, g.closed u (omega (arith, ne, l)) a m')
            ];
            symmetric = λ u l a m. elim (mem-write t.adj t.size [] u m) [
              | inl (_, no_edge) ↦ elim no_edge [ ]
              | inr (ne, m') ↦
                  let old : u < t.size = omega (arith, ne, l) in
                  mem_away t.adj t.size [] a.nid (omega (arith, g.closed u old a m'))
                    (g.symmetric u old a m')
            ];
          };
          at = ground arith;
          others = λ q ne. ground (arith, ne);
          kept = λ q j e. ground (arith, new, e);
          edges = λ u l. ground arith;
          no_edges = λ e. ground arith;
          grows = omega arith;
        })
]

mem-add_adj :
    {a : Adj} (n len : ℕ) (l : List Adj)
    → Memᴰ a (add_adj n len l)
    → ((a ≡ record { nid = n; len = len }) × (is_adjacent n l ≡ false)) ⊎ Memᴰ a l
unfolding add_adj
mem-add_adj {a} n len l m = elim (Bool-cases (is_adjacent n l)) [
  | inl old ↦ inr (subst (Memᴰ a) {y = l} (ground (arith, old)) m)
  | inr new ↦
      elim (subst (Memᴰ a) {y = record { nid = n; len = len } ∷ l} (ground (arith, new)) m) [
        | head e ↦ inl (e, new)
        | tail m' ↦ inr m'
      ]
]

add_adj_keeps : {a : Adj} (n len : ℕ) (l : List Adj) → Memᴰ a l → Memᴰ a (add_adj n len l)
unfolding add_adj
add_adj_keeps {a} n len l m = elim (Bool-cases (is_adjacent n l)) [
  | inl old ↦ rw old m
  | inr new ↦ rw new (tail m)
]

add_adj_new :
    (n len : ℕ) (l : List Adj)
    → is_adjacent n l ≡ false
    → Memᴰ (record { nid = n; len = len }) (add_adj n len l)
unfolding add_adj
add_adj_new n len l new = rw new (head refl)

adjacent_of_mem : {a : Adj} (l : List Adj) → Memᴰ a l → is_adjacent a.nid l ≡ true
adjacent_of_mem [] m = elim m [ ]
adjacent_of_mem (b ∷ l) (head e) = ground (arith, e)
adjacent_of_mem (b ∷ l) (tail m) = ground (arith, adjacent_of_mem l m)

mem_of_adjacent :
    (n : ℕ) (l : List Adj)
    → is_adjacent n l ≡ true
    → (len : ℕ) × Memᴰ (record { nid = n; len = len }) l
mem_of_adjacent n [] e = absurd (ground arith)
mem_of_adjacent n (b ∷ l) e = elim (Bool-cases (b.nid == n)) [
  | inl here ↦ (b.len, head (ground (arith, here)))
  | inr there ↦ let (len, m) = mem_of_adjacent n l (ground (arith, e, there)) in (len, tail m)
]

-- One direction of an edge.
abbrev put : (ℕ → List Adj) → ℕ → ℕ → ℕ → ℕ → List Adj
put f i n len = write f i (add_adj n len (f i))

module _ (f : ℕ → List Adj) (i n len : ℕ) where
  put_keeps : {a : Adj} (u : ℕ) → Memᴰ a (f u) → Memᴰ a (put f i n len u)
  put_keeps {a} u m = elim (Bool-cases (u == i)) [
    | inl here ↦
        mem_at f i (add_adj n len (f i)) u (ground (arith, here))
          (add_adj_keeps n len (f i) (subst (λ x. Memᴰ a (f x)) (ground (arith, here)) m))
    | inr away ↦ mem_away f i (add_adj n len (f i)) u (ground (arith, away)) m
  ]

  put_new : is_adjacent n (f i) ≡ false → Memᴰ (record { nid = n; len = len }) (put f i n len i)
  put_new new = mem_at f i (add_adj n len (f i)) i refl (add_adj_new n len (f i) new)

  mem-put :
      {a : Adj} (u : ℕ)
      → Memᴰ a (put f i n len u)
      → ((u ≡ i) × (a ≡ record { nid = n; len = len }) × (is_adjacent n (f i) ≡ false))
        ⊎ Memᴰ a (f u)
  mem-put {a} u m = elim (mem-write f i (add_adj n len (f i)) u m) [
    | inr (_, m') ↦ inr m'
    | inl (here, m') ↦ elim (mem-add_adj n len (f i) m') [
      | inl (e, new) ↦ inl (here, e, new)
      | inr m'' ↦ inr (subst (λ x. Memᴰ a (f x)) {x = i} (ground (arith, here)) m'')
    ]
  ]

module _ (i j len : ℕ) (t : NTable) (g : IsGraph t) (hi : i < t.size) (hj : j < t.size) where
  abbrev one : ℕ → List Adj
  one = put t.adj i j len

  new_back :
      is_adjacent i (one j) ≡ false → Memᴰ (record { nid = j; len = len }) (put one j i len i)
  new_back new = elim (Bool-cases (is_adjacent j (t.adj i))) [
    | inr free ↦ put_keeps one j i len i (put_new t.adj i j len free)
    | inl taken ↦
        let (len', m) = mem_of_adjacent j (t.adj i) taken in
        let m' = put_keeps t.adj i j len j (g.symmetric i hi _ m) in
        absurd (ground (arith, new, adjacent_of_mem (one j) m'))
  ]

  new_forth :
      is_adjacent j (t.adj i) ≡ false → Memᴰ (record { nid = i; len = len }) (put one j i len j)
  new_forth new = elim (Bool-cases (is_adjacent i (one j))) [
    | inr free ↦ put_new one j i len free
    | inl taken ↦
        let (len', m) = mem_of_adjacent i (one j) taken in
        elim (mem-put t.adj i j len j m) [
          | inl (_, e, _) ↦ put_keeps one j i len j (
              subst (λ l. Memᴰ (record { nid = i; len = l }) (one j)) {x = len'} (ground (arith, e))
                m)
          | inr m' ↦ absurd (ground (arith, new, adjacent_of_mem (t.adj i) (g.symmetric j hj _ m')))
        ]
  ]

  pub connect-IsGraph : IsGraph (connect i j len t)
  unfolding connect
  connect-IsGraph = record {
    numbered = g.numbered;
    named = g.named;
    closed = λ u l a m. elim (mem-put one j i len u m) [
      | inl (_, e, _) ↦ ground (arith, e, hi)
      | inr m' ↦ elim (mem-put t.adj i j len u m') [
        | inl (_, e, _) ↦ ground (arith, e, hj)
        | inr m'' ↦ g.closed u l a m''
      ]
    ];
    symmetric = λ u l a m. elim (mem-put one j i len u m) [
      | inl (here, e, new) ↦
          subst₂ (λ a' n. Memᴰ a' (put one j i len n)) {x = record { nid = j; len = len }}
            {y = record { nid = u; len = a.len }} (ground (arith, here, e)) (ground (arith, e))
            (new_back new)
      | inr m' ↦ elim (mem-put t.adj i j len u m') [
        | inl (here, e, new) ↦
            subst₂ (λ a' n. Memᴰ a' (put one j i len n)) {x = record { nid = i; len = len }}
              {y = record { nid = u; len = a.len }} (ground (arith, here, e)) (ground (arith, e))
              (new_forth new)
        | inr m'' ↦
            put_keeps one j i len a.nid (put_keeps t.adj i j len a.nid (g.symmetric u l a m''))
      ]
    ];
  }

pub add_edge-IsGraph : (e : Edge) (t : NTable) → IsGraph t → IsGraph (add_edge e t)
unfolding add_edge
add_edge-IsGraph e t g =
    let (i, t₁) = add_node e.from t in
    let p = add_node-Entered e.from t g in
    let (j, t₂) = add_node e.to t₁ in
    let q = add_node-Entered e.to t₁ p.graph in
    connect-IsGraph i j e.len t₂ q.graph (q.graph.numbered e.from i (q.kept e.from i p.at)).0
      (q.graph.numbered e.to j q.at).0

-- Entering edges keeps processes and nodes numbered one to one, and the adjacency lists those of an
-- undirected graph on the nodes of the table.
pub add_edges-IsGraph : (es : List Edge) (t : NTable) → IsGraph t → IsGraph (add_edges es t)
unfolding add_edges
add_edges-IsGraph [] t g = g
add_edges-IsGraph (e ∷ es) t g = add_edges-IsGraph es (add_edge e t) (add_edge-IsGraph e t g)
