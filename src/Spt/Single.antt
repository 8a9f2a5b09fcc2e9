-- ===== src/Spt/Single.antt =====
-- `dijkstra` of SPTsBroadcastLayer.cc from a node to another, which ends at the node and yields the links
-- of the path. `none` is a read or a write at `NIL_NID` or past the table, or fuel that ran out.
use ccnpl_sim.Prelude.{
  ℕ, zero, suc, ◌+◌, ◌≤◌, ◌<◌, ◌≡◌, ◌≢◌, refl, ◌==◌, ltb, if◌then◌else◌, Bool-cases, Option-cases,
  ◌⊎◌, inl, inr, List, [], ◌∷◌, Option, none, some, subst, true, arith,
}
use mathlib.Core.Path.{subst₂}
use mathlib.Core.List.{Memᴰ}
use ccnpl_sim.Spt.Heap.{pop_first}
use ccnpl_sim.Spt.Order.{queued}
use ccnpl_sim.Spt.Queue.{pop_first-Popped}
use ccnpl_sim.Spt.Table.{Adj, Edge, NTable}
use ccnpl_sim.Spt.Dijkstra.{PLink, Search, fill, start_row, relax_all}
use ccnpl_sim.Spt.Relaxed.{
  IsClosed, Walk, start, onward, IsSettled, Traced, arrived, back_from, IsSearch, relax_all-Stepped,
}
use ccnpl_sim.Spt.Shortest.{fill_lem, opening, opening-IsSearch, Popped-IsSearch, emptied}

-- The inner loop, which follows the links back. The fuel is the number of nodes.
unfoldable pub follow : ℕ → (ℕ → PLink) → ℕ → ℕ → Option (List Edge)
follow zero row root node = none
follow (suc fuel) row root node = if node == root then some [] else (elim ((row node).prev) [
  | none ↦ none
  | some next_node ↦
      let rest = follow fuel row root next_node in
      if next_node == node then some [] else (elim rest [
        | none ↦ none
        | some es ↦ some (record { from = node; to = next_node; len = 0 } ∷ es)
      ])
])

-- The outer loop. The fuel is one more than the size of the queue.
unfoldable pub search_to : ℕ → ℕ → NTable → ℕ → ℕ → Search → Option (List Edge)
unfolding follow
search_to zero top t root dest s = none
search_to (suc fuel) top t root dest s =
    if ltb 0 s.heap.size
    then (let (lower, heap) = pop_first s.heap in
        if lower.node == dest
        then if lower.dist == top then some [] else follow t.size s.row root dest
        else (elim (relax_all lower (t.adj lower.node) (record s { heap = heap })) [
          | none ↦ none
          | some s' ↦ search_to fuel top t root dest s'
        ]))
    else some []

unfoldable pub dijkstra_to : ℕ → NTable → ℕ → ℕ → Option (List Edge)
unfolding search_to
dijkstra_to top t root dest =
    if ltb root t.size
    then search_to (suc t.size) top t root dest
        (record { heap = fill top root t.size; row = start_row top root })
    else none

-- The links of a path from a node back to the root, and its length.
pub data Route (t : NTable) (root : ℕ) : ℕ → List Edge → ℕ → Type 0 where
  home : Route t root root [] 0
  over :
      {v p d : ℕ} {es : List Edge}
      → v ≢ p
      → p < t.size
      → (a : Adj) → Memᴰ a (t.adj p)
      → a.nid ≡ v
      → Route t root p es d
      → Route t root v (record { from = v; to = p; len = 0 } ∷ es) (d + a.len)

-- A path of the least length, or none where the node is out of reach.
pub record IsPath (top : ℕ) (t : NTable) (root dest : ℕ) (es : List Edge) : Type 0 where
  pub length : ℕ
  pub least : (d : ℕ) → Walk t root dest d → length ≤ d
  pub path : (length < top × Route t root dest es length) ⊎ ((length ≡ top) × (es ≡ []))

-- The first link of those that lead to the root.
record Behind (t : NTable) (root : ℕ) (s : Search) (v n : ℕ) : Type 0 where
  away : v ≢ root
  prev : ℕ
  link : (s.row v).prev ≡ some prev
  settled : IsSettled t s prev
  less : ℕ
  rest : Traced t root s prev less
  size : n ≡ suc less

Traced-cases :
    (t : NTable) (root : ℕ) (s : Search) {v n : ℕ}
    → Traced t root s v n
    → ((v ≡ root) × (n ≡ 0)) ⊎ Behind t root s v n
Traced-cases t root s arrived = inl (refl, refl)
Traced-cases t root s (back_from {p} {n} away l d below) =
    inr
      (record { away = away; prev = p; link = l; settled = d; less = n; rest = below; size = refl })

Traced-unique :
    (t : NTable) (root : ℕ) (s : Search) {v n m : ℕ}
    → Traced t root s v n
    → Traced t root s v m
    → n ≡ m
Traced-unique t root s arrived other = elim (Traced-cases t root s other) [
  | inl (_, e) ↦ omega (arith, e)
  | inr b ↦ absurd (b.away refl)
]
Traced-unique t root s (back_from {p} {n} away l d below) other =
    elim (Traced-cases t root s other) [
      | inl (e, _) ↦ absurd (away e)
      | inr b ↦
          let same : b.prev ≡ p = ground (arith, b.link, l) in
          omega (
            arith,
            b.size,
            Traced-unique t root s below
                (subst (λ x. Traced t root s x b.less) {x = b.prev} same b.rest),
          )
    ]

follow-Route :
    (top : ℕ) (t : NTable) (root u : ℕ) (rest : List Adj) (s : Search)
    → IsSearch top t root u rest s
    → (fuel n v : ℕ) → n < fuel
    → (s.row v).dist < top
    → Traced t root s v n
    → (es : List Edge) × (follow fuel s.row root v ≡ some es) × Route t root v es (s.row v).dist
unfolding follow
follow-Route top t root u rest s inv zero n v enough near tr = absurd (omega (arith, enough))
follow-Route top t root u rest s inv (suc fuel) n v enough near way =
    elim (Traced-cases t root s way) [
      | inl (here, _) ↦
          let at_home : Route t root root [] 0 = home in
          (
            [],
            ground (arith, here),
            subst₂ (λ x d. Route t root x [] d) (ground (arith, here))
                (ground (arith, here, inv.at_root)) at_home,
          )
      | inr b ↦
          let via = inv.via v b.away near in
          let same : via.prev ≡ b.prev = ground (arith, via.link, b.link) in
          let apart : v ≢ b.prev = λ e. ground (
            arith,
            b.size,
            Traced-unique t root s way
                (subst (λ x. Traced t root s x b.less) {x = b.prev} (ground (arith, e)) b.rest),
          ) in
          let (es, e, route) =
            follow-Route top t root u rest s inv fuel b.less b.prev (omega (arith, b.size, enough))
              (ground (arith, via.sum, same, near)) b.rest in
          (
            record { from = v; to = b.prev; len = 0 } ∷ es,
            ground (arith, b.away, b.link, apart, e),
            subst (λ d. Route t root v (record { from = v; to = b.prev; len = 0 } ∷ es) d)
                (ground (arith, via.sum, same))
                (over apart (b.settled.0) via.edge
                  (subst (λ x. Memᴰ via.edge (t.adj x)) {x = via.prev} same via.over) via.ends
                  route),
          )
    ]

-- A walk ends at a settled node, or is not shorter than the distance of the last that was popped.
walk_low :
    (top : ℕ) (t : NTable) (closed : IsClosed t) (root u : ℕ) (rest : List Adj) (s : Search)
    → root < t.size
    → IsSearch top t root u rest s
    → {v d : ℕ} → Walk t root v d
    → (IsSettled t s v × ((s.row v).dist ≤ d)) ⊎ ((s.row u).dist ≤ d)
walk_low top t closed root u rest s inside inv start = elim (Option-cases (queued s.heap root)) [
  | inl gone ↦ inl ((inside, gone), ground (arith, inv.at_root))
  | inr (d, there) ↦ inr (ground (arith, inv.high root d there, inv.keys root d there, inv.at_root))
]
walk_low top t closed root u rest s inside inv (onward {u = w} walk a m) =
    elim (walk_low top t closed root u rest s inside inv walk) [
      | inr low ↦ inr (omega (arith, low))
      | inl (d, le) ↦ elim (inv.relaxed w d a m) [
        | inl (e, _) ↦ inr (ground (arith, e, le))
        | inr le' ↦ elim (Option-cases (queued s.heap a.nid)) [
          | inl gone ↦ inl ((closed w d.0 a m, gone), omega (arith, le, le'))
          | inr (k, there) ↦
              inr (ground (arith, inv.high a.nid k there, inv.keys a.nid k there, le, le'))
        ]
      ]
    ]

-- The node that is popped is the one that is looked for.
found-IsPath :
    (top : ℕ) (t : NTable)
    → IsClosed t
    → (root u : ℕ) (rest : List Adj) (s : Search) → root < t.size
    → IsSearch top t root u rest s
    → IsSettled t s u
    → (es : List Edge) × ((if (s.row u).dist == top then some [] else follow t.size s.row root u)
        ≡ some es)
      × IsPath top t root u es
found-IsPath top t closed root u rest s inside inv done =
    let least : (d : ℕ) → Walk t root u d → (s.row u).dist ≤ d = λ d w.
      elim (walk_low top t closed root u rest s inside inv w) [ inl (_, le) ↦ le | inr le ↦ le ] in
    elim (Bool-cases ((s.row u).dist == top)) [
      | inl far ↦ (
        [],
        rw far refl,
        record { length = (s.row u).dist; least = least; path = inr (ground (arith, far), refl) },
      )
      | inr close ↦
          let near : (s.row u).dist < top = ground (arith, close, inv.bounded u) in
          let (n, tr, few) = inv.traced u done near in
          let (es, e, route) =
            follow-Route top t root u rest s inv t.size n u (omega (arith, few)) near tr in
          (
            es,
            rw close e,
            record { length = (s.row u).dist; least = least; path = inl (near, route) },
          )
    ]

search_to-IsPath :
    (top : ℕ) (t : NTable) (closed : IsClosed t) (root dest : ℕ)
    → root < t.size
    → dest < t.size
    → (fuel u : ℕ) (s : Search) → IsSearch top t root u [] s
    → ¬ IsSettled t s dest
    → s.heap.size < fuel
    → (es : List Edge) × (search_to fuel top t root dest s ≡ some es) × IsPath top t root dest es
unfolding search_to
search_to-IsPath top t closed root dest inside inside' zero u s inv waits enough =
    absurd (omega (arith, enough))
search_to-IsPath top t closed root dest inside inside' (suc fuel) u s inv waits enough =
    elim (Bool-cases (ltb 0 s.heap.size)) [
      | inr empty ↦ absurd (waits (inside', emptied s.heap inv.queue (ground (arith, empty)) dest))
      | inl more ↦
          let (e, h) = pop_first s.heap in
          let p = pop_first-Popped s.heap inv.queue (ground (arith, more)) in
          let popped : Search = record s { heap = h } in
          let (inv₁, done, own) = Popped-IsSearch top t closed root u s inv e h p in
          elim (Bool-cases (e.node == dest)) [
            | inl here ↦
                let (es, eq, path) =
                  found-IsPath top t closed root e.node (t.adj e.node) popped inside inv₁ done in
                let same : e.node ≡ dest = ground (arith, here) in
                (
                  es,
                  rw (search_to, more, here)
                      (subst₂
                        (λ k v.
                          (if k == top then some [] else follow t.size s.row root v) ≡ some es)
                        own same eq),
                  subst (λ x. IsPath top t root x es) {x = e.node} same path,
                )
            | inr other ↦
                let (s₁, e₁, p₁) =
                  relax_all-Stepped top t closed root e (t.adj e.node) popped inv₁ done own
                    (λ a m. m) in
                let (es, e₂, path) =
                  search_to-IsPath top t closed root dest inside inside' fuel e.node s₁ p₁.inv
                    (λ d. waits (inside', ground (arith, p.rest dest, other, (p₁.waits dest d).1)))
                    (omega (arith, p₁.same_size, p.one_less, enough)) in
                (es, rw (search_to, more, other, e₁) e₂, path)
          ]
    ]

-- Between nodes of a table whose links stay in the table, the search to a node ends without a fault. It
-- yields the links, from the node back to the root, of a path of the least length, or none where no walk
-- is shorter than infinity.
pub dijkstra_to-IsPath :
    (top : ℕ) (t : NTable)
    → IsClosed t
    → (root dest : ℕ) → root < t.size
    → dest < t.size
    → (es : List Edge) × (dijkstra_to top t root dest ≡ some es) × IsPath top t root dest es
unfolding dijkstra_to
dijkstra_to-IsPath top t closed root dest inside inside' =
    let (q, few, same) = fill_lem top root t.size in
    let (es, e, path) =
      search_to-IsPath top t closed root dest inside inside' (suc t.size) root
        (opening top t closed root) (opening-IsSearch top t closed root)
        (λ d. ground (arith, same dest, inside', d.1)) (omega (arith, few)) in
    let in_table : ltb root t.size ≡ true = ground (arith, inside) in
    (es, rw (dijkstra_to, in_table) e, path)
