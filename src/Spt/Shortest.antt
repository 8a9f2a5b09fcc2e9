-- ===== src/Spt/Shortest.antt =====
-- The rows of `dijkstra` (SPTsBroadcastLayer.cc) beside the walks in the graph.
use ccnpl_sim.Prelude.{
  ℕ, zero, suc, ◌+◌, ◌≤◌, ◌<◌, ◌≡◌, ◌≢◌, refl, false, subst, ltb, ◌==◌, if◌then◌else◌, Bool-cases,
  Option-cases, inl, inr, [], none, some, arith,
}
use mathlib.Core.Path.{subst₂}
use mathlib.Core.List.{Memᴰ}
use ccnpl_sim.Spt.Heap.{Heap, Element, new_heap, pop_first}
use ccnpl_sim.Spt.Order.{queued}
use ccnpl_sim.Spt.Queue.{IsQueue, new_heap-IsQueue, insert_lem, Popped, pop_first-Popped}
use ccnpl_sim.Spt.Table.{Adj, NTable}
use ccnpl_sim.Spt.Dijkstra.{PLink, Search, fill, start_row, search, dijkstra}
use ccnpl_sim.Spt.Relaxed.{
  IsClosed, Walk, start, onward, IsSettled, Traced, arrived, back_from, Traced-still, IsSearch,
  relax_all-Stepped,
}

free : (h : Heap) (v : ℕ) → queued h v ≡ none → h.heap_pos v ≡ none
free h v gone = elim (Option-cases (h.heap_pos v)) [
  | inl none_there ↦ none_there
  | inr (i, at) ↦ absurd (ground (arith, gone, at))
]

pub fill_lem :
    (top root n : ℕ)
    → IsQueue (fill top root n)
      × ((fill top root n).size ≡ n)
      × ((u : ℕ)
          → queued (fill top root n) u
            ≡ (if ltb u n then some (if u == root then 0 else top) else none))
unfolding fill new_heap
fill_lem top root zero = (new_heap-IsQueue top, refl, λ u. ground arith)
fill_lem top root (suc n) =
    let (q, size, same) = fill_lem top root n in
    let (q', size', same') =
      insert_lem (fill top root n) (if n == root then 0 else top) n q
        (free (fill top root n) n (ground (arith, same n))) in
    (q', omega (arith, size', size), λ u. ground (arith, same u, same' u))

module _ (top : ℕ) (t : NTable) (closed : IsClosed t) (root : ℕ) where
  -- The search before the second loop.
  abbrev pub opening : Search
  opening = record { heap = fill top root t.size; row = start_row top root }

  pub opening-IsSearch : IsSearch top t root root [] opening
  unfolding start_row
  opening-IsSearch =
      let (q, size, same) = fill_lem top root t.size in
      let at_start : Walk t root root 0 = start in
      record {
        queue = q;
        keys = λ v d e. ground (arith, same v, e);
        low = λ w (p, gone). absurd (ground (arith, same w, p, gone));
        high = λ v d e. ground arith;
        relaxed = λ w (p, gone) a m. absurd (ground (arith, same w, p, gone));
        sound = λ v f. elim (Bool-cases (v == root)) [
          | inl here ↦ subst₂ (Walk t root) (ground (arith, here)) (ground (arith, here)) at_start
          | inr there ↦ absurd (ground (arith, f, there))
        ];
        bounded = λ v. ground arith;
        at_root = ground arith;
        via = λ v ne f. absurd (ground (arith, ne, f));
        unreached = λ v ne f. ground (arith, ne);
        few = omega (arith, size);
        traced = λ v (in_table, gone) f. absurd (ground (arith, same v, in_table, gone));
      }

  -- What is popped is settled, and its edges are to relax.
  pub Popped-IsSearch :
      (u : ℕ) (s : Search)
      → IsSearch top t root u [] s
      → (e : Element) (h : Heap) → Popped s.heap e h
      → IsSearch top t root e.node (t.adj e.node) (record s { heap = h })
        × IsSettled t (record s { heap = h }) e.node
        × ((s.row e.node).dist ≡ e.dist)
  Popped-IsSearch u s inv e h p =
      let (inside, own) = inv.keys e.node e.dist p.from in
      let settled_before : (w : ℕ)
          → IsSettled t (record s { heap = h }) w
          → (w == e.node) ≡ false
          → IsSettled t s w =
        λ w (in_table, gone) other. (in_table, ground (arith, p.rest w, gone, other)) in
      let still-IsSettled : (w : ℕ) → IsSettled t s w → IsSettled t (record s { heap = h }) w =
        λ w (in_table, gone). (in_table, ground (arith, p.rest w, gone)) in
      (
        record {
          queue = p.queue;
          keys = λ v d q. inv.keys v d (ground (arith, p.rest v, q));
          low = λ w d. elim (Bool-cases (w == e.node)) [
            | inl here ↦ ground (arith, here)
            | inr other ↦
                ground
                  (arith, inv.low w (settled_before w d other), inv.high e.node e.dist p.from, own)
          ];
          high = λ v d q. ground (arith, own, p.least v d (ground (arith, p.rest v, q)));
          relaxed = λ w d a m. elim (Bool-cases (w == e.node)) [
            | inl here ↦
                inl (ground (arith, here), subst (λ x. Memᴰ a (t.adj x)) (ground (arith, here)) m)
            | inr other ↦ elim (inv.relaxed w (settled_before w d other) a m) [
              | inl (_, none_left) ↦ elim none_left [ ]
              | inr le ↦ inr le
            ]
          ];
          sound = inv.sound;
          bounded = inv.bounded;
          at_root = inv.at_root;
          via = λ v ne f.
              let was = inv.via v ne f in
              record {
                prev = was.prev;
                edge = was.edge;
                link = was.link;
                settled = still-IsSettled was.prev was.settled;
                over = was.over;
                ends = was.ends;
                sum = was.sum;
              };
          unreached = inv.unreached;
          few = omega (arith, inv.few, p.one_less);
          traced = λ v d f. elim (Bool-cases (v == e.node)) [
            | inr other ↦
                let d' = settled_before v d other in
                let (n, tr, le) = inv.traced v d' f in
                (
                  n,
                  Traced-still t root s (record s { heap = h }) (λ w m. (still-IsSettled w m, refl))
                      d' tr,
                  omega (arith, p.one_less, le),
                )
            | inl here ↦ elim (Bool-cases (v == root)) [
              | inl start_again ↦ (
                0,
                subst (λ x. Traced t root (record s { heap = h }) x 0) (ground (arith, start_again))
                    arrived,
                omega (arith, p.one_less, inv.few),
              )
              | inr away ↦
                  let was = inv.via v (ground (arith, away)) f in
                  let (n, tr, le) = inv.traced was.prev was.settled (ground (arith, was.sum, f)) in
                  (
                    suc n,
                    back_from (ground (arith, away)) was.link (still-IsSettled was.prev was.settled)
                        (Traced-still t root s (record s { heap = h })
                          (λ w m. (still-IsSettled w m, refl)) was.settled tr),
                    omega (arith, p.one_less, le),
                  )
            ]
          ];
        },
        (inside, ground (arith, p.rest e.node)),
        ground (arith, own),
      )

  -- The second loop empties the queue, and reads no `heap_pos` of -1.
  search_lem :
      (fuel u : ℕ) (s : Search)
      → IsSearch top t root u [] s
      → s.heap.size < fuel
      → (u' : ℕ) × (s' : Search) × (search fuel t s ≡ some s')
        × (s'.heap.size ≡ 0)
        × IsSearch top t root u' [] s'
  unfolding search
  search_lem zero u s inv enough = absurd (omega (arith, enough))
  search_lem (suc fuel) u s inv enough = elim (Bool-cases (ltb 0 s.heap.size)) [
    | inr over ↦ (u, s, rw over refl, ground (arith, over), inv)
    | inl more ↦
        let (e, h) = pop_first s.heap in
        let p = pop_first-Popped s.heap inv.queue (ground (arith, more)) in
        let (inv₁, done, own) = Popped-IsSearch u s inv e h p in
        let (s₁, e₁, p₁) =
          relax_all-Stepped top t closed root e (t.adj e.node) (record s { heap = h }) inv₁ done own
            (λ a m. m) in
        let (u₂, s₂, e₂, none_left, inv₂) =
          search_lem fuel e.node s₁ p₁.inv (omega (arith, p₁.same_size, p.one_less, enough)) in
        (u₂, s₂, rw (more, e₁) e₂, none_left, inv₂)
  ]

-- The links of a row lead from a node to the root, by their number.
pub data Back (root : ℕ) (row : ℕ → PLink) : ℕ → ℕ → Type 0 where
  home : Back root row root 0
  link :
      {v p n : ℕ} → v ≢ root → (row v).prev ≡ some p → Back root row p n → Back root row v (suc n)

-- The link of a node leads over the last edge of a shortest walk.
pub record IsLink (t : NTable) (row : ℕ → PLink) (v : ℕ) : Type 0 where
  pub prev : ℕ
  pub edge : Adj
  pub link : (row v).prev ≡ some prev
  pub inside : prev < t.size
  pub over : Memᴰ edge (t.adj prev)
  pub ends : edge.nid ≡ v
  pub sum : (row v).dist ≡ (row prev).dist + edge.len

-- A row of shortest walks from the root.
pub record IsShortest (top : ℕ) (t : NTable) (root : ℕ) (row : ℕ → PLink) : Type 0 where
  pub least : (v d : ℕ) → Walk t root v d → (row v).dist ≤ d
  pub sound : (v : ℕ) → (row v).dist < top → Walk t root v (row v).dist
  pub bounded : (v : ℕ) → (row v).dist ≤ top
  pub at_root : row root ≡ record { prev = some root; dist = 0 }
  pub links : (v : ℕ) → v ≢ root → (row v).dist < top → IsLink t row v
  pub unreached : (v : ℕ) → v ≢ root → (row v).dist ≡ top → (row v).prev ≡ none
  pub back : (v : ℕ) → v < t.size → (row v).dist < top → (n : ℕ) × Back root row v n × (n < t.size)

Back-of : (t : NTable) (root : ℕ) (s : Search) {v n : ℕ} → Traced t root s v n → Back root s.row v n
Back-of t root s arrived = home
Back-of t root s (back_from ne l settled tr) = link ne l (Back-of t root s tr)

pub walk_end :
    (t : NTable)
    → IsClosed t
    → (root : ℕ) → root < t.size
    → {v d : ℕ} → Walk t root v d
    → v < t.size
walk_end t closed root inside start = inside
walk_end t closed root inside (onward w a m) = closed _ (walk_end t closed root inside w) a m

pub emptied : (h : Heap) → IsQueue h → h.size ≡ 0 → (v : ℕ) → queued h v ≡ none
emptied h q none_left v = elim (Option-cases (h.heap_pos v)) [
  | inl gone ↦ ground (arith, gone)
  | inr (i, at) ↦ absurd (ground (arith, none_left, q.places.back v i at))
]

walk_least :
    (top : ℕ) (t : NTable) (closed : IsClosed t) (root u : ℕ) (s : Search)
    → root < t.size
    → IsSearch top t root u [] s
    → ((w : ℕ) → w < t.size → IsSettled t s w)
    → {v d : ℕ} → Walk t root v d
    → (s.row v).dist ≤ d
walk_least top t closed root u s inside inv settled start = ground (arith, inv.at_root)
walk_least top t closed root u s inside inv settled (onward {u = w} walk a m) =
    elim (inv.relaxed w (settled w (walk_end t closed root inside walk)) a m) [
      | inl (_, none_left) ↦ elim none_left [ ]
      | inr le ↦ omega (arith, le, walk_least top t closed root u s inside inv settled walk)
    ]

-- From a node of a table whose links stay in the table, `dijkstra` yields a row, so that its loops end
-- with the queue empty within as many rounds as there are nodes, and never decreases the distance of a node that has left the queue. In its row no
-- distance is more than the length of a walk from the root; one below infinity is that of a walk, whose
-- last link the predecessor is, and the predecessors lead to the root; a node out of reach has none.
pub dijkstra-IsShortest :
    (top : ℕ) (t : NTable)
    → IsClosed t
    → (root : ℕ) → root < t.size
    → (row : ℕ → PLink) × (dijkstra top t root ≡ some row) × IsShortest top t root row
unfolding dijkstra
dijkstra-IsShortest top t closed root inside =
    let few = (fill_lem top root t.size).1 in
    let (u, s, e, none_left, inv) =
      search_lem top t closed root (suc t.size) root (opening top t closed root)
        (opening-IsSearch top t closed root) (omega (arith, few)) in
    let settled : (w : ℕ) → w < t.size → IsSettled t s w =
      λ w p. (p, emptied s.heap inv.queue none_left w) in
    (
      s.row,
      rw (e, dijkstra) refl,
      record {
        least = λ v d w. walk_least top t closed root u s inside inv settled w;
        sound = inv.sound;
        bounded = inv.bounded;
        at_root = inv.at_root;
        links = λ v ne f.
            let was = inv.via v ne f in
            record {
              prev = was.prev;
              edge = was.edge;
              link = was.link;
              inside = was.settled.0;
              over = was.over;
              ends = was.ends;
              sum = was.sum;
            };
        unreached = inv.unreached;
        back = λ v p f.
            let (n, tr, le) = inv.traced v (settled v p) f in
            (n, Back-of t root s tr, omega (arith, le));
      },
    )
