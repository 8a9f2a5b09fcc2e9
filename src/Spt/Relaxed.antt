-- ===== src/Spt/Relaxed.antt =====
-- What holds of the search of `dijkstra` (SPTsBroadcastLayer.cc) between two relaxations.
use ccnpl_sim.Prelude.{
  ℕ, suc, ◌+◌, ◌≤◌, ◌<◌, ◌≡◌, ◌≢◌, refl, ◌∙◌, ltb, ◌==◌, if◌then◌else◌, Bool-cases, Option-cases,
  ◌⊎◌, inl, inr, false, List, [], ◌∷◌, none, some, arith,
}
use mathlib.Core.Path.{subst₂}
use mathlib.Core.List.{Memᴰ}
use mathlib.Core.List.Memᴰ.{head, tail}
use ccnpl_sim.Spt.Heap.{Element, write, decrease_dist}
use ccnpl_sim.Spt.Order.{key, queued}
use ccnpl_sim.Spt.Queue.{IsQueue, decrease_dist_lem}
use ccnpl_sim.Spt.Table.{Adj, NTable}
use ccnpl_sim.Spt.Dijkstra.{Search, relax, relax_all}

-- The adjacent nodes of a node of the table are nodes of the table.
abbrev pub IsClosed : NTable → Type 0
IsClosed t = (u : ℕ) → u < t.size → (a : Adj) → Memᴰ a (t.adj u) → a.nid < t.size

-- A walk from the root to a node, by its length.
pub data Walk (t : NTable) (root : ℕ) : ℕ → ℕ → Type 0 where
  start : Walk t root root 0
  onward :
      {u d : ℕ} → Walk t root u d → (a : Adj) → Memᴰ a (t.adj u) → Walk t root a.nid (d + a.len)

-- The node has left the queue.
abbrev pub IsSettled : NTable → Search → ℕ → Type 0
IsSettled t s w = (w < t.size) × (queued s.heap w ≡ none)

-- The link of a node leads over an edge from a settled node.
pub record Via (t : NTable) (s : Search) (v : ℕ) : Type 0 where
  pub prev : ℕ
  pub edge : Adj
  pub link : (s.row v).prev ≡ some prev
  pub settled : IsSettled t s prev
  pub over : Memᴰ edge (t.adj prev)
  pub ends : edge.nid ≡ v
  pub sum : (s.row v).dist ≡ (s.row prev).dist + edge.len

-- The links of a node lead to the root over settled nodes, by their number.
pub data Traced (t : NTable) (root : ℕ) (s : Search) : ℕ → ℕ → Type 0 where
  arrived : Traced t root s root 0
  back_from :
      {v p n : ℕ}
      → v ≢ root
      → (s.row v).prev ≡ some p
      → IsSettled t s p
      → Traced t root s p n
      → Traced t root s v (suc n)

pub Traced-still :
    (t : NTable) (root : ℕ) (s s' : Search)
    → ((w : ℕ) → IsSettled t s w → IsSettled t s' w × (s'.row w ≡ s.row w))
    → {v n : ℕ} → IsSettled t s v
    → Traced t root s v n
    → Traced t root s' v n
Traced-still t root s s' keep d arrived = arrived
Traced-still t root s s' keep d (back_from ne link settled tr) =
    back_from ne (ground (arith, link, keep _ d)) (keep _ settled).0
      (Traced-still t root s s' keep settled tr)

-- The edges of `u` in `rest` are still to relax.
pub record IsSearch (top : ℕ) (t : NTable) (root u : ℕ) (rest : List Adj) (s : Search)
    : Type 0 where
  pub queue : IsQueue s.heap
  pub keys : (v d : ℕ) → queued s.heap v ≡ some d → (v < t.size) × (d ≡ (s.row v).dist)
  pub low : (w : ℕ) → IsSettled t s w → (s.row w).dist ≤ (s.row u).dist
  pub high : (v d : ℕ) → queued s.heap v ≡ some d → (s.row u).dist ≤ d
  pub relaxed :
      (w : ℕ)
      → IsSettled t s w
      → (a : Adj) → Memᴰ a (t.adj w)
      → ((w ≡ u) × Memᴰ a rest) ⊎ ((s.row a.nid).dist ≤ (s.row w).dist + a.len)
  pub sound : (v : ℕ) → (s.row v).dist < top → Walk t root v (s.row v).dist
  pub bounded : (v : ℕ) → (s.row v).dist ≤ top
  pub at_root : s.row root ≡ record { prev = some root; dist = 0 }
  pub via : (v : ℕ) → v ≢ root → (s.row v).dist < top → Via t s v
  pub unreached : (v : ℕ) → v ≢ root → (s.row v).dist ≡ top → (s.row v).prev ≡ none
  pub few : s.heap.size ≤ t.size
  pub traced :
      (v : ℕ)
      → IsSettled t s v
      → (s.row v).dist < top
      → (n : ℕ) × Traced t root s v n × (n + s.heap.size < t.size)

-- What a step of the loop over the edges of `u` yields.
pub record Stepped (top : ℕ) (t : NTable) (root u : ℕ) (rest : List Adj) (s s' : Search)
    : Type 0 where
  pub inv : IsSearch top t root u rest s'
  pub settled : IsSettled t s' u
  pub same_size : s'.heap.size ≡ s.heap.size
  pub same_row : s'.row u ≡ s.row u
  pub waits : (v : ℕ) → IsSettled t s' v → IsSettled t s v

module _ (top : ℕ) (t : NTable) (closed : IsClosed t) (root : ℕ) (lower : Element) (a : Adj)
    (rest : List Adj) (s : Search) (inv : IsSearch top t root lower.node (a ∷ rest) s)
    (done : IsSettled t s lower.node) (own : (s.row lower.node).dist ≡ lower.dist)
    (on : Memᴰ a (t.adj lower.node)) where
  unchanged : (s.row a.nid).dist ≤ lower.dist + a.len → IsSearch top t root lower.node rest s
  unchanged le = record {
    queue = inv.queue;
    keys = inv.keys;
    low = inv.low;
    high = inv.high;
    relaxed = λ w d b m. elim (inv.relaxed w d b m) [
      | inr le' ↦ inr le'
      | inl (same, head e) ↦ inr (ground (arith, own, le, same, e))
      | inl (same, tail m') ↦ inl (same, m')
    ];
    sound = inv.sound;
    bounded = inv.bounded;
    at_root = inv.at_root;
    via = inv.via;
    unreached = inv.unreached;
    few = inv.few;
    traced = inv.traced;
  }

  -- The node at the end of an edge that improves its distance is in the queue.
  in_queue : lower.dist + a.len < (s.row a.nid).dist → (i : ℕ) × (s.heap.heap_pos a.nid ≡ some i)
  in_queue less = elim (Option-cases (s.heap.heap_pos a.nid)) [
    | inl gone ↦ absurd (
        ground
          (arith, own, less, inv.low a.nid (closed lower.node done.0 a on, ground (arith, gone))))
    | inr found ↦ found
  ]

  -- The search once the distance at the end of the edge is less.
  abbrev improved : ℕ → Search
  improved i = record {
    heap = decrease_dist s.heap i (lower.dist + a.len);
    row = write s.row a.nid (record { prev = some lower.node; dist = lower.dist + a.len });
  }

  module _ (less : lower.dist + a.len < (s.row a.nid).dist) (i : ℕ)
      (at : s.heap.heap_pos a.nid ≡ some i) where
    queued-improved :
        (v : ℕ)
        → queued (improved i).heap v
          ≡ (if v == a.nid then some (lower.dist + a.len) else queued s.heap v)
    queued-improved v =
        let (q, size, same) = decrease_dist_lem s.heap i (lower.dist + a.len) a.nid inv.queue at in
        ground (arith, same v, less, inv.keys a.nid (key s.heap i) (ground (arith, at)))

    still-IsSettled :
        (w : ℕ) → IsSettled t (improved i) w → IsSettled t s w × ((w == a.nid) ≡ false)
    still-IsSettled w (p, gone) = elim (Bool-cases (w == a.nid)) [
      | inl here ↦ absurd (ground (arith, queued-improved w, gone, here))
      | inr other ↦ ((p, ground (arith, queued-improved w, gone, other)), other)
    ]

    now-IsSettled : (w : ℕ) → IsSettled t s w → IsSettled t (improved i) w × ((w == a.nid) ≡ false)
    now-IsSettled w (p, gone) = elim (Bool-cases (w == a.nid)) [
      | inl here ↦ absurd (ground (arith, at, gone, here))
      | inr other ↦ ((p, ground (arith, queued-improved w, gone, other)), other)
    ]

    changed : IsSearch top t root lower.node rest (improved i)
    changed =
        let (q, size, same) = decrease_dist_lem s.heap i (lower.dist + a.len) a.nid inv.queue at in
        let other = (now-IsSettled lower.node done).1 in
        record {
          queue = q;
          keys = λ v d e.
              ground (arith, queued-improved v, inv.keys v d, e, closed lower.node done.0 a on);
          low =
              λ w d. let (d', ne) = still-IsSettled w d in ground (arith, ne, other, inv.low w d');
          high = λ v d e. ground (arith, queued-improved v, inv.high v d, e, other, own);
          relaxed = λ w d b m.
              let (d', ne) = still-IsSettled w d in
              elim (inv.relaxed w d' b m) [
                | inr le' ↦ inr (ground (arith, ne, le', less))
                | inl (same, head e) ↦ inr (ground (arith, own, ne, same, e))
                | inl (same, tail m') ↦ inl (same, m')
              ];
          sound = λ v f. elim (Bool-cases (v == a.nid)) [
            | inl here ↦
                let step =
                  onward
                    (inv.sound lower.node (ground (arith, own, f, here, less, inv.bounded a.nid))) a
                    on in
                subst₂ (Walk t root) (ground (arith, here)) (ground (arith, own, here)) step
            | inr there ↦ rw there (inv.sound v (ground (arith, there, f)))
          ];
          bounded = λ v. ground (arith, inv.bounded v, inv.bounded a.nid, less);
          at_root = ground (arith, inv.at_root, less);
          via = λ v ne f. elim (Bool-cases (v == a.nid)) [
            | inl here ↦ record {
              prev = lower.node;
              edge = a;
              link = ground (arith, here);
              settled = (now-IsSettled lower.node done).0;
              over = on;
              ends = ground (arith, here);
              sum = ground (arith, own, here, other);
            }
            | inr there ↦
                let was : Via t s v = inv.via v ne (ground (arith, there, f)) in
                record {
                  prev = was.prev;
                  edge = was.edge;
                  link = ground (arith, there, was.link);
                  settled = (now-IsSettled was.prev was.settled).0;
                  over = was.over;
                  ends = was.ends;
                  sum = ground (arith, was.sum, there, (now-IsSettled was.prev was.settled).1);
                }
          ];
          unreached = λ v ne f. ground (arith, inv.unreached v ne, inv.bounded a.nid, less, f);
          few = omega (arith, size, inv.few);
          traced = λ v d f.
              let (d', ne) = still-IsSettled v d in
              let (n, tr, le) = inv.traced v d' (ground (arith, ne, f)) in
              (
                n,
                Traced-still t root s (improved i)
                    (λ w m. let (m', ne') = now-IsSettled w m in (m', rw ne' refl)) d' tr,
                omega (arith, size, le),
              );
        }

  pub relax-Stepped :
      (s' : Search) × (relax lower a s ≡ some s') × Stepped top t root lower.node rest s s'
  unfolding relax
  relax-Stepped = elim (Bool-cases (ltb (lower.dist + a.len) (s.row a.nid).dist)) [
    | inr keeps ↦ (
      s,
      rw keeps refl,
      record {
        inv = unchanged (ground (arith, keeps));
        settled = done;
        same_size = refl;
        same_row = refl;
        waits = λ v d. d;
      },
    )
    | inl improves ↦
        let less : lower.dist + a.len < (s.row a.nid).dist = ground (arith, improves) in
        let (i, at) = in_queue less in
        let (now, ne) = now-IsSettled less i at lower.node done in
        (
          improved i,
          rw (improves, at) refl,
          record {
            inv = changed less i at;
            settled = now;
            same_size = (decrease_dist_lem s.heap i (lower.dist + a.len) a.nid inv.queue at).1;
            same_row = rw ne refl;
            waits = λ v d. (still-IsSettled less i at v d).0;
          },
        )
  ]

pub relax_all-Stepped :
    (top : ℕ) (t : NTable) (closed : IsClosed t) (root : ℕ) (lower : Element) (rest : List Adj)
    (s : Search)
    → IsSearch top t root lower.node rest s
    → IsSettled t s lower.node
    → (s.row lower.node).dist ≡ lower.dist
    → ((a : Adj) → Memᴰ a rest → Memᴰ a (t.adj lower.node))
    → (s' : Search) × (relax_all lower rest s ≡ some s') × Stepped top t root lower.node [] s s'
unfolding relax_all
relax_all-Stepped top t closed root lower [] s inv done own on = (
  s,
  refl,
  record { inv = inv; settled = done; same_size = refl; same_row = refl; waits = λ v d. d },
)
relax_all-Stepped top t closed root lower (a ∷ rest) s inv done own on =
    let (s₁, e₁, p₁) =
      relax-Stepped top t closed root lower a rest s inv done own (on a (head refl)) in
    let (s₂, e₂, p₂) =
      relax_all-Stepped top t closed root lower rest s₁ p₁.inv p₁.settled
        (ground (arith, p₁.same_row, own)) (λ b m. on b (tail m)) in
    (
      s₂,
      rw (e₁, relax_all) e₂,
      record {
        inv = p₂.inv;
        settled = p₂.settled;
        same_size = p₂.same_size ∙ p₁.same_size;
        same_row = p₂.same_row ∙ p₁.same_row;
        waits = λ v d. p₁.waits v (p₂.waits v d);
      },
    )
