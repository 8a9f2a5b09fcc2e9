-- ===== src/Spt/Parents.antt =====
-- Parents and hops in the trees of `computePaths` (SPTsBroadcastLayer.cc), and steps of shortest paths.
use ccnpl_sim.Prelude.{
  ℕ, ◌+◌, ◌≤◌, ◌<◌, ◌≡◌, ◌≢◌, refl, ltb, Bool-cases, inl, inr, Option, none, some, arith,
}
use mathlib.Core.Path.{subst₂}
use mathlib.Core.List.{Memᴰ}
use ccnpl_sim.Spt.Table.{Adj, NTable}
use ccnpl_sim.Spt.Dijkstra.{PLink}
use ccnpl_sim.Spt.Relaxed.{onward}
use ccnpl_sim.Spt.Shortest.{IsShortest, walk_end}
use ccnpl_sim.Spt.Graph.{IsGraph}
use ccnpl_sim.Spt.Layer.{Paths, get_parent, get_hop_count}
use ccnpl_sim.Spt.Rows.{IsFirst, walk_back}

-- `p` stands before `v` on a shortest walk from `r`.
pub record IsStep (t : NTable) (rows : ℕ → ℕ → PLink) (r v p : ℕ) : Type 0 where
  pub inside : p < t.size
  pub edge : Adj
  pub over : Memᴰ edge (t.adj p)
  pub ends : edge.nid ≡ v
  pub sum : (rows r v).dist ≡ (rows r p).dist + edge.len

-- A node has the parent that stands before it on a shortest walk from the root.
pub record IsParent (t : NTable) (rows : ℕ → ℕ → PLink) (s : Paths) (r v : ℕ) : Type 0 where
  pub parent : ℕ
  pub at : get_parent s (t.pid r) (t.pid v) ≡ some (t.pid parent)
  pub step : IsStep t rows r v parent

pub record IsLinked (t : NTable) (rows : ℕ → ℕ → PLink) (s : Paths) (i j : ℕ) : Type 0 where
  pub forth : IsParent t rows s i j
  pub back : IsParent t rows s j i
  pub hops : ℕ
  pub hops_forth : get_hop_count s (t.pid j) (t.pid i) ≡ some hops
  pub hops_back : get_hop_count s (t.pid i) (t.pid j) ≡ some hops
  pub some_hops : 0 < hops
  pub few_hops : hops < t.size

abbrev pub Good : ℕ → NTable → (ℕ → ℕ → PLink) → ℕ × ℕ → Paths → Type 0
Good top t rows (i, j) s = (i < j) → j < t.size → (rows i j).dist < top → IsLinked t rows s i j

abbrev pub NoParent : ℕ → NTable → (ℕ → ℕ → PLink) → Paths → Type 0
NoParent top t rows s =
    (r v : ℕ)
    → r < t.size
    → v < t.size
    → r ≢ v
    → (rows r v).dist ≡ top
    → get_parent s (t.pid r) (t.pid v) ≡ none

module _ (top : ℕ) (t : NTable) (g : IsGraph t) (rows : ℕ → ℕ → PLink)
    (short : (i : ℕ) → i < t.size → IsShortest top t i (rows i)) where
  abbrev pub dist : ℕ → ℕ → ℕ
  dist i j = (rows i j).dist

  pub pid_injective : (i j : ℕ) → i < t.size → j < t.size → t.pid i ≡ t.pid j → i ≡ j
  pid_injective i j hi hj e = ground (arith, e, g.named i hi, g.named j hj)

  dist_le : (i j : ℕ) → i < t.size → j < t.size → dist j i ≤ dist i j
  dist_le i j hi hj = elim (Bool-cases (ltb (dist i j) top)) [
    | inl near ↦
        (short j hj).least i (dist i j)
          (walk_back t g hi ((short i hi).sound j (ground (arith, near))))
    | inr far ↦ ground (arith, far, (short j hj).bounded i)
  ]

  -- The distance from a node to another is that back.
  pub dist_symmetric : (i j : ℕ) → i < t.size → j < t.size → dist i j ≡ dist j i
  dist_symmetric i j hi hj = omega (arith, dist_le i j hi hj, dist_le j i hj hi)

  pub first-IsStep :
      (i j hops : ℕ) (o : Option (ℕ × ℕ))
      → i < t.size
      → j < t.size
      → dist i j < top
      → (f : IsFirst t (rows i) i j hops o) → IsStep t rows j i f.node
  first-IsStep i j hops o hi hj near f =
      let k = f.node in
      let from_i = short i hi in
      let from_j = short j hj in
      let near_k : dist i k < top = omega (arith, near, f.less) in
      let hk = walk_end t g.closed i hi (from_i.sound k near_k) in
      let step = from_i.links k f.away near_k in
      let home : step.prev ≡ i = ground (arith, f.link, step.link) in
      let back : Adj = record { nid = i; len = step.edge.len } in
      let over : Memᴰ back (t.adj k) =
        subst₂ (λ a v. Memᴰ a (t.adj v)) {x = record { nid = step.prev; len = step.edge.len }}
          (ground (arith, home)) step.ends
          (g.symmetric step.prev step.inside step.edge step.over) in
      let first : dist i k ≡ step.edge.len = ground (arith, step.sum, home, from_i.at_root) in
      let rest : dist j k ≤ f.rest = from_j.least k f.rest (walk_back t g hk f.walk) in
      let whole : dist j i ≤ dist j k + back.len =
        from_j.least i _ (onward (from_j.sound k (omega (arith, rest, f.sum, near))) back over) in
      record {
        inside = hk;
        edge = back;
        over = over;
        ends = refl;
        sum = omega (arith, first, rest, whole, f.sum, dist_symmetric i j hi hj);
      }
