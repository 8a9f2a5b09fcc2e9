-- ===== src/Spt/Trees.antt =====
-- The loops of `computePaths` (SPTsBroadcastLayer.cc) that make the trees.
use ccnpl_sim.Prelude.{
  ℕ, suc, ◌+◌, ◌-◌, ◌<◌, ◌≡◌, ◌≢◌, refl, false, ◌∙◌, ltb, ◌==◌, ◌&&◌, Bool-cases, inl, inr, Option,
  none, some, arith,
}
use mathlib.Core.Path.{subst₂}
use ccnpl_sim.Spt.Table.{NTable}
use ccnpl_sim.Spt.Dijkstra.{PLink}
use ccnpl_sim.Spt.Shortest.{IsShortest, IsLink}
use ccnpl_sim.Spt.Graph.{IsGraph}
use ccnpl_sim.Spt.Layer.{
  Layer, Paths, link_at, range, for_each, link_pair, link_node, get_parent, get_hop_count,
}
use ccnpl_sim.Spt.Rows.{first_hop-IsFirst, IsFirst, Back-away}
use ccnpl_sim.Spt.Parents.{
  IsParent, IsLinked, Good, NoParent, pid_injective, dist_symmetric, first-IsStep,
}
use ccnpl_sim.Spt.Pairs.{
  linked, still_linked, rooted, rooted_linked, get_parent-linked, get_hop_count-linked,
  get_parent-other, get_parent-rooted,
}
use ccnpl_sim.Spt.Loop.{for_each-all, range_mem, mem_range}

module _ (top : ℕ) (t : NTable) (g : IsGraph t) (rows : ℕ → ℕ → PLink)
    (short : (i : ℕ) → i < t.size → IsShortest top t i (rows i)) where
  -- What a round of a loop of `computePaths` leaves.
  abbrev Round : Paths → Option Paths → (ℕ × ℕ → Type 0) → Type 0
  Round s o Makes =
      (s' : Paths) × (o ≡ some s')
      × NoParent top t rows s'
      × ((k : ℕ × ℕ) → Makes k → Good top t rows k s')
      × ((k : ℕ × ℕ) → Good top t rows k s → Good top t rows k s')

  now_linked :
      (s : Paths) (i j : ℕ)
      → i < j
      → j < t.size
      → (rows i j).dist < top
      → (m : ℕ) → suc m < t.size
      → (last : IsLink t (rows i) j) → {o : Option (ℕ × ℕ)} → (f : IsFirst t (rows i) i j (1 + m) o)
      → IsLinked t rows (linked top t g rows short s i j last.prev f.node (1 + m)) i j
  now_linked s i j ij hj near m few last {o} f =
      let hi : i < t.size = omega (arith, ij, hj) in
      let p = last.prev in
      let q = f.node in
      let apart = pid_injective top t g rows short i j hi hj in
      let parents = get_parent-linked top t g rows short s i j p q (1 + m) in
      let hops = get_hop_count-linked top t g rows short s i j p q (1 + m) in
      record {
        forth = record {
          parent = p;
          at = ground (arith, parents (t.pid i) (t.pid j), apart, ij);
          step = record {
            inside = last.inside;
            edge = last.edge;
            over = last.over;
            ends = last.ends;
            sum = last.sum;
          };
        };
        back = record {
          parent = q;
          at = ground (arith, parents (t.pid j) (t.pid i), apart, ij);
          step = first-IsStep top t g rows short i j (1 + m) o hi hj near f;
        };
        hops = 1 + m;
        hops_forth = ground (arith, hops (t.pid i) (t.pid j), apart, ij);
        hops_back = ground (arith, hops (t.pid j) (t.pid i), apart, ij);
        some_hops = omega arith;
        few_hops = omega (arith, few);
      }

  still_unlinked :
      (s : Paths) (i j p q n : ℕ)
      → i < j
      → j < t.size
      → (rows i j).dist < top
      → NoParent top t rows s
      → NoParent top t rows (linked top t g rows short s i j p q n)
  still_unlinked s i j p q n ij hj near unlinked r v hr hv ne far =
      let hi : i < t.size = omega (arith, ij, hj) in
      let not_forth : (r == i && v == j) ≡ false = ground (arith, near, far) in
      let not_back : (r == j && v == i) ≡ false =
        ground (arith, near, far, dist_symmetric top t g rows short i j hi hj) in
      get_parent-other top t g rows short s i j p q n hi hj r v hr hv not_forth not_back
      ∙ unlinked r v hr hv ne far

  link_pair-Round :
      (i j : ℕ)
      → i < j
      → j < t.size
      → (s : Paths) → NoParent top t rows s
      → Round s (link_pair t rows i j s) (λ k. (k.0 ≡ i) × (k.1 ≡ j))
  unfolding link_pair
  link_pair-Round i j ij hj s unlinked =
      let hi : i < t.size = omega (arith, ij, hj) in
      elim (Bool-cases (ltb ((rows i j).dist) top)) [
        | inr far ↦
            let none_there =
              (short i hi).unreached j (ground (arith, ij))
                (ground (arith, far, (short i hi).bounded j)) in
            (
              s,
              rw (link_pair, none_there) refl,
              unlinked,
              λ k (e, e') l f d. absurd (ground (arith, e, e', d, far)),
              λ k good. good,
            )
        | inl less ↦
            let near : (rows i j).dist < top = ground (arith, less) in
            let last = (short i hi).links j (ground (arith, ij)) near in
            let (n, path, few) = (short i hi).back j hj near in
            let (m, size, path') = Back-away (ground (arith, ij)) path in
            let f =
              first_hop-IsFirst top t i (rows i) (short i hi) t.size j m 1 near path'
                (omega (arith, size, few)) in
            let new = now_linked s i j ij hj near m (omega (arith, size, few)) last f in
            let s' = linked top t g rows short s i j last.prev f.node (1 + m) in
            (
              s',
              rw (link_pair, last.link, f.found) refl,
              still_unlinked s i j last.prev f.node (1 + m) ij hj near unlinked,
              λ (a, b) (e, e') l h d.
                  subst₂ (IsLinked t rows s') {x = i} {u = j} (ground (arith, e))
                    (ground (arith, e')) new,
              λ (a, b) good l h d. elim (Bool-cases (a == i && b == j)) [
                | inl same ↦
                    subst₂ (IsLinked t rows s') {x = i} {u = j} (ground (arith, same))
                      (ground (arith, same)) new
                | inr other ↦
                    still_linked top t g rows short s i j last.prev f.node (1 + m) a b ij hj l h
                      other (good l h d)
              ],
            )
      ]

  link_node-Round :
      (i : ℕ)
      → i < t.size
      → (s : Paths) → NoParent top t rows s
      → Round s (link_node t rows i s) (λ k. (k.0 ≡ i) × (i < k.1) × (k.1 < t.size))
  unfolding link_node
  link_node-Round i hi s unlinked =
      let (s', e, unlinked', made, kept) =
        for_each-all (link_pair t rows i) (NoParent top t rows) (Good top t rows)
          (λ j. (i < j) × (j < t.size)) (λ j k. (k.0 ≡ i) × (k.1 ≡ j))
          (λ j (ij, hj) s u. link_pair-Round i j ij hj s u) (range (suc i) (t.size - suc i))
          (λ j m.
            let (low, high) = range_mem (suc i) (t.size - suc i) j m in
            (low, omega (arith, high, hi)))
          (rooted top t g rows short s i hi)
          (λ r v hr hv ne far.
            get_parent-rooted top t g rows short s i hi r v hr hv ne ∙ unlinked r v hr hv ne far) in
      (
        s',
        e,
        unlinked',
        λ k (e', low, high).
            made k.1 k (mem_range (suc i) (t.size - suc i) k.1 low (omega (arith, high)))
              (e', refl),
        λ (a, b) good.
            kept (a, b) (λ l h d. rooted_linked top t g rows short s i hi a b l h (good l h d)),
      )

  pub link_nodes-Round :
      Round
        (λ _. none)
        (for_each (range 0 t.size) (link_node t rows) (λ _. none))
        (λ k. (k.0 < k.1) × (k.1 < t.size))
  unfolding get_parent link_at
  link_nodes-Round =
      let (s', e, unlinked', made, kept) =
        for_each-all (link_node t rows) (NoParent top t rows) (Good top t rows) (λ i. i < t.size)
          (λ i k. (k.0 ≡ i) × (i < k.1) × (k.1 < t.size)) link_node-Round (range 0 t.size)
          (λ i m. omega (arith, (range_mem 0 t.size i m).1)) (λ _. none)
          (λ r v hr hv ne far. refl) in
      (
        s',
        e,
        unlinked',
        λ k (low, high).
            made k.0 k (mem_range 0 t.size k.0 (omega arith) (omega (arith, low, high)))
              (refl, low, high),
        kept,
      )

-- The trees of shortest paths: every node that is in reach has a parent on a shortest path from the
-- root, every other has none, and the number of hops is the same both ways.
pub record IsTrees (top : ℕ) (t : NTable) (rows : ℕ → ℕ → PLink) (s : Paths) : Type 0 where
  pub shortest : (i : ℕ) → i < t.size → IsShortest top t i (rows i)
  pub parents :
      (r v : ℕ) → r < t.size → v < t.size → r ≢ v → (rows r v).dist < top → IsParent t rows s r v
  pub no_parents :
      (r v : ℕ)
      → r < t.size
      → v < t.size
      → r ≢ v
      → (rows r v).dist ≡ top
      → get_parent s (t.pid r) (t.pid v) ≡ none
  pub hops :
      (r v : ℕ)
      → r < t.size
      → v < t.size
      → r ≢ v
      → (rows r v).dist < top
      → (n : ℕ) × (get_hop_count s (t.pid v) (t.pid r) ≡ some n)
        × (get_hop_count s (t.pid r) (t.pid v) ≡ some n)
        × (0 < n)
        × (n < t.size)
