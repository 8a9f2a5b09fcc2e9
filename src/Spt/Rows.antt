-- ===== src/Spt/Rows.antt =====
-- The rows that `computePaths` (SPTsBroadcastLayer.cc) works on, and the walks along their links.
use ccnpl_sim.Prelude.{
  ℕ, zero, suc, ◌+◌, ◌≤◌, ◌<◌, ◌≡◌, ◌≢◌, refl, ◌==◌, Bool-cases, inl, inr, Option, none, some,
  subst, arith,
}
use mathlib.Core.List.{Memᴰ}
use ccnpl_sim.Spt.Heap.{write}
use ccnpl_sim.Spt.Table.{Adj, NTable}
use ccnpl_sim.Spt.Dijkstra.{PLink}
use ccnpl_sim.Spt.Relaxed.{IsClosed, Walk, start, onward}
use ccnpl_sim.Spt.Shortest.{Back, home, link, IsShortest, dijkstra-IsShortest, walk_end}
use ccnpl_sim.Spt.Graph.{IsGraph}
use ccnpl_sim.Spt.Layer.{compute_rows, first_hop}

pub compute_rows-IsShortest :
    (top : ℕ) (t : NTable)
    → IsClosed t
    → (n : ℕ) → n ≤ t.size
    → (rows : ℕ → ℕ → PLink) × (compute_rows top t n ≡ some rows)
      × ((i : ℕ) → i < n → IsShortest top t i (rows i))
unfolding compute_rows
compute_rows-IsShortest top t closed zero few =
    ((λ i v. record { prev = none; dist = top }), refl, λ i l. absurd (omega (arith, l)))
compute_rows-IsShortest top t closed (suc n) few =
    let (rows, e, short) = compute_rows-IsShortest top t closed n (omega (arith, few)) in
    let (row, e', short') = dijkstra-IsShortest top t closed n few in
    (
      write rows n row,
      rw (e, e', compute_rows) refl,
      λ i l. elim (Bool-cases (i == n)) [
        | inl here ↦
            rw here (subst (λ x. IsShortest top t x row) {x = n} (ground (arith, here)) short')
        | inr there ↦ rw there (short i (ground (arith, l, there)))
      ],
    )

-- A walk may begin with an edge.
walk_before :
    (t : NTable) {u : ℕ}
    → (a : Adj) → Memᴰ a (t.adj u)
    → {v d : ℕ} → Walk t a.nid v d
    → Walk t u v (a.len + d)
walk_before t {u} a m start =
    let one : Walk t u a.nid (0 + a.len) = onward start a m in
    subst (Walk t u a.nid) (omega arith) one
walk_before t {u} a m (onward {d} w b m') =
    subst (Walk t u b.nid) {x = a.len + d + b.len} (omega arith) (onward (walk_before t a m w) b m')

pub walk_back : (t : NTable) → IsGraph t → {u v d : ℕ} → u < t.size → Walk t u v d → Walk t v u d
walk_back t g inside start = start
walk_back t g {u} inside (onward {u = w} {d} walk a m) =
    let at_w = walk_end t g.closed u inside walk in
    subst (Walk t a.nid u) (omega arith) (
      walk_before t (record { nid = w; len = a.len }) (g.symmetric w at_w a m)
        (walk_back t g inside walk))

-- What the loop that counts the hops from `v` finds.
pub record IsFirst (t : NTable) (row : ℕ → PLink) (i v hops : ℕ) (o : Option (ℕ × ℕ)) : Type 0 where
  pub node : ℕ
  pub found : o ≡ some (node, hops)
  pub away : node ≢ i
  pub link : (row node).prev ≡ some i
  pub less : (row node).dist ≤ (row v).dist
  pub rest : ℕ
  pub walk : Walk t node v rest
  pub sum : (row v).dist ≡ (row node).dist + rest

Back-home : {i v n : ℕ} {row : ℕ → PLink} → v ≡ i → Back i row v n → n ≡ 0
Back-home e home = refl
Back-home e (link away l b) = absurd (away e)

pub Back-away :
    {i v n : ℕ} {row : ℕ → PLink}
    → v ≢ i
    → Back i row v n
    → (m : ℕ) × (n ≡ suc m) × Back i row v (suc m)
Back-away away home = absurd (away refl)
Back-away away (link {n} ne l b) = (n, refl, link ne l b)

pub first_hop-IsFirst :
    (top : ℕ) (t : NTable) (i : ℕ) (row : ℕ → PLink)
    → IsShortest top t i row
    → (fuel v n hop_count : ℕ) → (row v).dist < top
    → Back i row v (suc n)
    → n < fuel
    → IsFirst t row i v (hop_count + n) (first_hop fuel row i v hop_count)
unfolding first_hop
first_hop-IsFirst top t i row short zero v n hop_count near back enough =
    absurd (omega (arith, enough))
first_hop-IsFirst top t i row short (suc fuel) v n hop_count near (link {p} away l back) enough =
    elim (Bool-cases (p == i)) [
      | inl last ↦
          rw (first_hop, l, last)
            (record {
              node = v;
              found = ground (arith, Back-home (ground (arith, last)) back);
              away = away;
              link = ground (arith, l, last);
              less = omega arith;
              rest = 0;
              walk = start;
              sum = omega arith;
            })
      | inr more ↦
          let last_edge = short.links v away near in
          let same : last_edge.prev ≡ p = ground (arith, last_edge.link, l) in
          let near_p : (row p).dist < top = ground (arith, last_edge.sum, same, near) in
          let (m, size, back') = Back-away (ground (arith, more)) back in
          let f =
            first_hop-IsFirst top t i row short fuel p m (suc hop_count) near_p back'
              (omega (arith, size, enough)) in
          rw (first_hop, l, more)
            (record {
              node = f.node;
              found = ground (arith, f.found, size);
              away = f.away;
              link = f.link;
              less = ground (arith, f.less, last_edge.sum, same);
              rest = f.rest + last_edge.edge.len;
              walk =
                  subst (λ x. Walk t f.node x (f.rest + last_edge.edge.len)) last_edge.ends
                    (onward f.walk last_edge.edge (
                      subst (λ x. Memᴰ last_edge.edge (t.adj x)) {x = last_edge.prev} same
                        last_edge.over));
              sum = ground (arith, f.sum, last_edge.sum, same);
            })
    ]
