-- ===== src/Spt/Numbering.antt =====
-- The node ids of the auxiliary graphs of `computeAlternativePaths` (SPTsBroadcastLayer.cc) beside the
-- process ids, where the nodes are entered first.
use ccnpl_sim.Prelude.{
  ℕ, zero, suc, ◌+◌, ◌<◌, ◌≡◌, ◌≢◌, refl, ltb, if◌then◌else◌, false, Bool-cases, inl, inr, List, [],
  ◌∷◌, ◌++◌, none, some, subst, arith,
}
use mathlib.Core.List.{Memᴰ}
use mathlib.Core.List.Memᴰ.{head, tail}
use ccnpl_sim.Spt.Table.{Edge, NTable, new_table, add_node, connect, add_edge, add_edges}
use ccnpl_sim.Spt.Alternative.{in_path, remaining}

-- Node ids are process ids.
pub record IsIdentity (n : ℕ) (t : NTable) : Type 0 where
  pub size : t.size ≡ n
  pub ids : (p : ℕ) → t.reverse_map p ≡ (if ltb p n then some p else none)

-- The edges that `addNode` enters for the nodes from `from` on.
abbrev pub loops : ℕ → ℕ → List Edge
loops from zero = []
loops from (suc n) = record { from = from; to = from; len = 0 } ∷ loops (suc from) n

abbrev pub IsWithin : ℕ → List Edge → Type 0
IsWithin n es = (e : Edge) → Memᴰ e es → (e.from < n) × (e.to < n)

add_loop-IsIdentity :
    (n : ℕ) (t : NTable)
    → IsIdentity n t
    → IsIdentity (suc n) (add_edge (record { from = n; to = n; len = 0 }) t)
unfolding add_edge add_node connect
add_loop-IsIdentity n t d = record {
  size = ground (arith, d.size, d.ids n);
  ids = λ p. ground (arith, d.size, d.ids n, d.ids p);
}

add_link-IsIdentity :
    (n : ℕ) (t : NTable) (e : Edge)
    → e.from < n
    → e.to < n
    → IsIdentity n t
    → IsIdentity n (add_edge e t)
unfolding add_edge add_node connect
add_link-IsIdentity n t e low high d = record {
  size = ground (arith, d.size, d.ids e.from, d.ids e.to, low, high);
  ids = λ p. ground (arith, d.size, d.ids e.from, d.ids e.to, d.ids p, low, high);
}

loops-IsIdentity :
    (n k : ℕ) (t : NTable) → IsIdentity k t → IsIdentity (k + n) (add_edges (loops k n) t)
unfolding add_edges
loops-IsIdentity zero k t d = subst (λ m. IsIdentity m t) (omega arith) d
loops-IsIdentity (suc n) k t d =
    subst (λ m. IsIdentity m (add_edges (loops k (suc n)) t)) {x = suc k + n} (omega arith)
      (loops-IsIdentity n (suc k) (add_edge (record { from = k; to = k; len = 0 }) t)
        (add_loop-IsIdentity k t d))

links-IsIdentity :
    (n : ℕ) (es : List Edge) (t : NTable)
    → IsWithin n es
    → IsIdentity n t
    → IsIdentity n (add_edges es t)
unfolding add_edges
links-IsIdentity n [] t within d = d
links-IsIdentity n (e ∷ es) t within d =
    let (low, high) = within e (head refl) in
    links-IsIdentity n es (add_edge e t) (λ f m. within f (tail m))
      (add_link-IsIdentity n t e low high d)

add_edges-append :
    (es fs : List Edge) (t : NTable) → add_edges (es ++ fs) t ≡ add_edges fs (add_edges es t)
unfolding add_edges
add_edges-append [] fs t = refl
add_edges-append (e ∷ es) fs t = add_edges-append es fs (add_edge e t)

abbrev pub IsLoopless : List Edge → Type 0
IsLoopless es = (e : Edge) → Memᴰ e es → e.from ≢ e.to

in_path-loop :
    (es : List Edge) (k : ℕ)
    → IsLoopless es
    → in_path es (record { from = k; to = k; len = 0 }) ≡ false
in_path-loop [] k loopless = refl
in_path-loop (e ∷ es) k loopless =
    ground (arith, loopless e (head refl), in_path-loop es k (λ f m. loopless f (tail m)))

remaining-loops :
    (explored links : List Edge) (k n : ℕ)
    → IsLoopless explored
    → remaining explored (loops k n ++ links) ≡ loops k n ++ remaining explored links
unfolding remaining
remaining-loops explored links k zero loopless = refl
remaining-loops explored links k (suc n) loopless =
    rw (in_path-loop explored k loopless, remaining-loops explored links (suc k) n loopless) refl

pub remaining-IsWithin :
    (n : ℕ) (explored es : List Edge) → IsWithin n es → IsWithin n (remaining explored es)
unfolding remaining
remaining-IsWithin n explored [] within e m = elim m [ ]
remaining-IsWithin n explored (f ∷ es) within e m =
    let below : IsWithin n (remaining explored es) =
      remaining-IsWithin n explored es (λ g h. within g (tail h)) in
    elim (Bool-cases (in_path explored f)) [
      | inl seen ↦ below e (subst (Memᴰ e) {y = remaining explored es} (ground (arith, seen)) m)
      | inr new ↦ elim (subst (Memᴰ e) {y = f ∷ remaining explored es} (ground (arith, new)) m) [
        | head q ↦ ground (arith, within f (head refl), q)
        | tail m' ↦ below e m'
      ]
    ]

pub remaining-IsIdentity :
    (n : ℕ) (explored links : List Edge)
    → IsLoopless explored
    → IsWithin n links
    → IsIdentity n (add_edges (remaining explored (loops 0 n ++ links)) new_table)
unfolding new_table
remaining-IsIdentity n explored links loopless within =
    rw
      (
        remaining-loops explored links 0 n loopless,
        add_edges-append (loops 0 n) (remaining explored links) new_table,
      )
      (links-IsIdentity n (remaining explored links) (add_edges (loops 0 n) new_table)
        (remaining-IsWithin n explored links within)
        (subst (λ m. IsIdentity m (add_edges (loops 0 n) new_table)) {x = 0 + n} (omega arith)
          (loops-IsIdentity n 0 new_table (record { size = refl; ids = λ p. ground arith }))))
