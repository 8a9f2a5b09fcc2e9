-- ===== src/Spt/Disjoint.antt =====
-- The recursion of `computeAlternativePaths` (SPTsBroadcastLayer.cc), and the links of its paths.
use ccnpl_sim.Prelude.{
  ℕ, zero, suc, ◌≤◌, ◌<◌, ◌≡◌, ◌≢◌, refl, ◌||◌, true, inl, inr, List, [], ◌∷◌, ◌++◌, none, some,
  length, arith,
}
use mathlib.Core.List.{Memᴰ}
use mathlib.Core.List.Memᴰ.{head, tail}
use ccnpl_sim.Spt.Table.{Adj, Edge, NTable, new_table, add_edges}
use ccnpl_sim.Spt.Graph.{IsGraph, new_table-IsGraph, add_edges-IsGraph}
use ccnpl_sim.Spt.Entered.{find_len, joins, first_between, between-add_edges}
use ccnpl_sim.Spt.Single.{Route, home, over, IsPath, dijkstra_to, dijkstra_to-IsPath}
use ccnpl_sim.Spt.Numbering.{IsIdentity, loops, IsWithin, IsLoopless, remaining-IsIdentity}
use ccnpl_sim.Spt.Alternative.{
  in_path, remaining, record_path, insert_path, AlternativePaths, compute_alternative_paths,
}

in_path-append :
    (xs ys : List Edge) (e : Edge) → in_path (xs ++ ys) e ≡ (in_path xs e || in_path ys e)
in_path-append [] ys e = refl
in_path-append (x ∷ xs) ys e = ground (arith, in_path-append xs ys e)

remaining-append :
    (xs ys es : List Edge) → length (remaining (xs ++ ys) es) ≤ length (remaining xs es)
unfolding remaining
remaining-append xs ys [] = omega arith
remaining-append xs ys (e ∷ es) = ground (arith, in_path-append xs ys e, remaining-append xs ys es)

-- An edge of the auxiliary graph that is on the new path is not in the next one.
remaining-append_less :
    (xs ys es : List Edge) (p v : ℕ)
    → ((e : Edge) → joins e p v ≡ true → in_path ys e ≡ true)
    → first_between (remaining xs es) p v ≢ none
    → length (remaining (xs ++ ys) es) < length (remaining xs es)
unfolding remaining
remaining-append_less xs ys [] p v on there = absurd (there refl)
remaining-append_less xs ys (e ∷ es) p v on there = ground (
  arith,
  in_path-append xs ys e,
  remaining-append xs ys es,
  remaining-append_less xs ys es p v on,
  on e,
  there,
)

find_len_of_mem : (a : Adj) (l : List Adj) → Memᴰ a l → find_len a.nid l ≢ none
find_len_of_mem a [] m = elim m [ ]
find_len_of_mem a (b ∷ l) (head e) = ground (arith, e)
find_len_of_mem a (b ∷ l) (tail m) = ground (arith, find_len_of_mem a l m)

-- A link of the table is that of an edge that was entered.
entered_edge :
    (n : ℕ) (es : List Edge) (p v : ℕ) (a : Adj)
    → IsIdentity n (add_edges es new_table)
    → p < (add_edges es new_table).size
    → Memᴰ a ((add_edges es new_table).adj p)
    → a.nid ≡ v
    → first_between es p v ≢ none
unfolding new_table
entered_edge n es p v a ids inside m ends =
    let t = add_edges es new_table in
    let g = add_edges-IsGraph es new_table new_table-IsGraph in
    ground (
      arith,
      between-add_edges es new_table new_table-IsGraph p v,
      ids.size,
      ids.ids p,
      ids.ids v,
      inside,
      g.closed p inside a m,
      ends,
      find_len_of_mem a (t.adj p) m,
    )

route-IsLoopless :
    (t : NTable) (root : ℕ) {v d : ℕ} {es : List Edge} → Route t root v es d → IsLoopless es
route-IsLoopless t root home e m = elim m [ ]
route-IsLoopless t root (over apart inside a on ends rest) e (head q) = ground (arith, apart, q)
route-IsLoopless t root (over apart inside a on ends rest) e (tail m) =
    route-IsLoopless t root rest e m

append-IsLoopless : (xs ys : List Edge) → IsLoopless xs → IsLoopless ys → IsLoopless (xs ++ ys)
append-IsLoopless [] ys l l' e m = l' e m
append-IsLoopless (x ∷ xs) ys l l' e (head q) = l e (head q)
append-IsLoopless (x ∷ xs) ys l l' e (tail m) = append-IsLoopless xs ys (λ f h. l f (tail h)) l' e m

-- The auxiliary graph loses an edge with every path that is found.
pub path_less :
    (n root : ℕ) (explored input : List Edge) {v d : ℕ} (e : Edge) (es : List Edge)
    → IsIdentity n (add_edges (remaining explored input) new_table)
    → Route (add_edges (remaining explored input) new_table) root v (e ∷ es) d
    → length (remaining (explored ++ (e ∷ es)) input) < length (remaining explored input)
path_less n root explored input {v} e es ids (over {p} apart inside a on ends rest) =
    remaining-append_less explored (e ∷ es) input p v (λ f j. ground (arith, j))
      (entered_edge n (remaining explored input) p v a ids inside on ends)

module _ (top n : ℕ) (links : List Edge) (within : IsWithin n links) (from to : ℕ) (hf : from < n)
    (ht : to < n) where
  abbrev Ends : ℕ → List Edge → Type 0
  Ends fuel explored =
      (number : ℕ) (paths : AlternativePaths)
      → (paths' : AlternativePaths) × (compute_alternative_paths fuel top (loops 0 n ++ links)
            explored from to number paths
          ≡ some paths')

  -- A round on a path that was found, where the rounds after it end.
  round-Ends :
      (fuel : ℕ) (explored path : List Edge)
      → IsLoopless explored
      → dijkstra_to top (add_edges (remaining explored (loops 0 n ++ links)) new_table) from to
        ≡ some path
      → IsPath top (add_edges (remaining explored (loops 0 n ++ links)) new_table) from to path
      → (IsLoopless (explored ++ path)
          → length (remaining (explored ++ path) (loops 0 n ++ links))
            < length (remaining explored (loops 0 n ++ links))
          → Ends fuel (explored ++ path))
      → Ends (suc fuel) explored
  unfolding compute_alternative_paths
  round-Ends fuel explored [] loopless e best next number paths =
      (paths, rw (compute_alternative_paths, e) refl)
  round-Ends fuel explored (f ∷ es) loopless e best next number paths = elim best.path [
    | inr (_, q) ↦ absurd (ground (arith, q))
    | inl (_, route) ↦
        let ids = remaining-IsIdentity n explored links loopless within in
        let t = add_edges (remaining explored (loops 0 n ++ links)) new_table in
        let (paths', e') =
          next (append-IsLoopless explored (f ∷ es) loopless (route-IsLoopless t from route))
            (path_less n from explored (loops 0 n ++ links) f es ids route) (suc number)
            (insert_path to from number (record_path (f ∷ es) ((λ _. none), (λ _. none))).1 (
              insert_path from to number (record_path (f ∷ es) ((λ _. none), (λ _. none))).0
                paths)) in
        (paths', rw (compute_alternative_paths, e) e')
  ]

  -- Where the nodes were entered first, from 0 on, and the links lead between them,
  -- `computeAlternativePaths` ends without a fault from any links between different nodes that are
  -- explored, within one round more than there are edges left.
  pub compute_alternative_paths_total :
      (fuel : ℕ) (explored : List Edge)
      → IsLoopless explored
      → length (remaining explored (loops 0 n ++ links)) < fuel
      → (number : ℕ) (paths : AlternativePaths)
      → (paths' : AlternativePaths) × (compute_alternative_paths fuel top
            (loops 0 n ++ links)
            explored
            from
            to
            number
            paths
          ≡ some paths')
  compute_alternative_paths_total zero explored loopless enough number paths =
      absurd (omega (arith, enough))
  compute_alternative_paths_total (suc fuel) explored loopless enough number paths =
      let input = loops 0 n ++ links in
      let t = add_edges (remaining explored input) new_table in
      let ids = remaining-IsIdentity n explored links loopless within in
      let g : IsGraph t =
        add_edges-IsGraph (remaining explored input) new_table new_table-IsGraph in
      let (path, e, best) =
        dijkstra_to-IsPath top t g.closed from to (omega (arith, ids.size, hf))
          (omega (arith, ids.size, ht)) in
      round-Ends fuel explored path loopless e best
        (λ l less.
          compute_alternative_paths_total fuel (explored ++ path) l (omega (arith, less, enough)))
        number paths
