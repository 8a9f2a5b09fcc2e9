-- ===== src/Tests/Predicates.antt =====
-- The theorems on the predicates of CBCBNode.cc at concrete inputs, with limits for predicates.
use ccnpl_sim.Prelude.{
  ℕ, ◌≡◌, ◌≢◌, ◌⊎◌, refl, max, leb, ◌==◌, if◌then◌else◌, not, true, false, [], ◌∷◌, none, some,
  arith,
}
use ccnpl_sim.Spt.Layer.{Paths, get_children}
use ccnpl_sim.Routing.Table.{Predicates, Router}
use ccnpl_sim.Routing.Protocol.{Host, signal_all, process_ra, set_predicate}
use ccnpl_sim.Routing.Covers.{IsLawful, Grows, process_ra-covers, set_predicate-covers}

-- A predicate that holds below a number.
abbrev limits : Predicates ℕ
limits = record { empty = 0; size = λ p. p; add = max; covers = λ p q. leb q p; prefixes = λ p. [] }

limits-IsLawful : IsLawful limits
limits-IsLawful = record { adds = λ p q. ground arith; keeps = λ p q r c. ground (arith, c) }

-- Process 5, with the children 6 and 7 and the parent 4 in the tree of process 4.
abbrev tree_of_4 : Paths
tree_of_4 r =
    if r == 4
    then some (λ v.
      if v == 5
      then some (record { prev = some 4; next = 6 ∷ 7 ∷ []; hop_count = some 1 })
      else none)
    else none

abbrev host_5 : Host
host_5 = record {
  pid = 5;
  p2i = λ p. p;
  paths = tree_of_4;
  alternatives = λ _ _ _. none;
  refresh = true;
  immediate = true;
  srsp_count = none;
}

-- The entry of interface 6 covers what is below 3.
abbrev router : Router ℕ
router = record {
  route_table = λ i. if i == 6 then 3 else 0;
  prefix_table = λ _. none;
  route_table_dirty = false;
  issue_pending = false;
  sr_responses = λ n. if n == 1 then some (record { respondees = 6 ∷ 7 ∷ []; pred = 0 }) else none;
  msg_sent_counts = λ _. 0;
}

process_ra-covers_example :
    let r' = (process_ra limits host_5 6 4 none 1 8 router).0 in
    (limits.covers (r'.route_table 6) 8 ≡ true)
    × Grows limits router r'
    × ((i : ℕ) → i ≢ 6 → r'.route_table i ≡ router.route_table i)
    × ((r'.route_table_dirty ≡ true) ⊎ (r' ≡ router))
process_ra-covers_example = process_ra-covers limits limits-IsLawful host_5 6 4 none 1 8 router

set_predicate-covers_example :
    let (r', sent) = set_predicate limits host_5 2 router in
    (limits.covers (r'.route_table 0) 2 ≡ true)
    × Grows limits router r'
    × ((limits.covers (router.route_table 0) 2 ≡ false)
        → (r'.issue_pending ≡ not host_5.immediate)
          × (sent ≡ (
              if host_5.immediate
              then signal_all limits host_5 (get_children host_5.paths 5 5) 5 1 (r'.route_table 0)
              else [])))
set_predicate-covers_example = set_predicate-covers limits limits-IsLawful host_5 2 router refl
