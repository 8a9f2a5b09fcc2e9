-- ===== src/Spt/Pairs.antt =====
-- The links between two nodes that `computePaths` (SPTsBroadcastLayer.cc) writes, and those it keeps.
use ccnpl_sim.Prelude.{ℕ, ◌<◌, ◌≡◌, ◌≢◌, false, ◌∙◌, ◌==◌, ◌&&◌, if◌then◌else◌, some, arith}
use ccnpl_sim.Spt.Table.{NTable}
use ccnpl_sim.Spt.Dijkstra.{PLink}
use ccnpl_sim.Spt.Shortest.{IsShortest}
use ccnpl_sim.Spt.Graph.{IsGraph}
use ccnpl_sim.Spt.Layer.{Paths, set_link, add_child, get_parent, get_hop_count}
use ccnpl_sim.Spt.Parents.{IsLinked, pid_injective}
use ccnpl_sim.Spt.Links.{
  get_parent-set_link, get_hop_count-set_link, get_parent-add_child, get_hop_count-add_child,
}

module _ (top : ℕ) (t : NTable) (g : IsGraph t) (rows : ℕ → ℕ → PLink)
    (short : (i : ℕ) → i < t.size → IsShortest top t i (rows i)) where
  -- A write of the links between two nodes.
  abbrev pub linked : Paths → ℕ → ℕ → ℕ → ℕ → ℕ → Paths
  linked s i j p q n =
      add_child
        (set_link
          (add_child (set_link s (t.pid i) (t.pid j) (t.pid p) n) (t.pid i) (t.pid p) (t.pid j))
          (t.pid j) (t.pid i) (t.pid q) n)
        (t.pid j) (t.pid q) (t.pid i)

  module _ (s : Paths) (i j p q n r v : ℕ) where
    pub get_parent-linked : get_parent (linked s i j p q n) r v ≡ (
        if r == t.pid j && v == t.pid i
        then some (t.pid q)
        else if r == t.pid i && v == t.pid j
        then some (t.pid p)
        else get_parent s r v)
    get_parent-linked =
        let s₁ = set_link s (t.pid i) (t.pid j) (t.pid p) n in
        let s₂ = add_child s₁ (t.pid i) (t.pid p) (t.pid j) in
        let s₃ = set_link s₂ (t.pid j) (t.pid i) (t.pid q) n in
        ground (
          arith,
          get_parent-add_child s₃ (t.pid j) (t.pid q) r v (t.pid i),
          get_parent-set_link s₂ (t.pid j) (t.pid i) r v (t.pid q) n,
          get_parent-add_child s₁ (t.pid i) (t.pid p) r v (t.pid j),
          get_parent-set_link s (t.pid i) (t.pid j) r v (t.pid p) n,
        )

    pub get_hop_count-linked : get_hop_count (linked s i j p q n) v r ≡ (
        if r == t.pid j && v == t.pid i
        then some n
        else if r == t.pid i && v == t.pid j
        then some n
        else get_hop_count s v r)
    get_hop_count-linked =
        let s₁ = set_link s (t.pid i) (t.pid j) (t.pid p) n in
        let s₂ = add_child s₁ (t.pid i) (t.pid p) (t.pid j) in
        let s₃ = set_link s₂ (t.pid j) (t.pid i) (t.pid q) n in
        ground (
          arith,
          get_hop_count-add_child s₃ (t.pid j) (t.pid q) r v (t.pid i),
          get_hop_count-set_link s₂ (t.pid j) (t.pid i) r v (t.pid q) n,
          get_hop_count-add_child s₁ (t.pid i) (t.pid p) r v (t.pid j),
          get_hop_count-set_link s (t.pid i) (t.pid j) r v (t.pid p) n,
        )

  module _ (s : Paths) (i j p q n : ℕ) (hi : i < t.size) (hj : j < t.size) (r v : ℕ)
      (hr : r < t.size) (hv : v < t.size) (not_forth : (r == i && v == j) ≡ false)
      (not_back : (r == j && v == i) ≡ false) where
    pub get_parent-other :
        get_parent (linked s i j p q n) (t.pid r) (t.pid v) ≡ get_parent s (t.pid r) (t.pid v)
    get_parent-other = ground (
      arith,
      get_parent-linked s i j p q n (t.pid r) (t.pid v),
      pid_injective top t g rows short r i hr hi,
      pid_injective top t g rows short v j hv hj,
      pid_injective top t g rows short r j hr hj,
      pid_injective top t g rows short v i hv hi,
      not_forth,
      not_back,
    )

    pub get_hop_count-other :
        get_hop_count (linked s i j p q n) (t.pid v) (t.pid r) ≡ get_hop_count s (t.pid v) (t.pid r)
    get_hop_count-other = ground (
      arith,
      get_hop_count-linked s i j p q n (t.pid r) (t.pid v),
      pid_injective top t g rows short r i hr hi,
      pid_injective top t g rows short v j hv hj,
      pid_injective top t g rows short r j hr hj,
      pid_injective top t g rows short v i hv hi,
      not_forth,
      not_back,
    )

  pub still_linked :
      (s : Paths) (i j p q n a b : ℕ)
      → i < j
      → j < t.size
      → a < b
      → b < t.size
      → (a == i && b == j) ≡ false
      → IsLinked t rows s a b
      → IsLinked t rows (linked s i j p q n) a b
  still_linked s i j p q n a b ij hj ab hb other l =
      let hi : i < t.size = omega (arith, ij, hj) in
      let ha : a < t.size = omega (arith, ab, hb) in
      let no : (a == j && b == i) ≡ false = ground (arith, ij, ab) in
      let no' : (b == i && a == j) ≡ false = ground (arith, ij, ab) in
      let other' : (b == j && a == i) ≡ false = ground (arith, other) in
      record {
        forth = record {
          parent = l.forth.parent;
          at = get_parent-other s i j p q n hi hj a b ha hb other no ∙ l.forth.at;
          step = l.forth.step;
        };
        back = record {
          parent = l.back.parent;
          at = get_parent-other s i j p q n hi hj b a hb ha no' other' ∙ l.back.at;
          step = l.back.step;
        };
        hops = l.hops;
        hops_forth = get_hop_count-other s i j p q n hi hj a b ha hb other no ∙ l.hops_forth;
        hops_back = get_hop_count-other s i j p q n hi hj b a hb ha no' other' ∙ l.hops_back;
        some_hops = l.some_hops;
        few_hops = l.few_hops;
      }

  module _ (s : Paths) (i : ℕ) (hi : i < t.size) where
    abbrev pub rooted : Paths
    rooted = set_link s (t.pid i) (t.pid i) (t.pid i) 0

    module _ (r v : ℕ) (hr : r < t.size) (hv : v < t.size) (ne : r ≢ v) where
      pub get_parent-rooted :
          get_parent rooted (t.pid r) (t.pid v) ≡ get_parent s (t.pid r) (t.pid v)
      get_parent-rooted = ground (
        arith,
        get_parent-set_link s (t.pid i) (t.pid i) (t.pid r) (t.pid v) (t.pid i) 0,
        pid_injective top t g rows short r i hr hi,
        pid_injective top t g rows short v i hv hi,
        ne,
      )

      get_hop_count-rooted :
          get_hop_count rooted (t.pid v) (t.pid r) ≡ get_hop_count s (t.pid v) (t.pid r)
      get_hop_count-rooted = ground (
        arith,
        get_hop_count-set_link s (t.pid i) (t.pid i) (t.pid r) (t.pid v) (t.pid i) 0,
        pid_injective top t g rows short r i hr hi,
        pid_injective top t g rows short v i hv hi,
        ne,
      )

    pub rooted_linked :
        (a b : ℕ) → a < b → b < t.size → IsLinked t rows s a b → IsLinked t rows rooted a b
    rooted_linked a b ab hb l =
        let ha : a < t.size = omega (arith, ab, hb) in
        let ne : a ≢ b = ground (arith, ab) in
        let ne' : b ≢ a = ground (arith, ab) in
        record {
          forth = record {
            parent = l.forth.parent;
            at = get_parent-rooted a b ha hb ne ∙ l.forth.at;
            step = l.forth.step;
          };
          back = record {
            parent = l.back.parent;
            at = get_parent-rooted b a hb ha ne' ∙ l.back.at;
            step = l.back.step;
          };
          hops = l.hops;
          hops_forth = get_hop_count-rooted a b ha hb ne ∙ l.hops_forth;
          hops_back = get_hop_count-rooted b a hb ha ne' ∙ l.hops_back;
          some_hops = l.some_hops;
          few_hops = l.few_hops;
        }
