-- ===== src/Node/Balance.antt =====
-- `LoadBalancing` of tags/cbcbsim-1.0.2/src/LoadBalancing.cc: which interface a prefix goes to.
--
-- The weights and rates of an interface are floating-point numbers; they only weigh the choice of
-- `weighted_rnd`, which is an argument: a place in the vector of interfaces. A fault (`none`) is a
-- remainder by 0 or an access outside of that vector.
use ccnpl_sim.Socket.Choice.{get_elem?_total, mod_lt}
use ccnpl_sim.Prelude.{
  ℕ, zero, suc, ◌+◌, ◌-◌, ◌%◌, ◌<◌, ◌≡◌, ◌∙◌, ap, ◌==◌, if◌then◌else◌, Bool, true, false, ◌||◌,
  List, [], ◌∷◌, ◌++◌, Option, none, some, Text, text_eq, text_eq_refl, get_elem?, length, arith,
}

-- `stats_entry`.
pub record StatsEntry : Type 0 where
  pub ifid : ℕ
  pub pending_count : ℕ

abbrev pub PrefixTable : Type 0
PrefixTable = Text → Option (List StatsEntry)

abbrev pub assign : PrefixTable → Text → List StatsEntry → PrefixTable
assign t pn stats other = if text_eq pn other then some stats else t other

-- `m_ptable[pn].stats`, which puts an empty entry in where there is none.
abbrev pub stats_of : PrefixTable → Text → List StatsEntry
stats_of t pn = elim (t pn) [ none ↦ [] | some stats ↦ stats ]

abbrev pub has_ifid : ℕ → List StatsEntry → Bool
has_ifid ifid [] = false
has_ifid ifid (e ∷ es) = (e.ifid == ifid) || has_ifid ifid es

-- `LoadBalancing::add`.
unfoldable pub add : PrefixTable → Text → ℕ → PrefixTable
add t pn ifid =
    if has_ifid ifid (stats_of t pn)
    then assign t pn (stats_of t pn)
    else assign t pn (stats_of t pn ++ record { ifid = ifid; pending_count = 0 } ∷ [])

-- The loop of `LoadBalancing::pending`: one more for '+', one less for '-' unless there is none.
unfoldable pub count_pending : Bool → ℕ → List StatsEntry → List StatsEntry
count_pending more ifid [] = []
count_pending more ifid (e ∷ es) =
    if e.ifid == ifid
    then record e { pending_count = if more then e.pending_count + 1 else e.pending_count - 1 } ∷ es
    else e ∷ count_pending more ifid es

unfoldable pub pending : PrefixTable → Text → ℕ → Bool → PrefixTable
unfolding count_pending
pending t pn ifid more = assign t pn (count_pending more ifid (stats_of t pn))

-- The choice among the interfaces of a prefix: `FWD_RND` with the value of `rand()`, `FWD_BALANCE`
-- with the place that the weights choose, or neither.
pub data Choice : Type 0 where
  rnd weighted : ℕ → Choice
  fixed : Choice

unfoldable pub choose : Choice → List StatsEntry → Option ℕ
choose (rnd r) stats = elim (get_elem? stats (r % length stats)) [
  | none ↦ none
  | some e ↦ some (e.ifid)
]
choose (weighted j) stats = elim (get_elem? stats j) [ none ↦ none | some e ↦ some (e.ifid) ]
choose fixed stats = some 0

-- `LoadBalancing::fwd_interest`.
unfoldable pub fwd_interest : PrefixTable → Text → Choice → Option (PrefixTable × ℕ)
unfolding choose pending
fwd_interest t pn choice = elim (t pn) [
  | none ↦ some (t, 0)
  | some stats ↦ (elim (choose choice stats) [
    | none ↦ none
    | some ifid ↦ some (pending t pn ifid true, ifid)
  ])
]

-- For a prefix with no entry, `fwd_interest` answers interface 0. But once `pending` has been called
-- for such a prefix, a random choice for it is a remainder by 0: it faults, whatever the value drawn.
pub pending_then_fwd :
    (t : PrefixTable) (pn : Text) (ifid r : ℕ) (more : Bool) (choice : Choice)
    → t pn ≡ none
    → (fwd_interest t pn choice ≡ some (t, 0))
      × (fwd_interest (pending t pn ifid more) pn (rnd r) ≡ none)
unfolding fwd_interest pending count_pending choose
pending_then_fwd t pn ifid r more choice e = (ground arith, ground (arith, text_eq_refl pn))

-- How many interests of a prefix are pending on an interface.
abbrev pub pending_on : ℕ → List StatsEntry → ℕ
pending_on ifid [] = 0
pending_on ifid (e ∷ es) = if e.ifid == ifid then e.pending_count else pending_on ifid es

pending_on-count :
    (more : Bool) (ifid other : ℕ) (l : List StatsEntry)
    → has_ifid ifid l ≡ true
    → pending_on other (count_pending more ifid l) ≡ (
        if other == ifid
        then (if more then pending_on ifid l + 1 else pending_on ifid l - 1)
        else pending_on other l)
unfolding count_pending
pending_on-count more ifid other [] h = ground arith
pending_on-count more ifid other (e ∷ es) h = ground (arith, pending_on-count more ifid other es)

get_elem?-has_ifid :
    (l : List StatsEntry) (i : ℕ) (e : StatsEntry)
    → get_elem? l i ≡ some e
    → has_ifid e.ifid l ≡ true
get_elem?-has_ifid [] i e h = cc
get_elem?-has_ifid (x ∷ xs) zero e h = ground arith
get_elem?-has_ifid (x ∷ xs) (suc i) e h = ground (arith, get_elem?-has_ifid xs i e h)

stats_of-assign :
    (t : PrefixTable) (pn : Text) (stats : List StatsEntry)
    → stats_of (assign t pn stats) pn ≡ stats
stats_of-assign t pn stats = rw (text_eq_refl pn, stats_of)

stats_of-pending :
    (t : PrefixTable) (pn : Text) (ifid : ℕ) (stats : List StatsEntry)
    → t pn ≡ some stats
    → stats_of (pending t pn ifid true) pn ≡ count_pending true ifid stats
unfolding pending
stats_of-pending t pn ifid stats e =
    stats_of-assign t pn (count_pending true ifid (stats_of t pn)) ∙ rw (e, stats_of)

-- Where a prefix has interfaces, a random choice does not fault: it forwards to one of them, on which
-- one more interest is pending; nothing changes for the other interfaces and prefixes.
pub fwd_interest-pending_on :
    (t : PrefixTable) (pn : Text) (r : ℕ) (stats : List StatsEntry)
    → t pn ≡ some stats
    → 0 < length stats
    → (t' : PrefixTable) × (ifid : ℕ) × (fwd_interest t pn (rnd r) ≡ some (t', ifid))
      × (has_ifid ifid stats ≡ true)
      × ((other : ℕ)
          → pending_on other (stats_of t' pn)
            ≡ (if other == ifid then pending_on ifid stats + 1 else pending_on other stats))
      × ((name : Text) → text_eq pn name ≡ false → t' name ≡ t name)
unfolding fwd_interest choose pending
fwd_interest-pending_on t pn r stats e some_if =
    let (entry, at) = get_elem?_total stats (r % length stats) (mod_lt r (length stats) some_if) in
    let known = get_elem?-has_ifid stats (r % length stats) entry at in
    (
      pending t pn entry.ifid true,
      entry.ifid,
      ground (arith, e, at),
      known,
      (λ other.
          ap (pending_on other) (stats_of-pending t pn entry.ifid stats e)
          ∙ pending_on-count true entry.ifid other stats known),
      (λ name h. ground arith),
    )
