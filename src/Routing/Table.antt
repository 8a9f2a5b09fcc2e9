-- ===== src/Routing/Table.antt =====
-- The state of the predicates in `CBCBNode` (CBCBNode.h, CBCBNode.cc), and `update_route_table`.
--
-- Predicates are those of the library that forwards by content, whose operations are parameters.
use ccnpl_sim.Prelude.{
  ℕ, if◌then◌else◌, Bool, true, false, ◌&&◌, List, [], ◌∷◌, Option, none, some, Text,
}
use ccnpl_sim.Spt.Heap.{write}
use ccnpl_sim.Node.Balance as Balance
use ccnpl_sim.Node.Balance.{PrefixTable}

-- The operations on predicates: `size`, `add`, `covers`, and the prefixes of `getFilters` as
-- `content_name` makes them.
pub record Predicates (P : Type 0) : Type 0 where
  pub empty : P
  pub size : P → ℕ
  pub add : P → P → P
  pub covers : P → P → Bool
  pub prefixes : P → List Text

-- `sr_response`.
pub record SrResponse (P : Type 0) : Type 0 where
  pub respondees : List ℕ
  pub pred : P

-- An RA packet that is signalled, with the process that it goes to.
pub data Sent (P : Type 0) : Type 0 where
  signal_ra : (to issuer : ℕ) → (dest : Option ℕ) → (path_number : ℕ) → P → Sent P

pub record Router (P : Type 0) : Type 0 where
  pub route_table : ℕ → P
  pub prefix_table : PrefixTable
  pub route_table_dirty : Bool
  pub issue_pending : Bool
  pub sr_responses : ℕ → Option (SrResponse P)
  pub msg_sent_counts : ℕ → ℕ

-- The loop that enters the prefixes of a predicate.
unfoldable pub add_prefixes : List Text → ℕ → PrefixTable → PrefixTable
add_prefixes [] ifid t = t
add_prefixes (p ∷ ps) ifid t = add_prefixes ps ifid (Balance.add t p ifid)

abbrev pub is_none : Option ℕ → Bool
is_none none = true
is_none (some n) = false

-- `update_route_table`, and whether it changed the table; `none` is the destination -1.
unfoldable pub update_route_table :
    {P : Type 0} → Predicates P → ℕ → P → Option ℕ → Router P → Router P × Bool
unfolding add_prefixes
update_route_table ops ifid pred dest r =
    let cp = r.route_table ifid in
    if ops.covers cp pred && is_none dest then (r, false) else (
      record r {
        route_table = write r.route_table ifid (ops.add cp pred);
        prefix_table = add_prefixes (ops.prefixes pred) ifid r.prefix_table;
        route_table_dirty = true;
      },
      true,
    )
