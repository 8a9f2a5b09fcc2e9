-- ===== src/Routing/Protocol.antt =====
-- The handlers of `CBCBNode` (CBCBNode.cc) that spread predicates: by RA packets from their issuer, and
-- by SR packets to which UR packets respond.
--
-- The broadcast layer is the one of shortest paths, after its `computePaths`. SR and UR packets are given to
-- `issue_packet`, which the class overrides with an empty body: they are not sent, so that their handlers
-- have no effect but on the state.
use ccnpl_sim.Prelude.{
  ℕ, zero, suc, ◌==◌, ltb, not, if◌then◌else◌, Bool, true, false, ◌||◌, List, [], ◌∷◌, ◌++◌, Option,
  none, some,
}
use mathlib.Core.Option
use ccnpl_sim.Mst.Layer.{insert}
use ccnpl_sim.Spt.Heap.{write}
use ccnpl_sim.Spt.Layer.{Paths, get_children}
use ccnpl_sim.Spt.Alternative.{AlternativePaths, get_next}
use ccnpl_sim.Routing.Table.{Predicates, SrResponse, Sent, signal_ra, Router, update_route_table}

-- A node with its options: `refresh` is `PRP_ALWAYS` or `PRP_TIMED`, `immediate` is `PIP_IMMEDIATE`, and
-- `srsp_count` is that of `SRSP_TIMED_COUNT`.
pub record Host : Type 0 where
  pub pid : ℕ
  pub p2i : ℕ → ℕ
  pub paths : Paths
  pub alternatives : AlternativePaths
  pub refresh : Bool
  pub immediate : Bool
  pub srsp_count : Option ℕ

-- `respondees.erase( respondees.find( p ) )`; `none` is an erasure at the end of the set.
unfoldable pub erase : ℕ → List ℕ → Option (List ℕ)
erase p [] = none
erase p (q ∷ qs) = if q == p then some qs else Option.map (λ rest. q ∷ rest) (erase p qs)

module _ {P : Type 0} (ops : Predicates P) (host : Host) where
  -- The loop of `propagate_ra` over the children.
  unfoldable pub signal_all : List ℕ → ℕ → ℕ → P → List (Sent P)
  signal_all [] issuer number pred = []
  signal_all (i ∷ is) issuer number pred =
      signal_ra i issuer none number pred ∷ signal_all is issuer number pred

  unfoldable pub propagate_ra : ℕ → Option ℕ → ℕ → P → List (Sent P)
  unfolding signal_all
  propagate_ra issuer none number pred =
      signal_all (get_children host.paths issuer host.pid) issuer number pred
  propagate_ra issuer (some dest) number pred =
      elim (get_next host.alternatives issuer dest host.pid number) [
        | none ↦ []
        | some next_node ↦
            if not (dest == host.pid)
            then signal_ra next_node issuer (some dest) number pred ∷ []
            else []
      ]

  unfoldable pub process_ra : ℕ → ℕ → Option ℕ → ℕ → P → Router P → Router P × List (Sent P)
  unfolding update_route_table propagate_ra
  process_ra ifid issuer dest number pred r =
      ((update_route_table ops ifid pred dest r).0, propagate_ra issuer dest number pred)

  -- `setup_FIB_entry`.
  unfoldable pub setup_fib_entry : ℕ → P → Router P → Router P
  unfolding update_route_table
  setup_fib_entry id pred r = (update_route_table ops (host.p2i id) pred none r).0

  unfoldable pub issue_predicate : Bool → Option ℕ → ℕ → Router P → Router P × List (Sent P)
  unfolding propagate_ra
  issue_predicate force dest number r =
      if r.issue_pending || force
      then (record r { issue_pending = false }, propagate_ra host.pid dest number (r.route_table 0))
      else (r, [])

  unfoldable pub set_predicate : P → Router P → Router P × List (Sent P)
  unfolding issue_predicate
  set_predicate p r =
      let cp = r.route_table 0 in
      let set = record r {
        route_table = write r.route_table 0 (ops.add cp p);
        route_table_dirty = true;
        issue_pending = true;
      } in
      if not host.refresh || ops.covers cp p
      then (r, [])
      else if host.immediate
      then issue_predicate false none 1 set
      else (set, [])

  -- The loop of `set_multipath` from a path number on. The fuel is more than the paths to the node.
  unfoldable pub issue_paths : ℕ → ℕ → ℕ → Router P → Option (Router P × List (Sent P))
  unfolding issue_predicate
  issue_paths zero to number r = none
  issue_paths (suc fuel) to number r =
      elim (get_next host.alternatives host.pid to host.pid number) [
        | none ↦ some (r, [])
        | some _ ↦
            let (r₁, sent) = issue_predicate false (some to) number r in
            elim (issue_paths fuel to (suc number) r₁) [
              | none ↦ none
              | some (r₂, more) ↦ some (r₂, sent ++ more)
            ]
      ]

  unfoldable pub set_multipath : ℕ → ℕ → Router P → Option (Router P × List (Sent P))
  unfolding issue_paths
  set_multipath fuel to r =
      let set = record r { issue_pending = true } in
      if not host.refresh
      then some (r, [])
      else if host.immediate
      then issue_paths fuel to 2 set
      else some (set, [])

  -- A child that an SR packet passes over.
  abbrev pub is_skipped : Router P → ℕ → Bool
  is_skipped r child = (ops.size (r.route_table (host.p2i child)) == 0) || (elim (host.srsp_count) [
    | none ↦ false
    | some count ↦ ltb (r.msg_sent_counts (host.p2i child)) count
  ])

  abbrev pub response_of : Router P → ℕ → SrResponse P
  response_of r number =
      Option.get_or (r.sr_responses number) (record { respondees = []; pred = ops.empty })

  -- A child that is waited for.
  abbrev pub expect : ℕ → ℕ → Router P → Router P
  expect number child r = record r {
    sr_responses = write r.sr_responses number (
        some (record (response_of r number) {
          respondees = insert child (response_of r number).respondees;
        }));
  }

  -- The loop of `propagate_sr`, and the number of children that it does not pass over.
  unfoldable pub send_srs : List ℕ → ℕ → ℕ → Router P → Router P × ℕ
  send_srs [] issuer number r = (r, 0)
  send_srs (i ∷ is) issuer number r =
      let skipped = is_skipped r i in
      let r₁ = if skipped || (issuer == host.pid) then r else expect number i r in
      let (r₂, count) = send_srs is issuer number r₁ in (r₂, if skipped then count else suc count)

  unfoldable pub propagate_sr : ℕ → ℕ → Router P → Router P × ℕ
  unfolding send_srs
  propagate_sr issuer number r = send_srs (get_children host.paths issuer host.pid) issuer number r

  -- `issue_sr`, with the number that `SR::next_number` gives.
  unfoldable pub issue_sr : ℕ → Router P → Router P
  unfolding propagate_sr
  issue_sr number r = (propagate_sr host.pid number r).0

  -- `process_sr`. The UR of a node that waits for no child goes to `issue_packet`.
  unfoldable pub process_sr : ℕ → ℕ → Router P → Router P
  unfolding propagate_sr
  process_sr issuer number r = (propagate_sr issuer number r).0

  -- `process_ur`; `none` is an erasure at the end of the set of respondees. The UR of a node that waits
  -- for no other answer goes to `issue_packet`.
  unfoldable pub process_ur : ℕ → ℕ → ℕ → ℕ → P → Router P → Option (Router P)
  unfolding erase
  process_ur ifid sender sr_issuer number pred r =
      if sr_issuer == host.pid
      then some (record r { route_table = write r.route_table ifid pred; route_table_dirty = true })
      else (elim (r.sr_responses number) [
        | none ↦ some r
        | some i ↦ elim (erase sender i.respondees) [
          | none ↦ none
          | some [] ↦ some (record r { sr_responses = write r.sr_responses number none })
          | some (w ∷ ws) ↦ some (record r {
            sr_responses =
                write r.sr_responses number
                  (some (record { respondees = w ∷ ws; pred = ops.add i.pred pred }));
          })
        ]
      ])
