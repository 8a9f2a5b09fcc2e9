-- ===== src/Node/Forward.antt =====
-- `CBCBNode::process_interest` (CBCBNode.cc).
use ccnpl_sim.Prelude.{
  ℕ, ◌==◌, if◌then◌else◌, true, false, List, [], ◌∷◌, Option, none, some, decimal,
}
use ccnpl_sim.Packets.{Interest, forward_interest, forward_data}
use ccnpl_sim.Pit.Table.{record_interest}
use ccnpl_sim.Node.Balance.{fwd_interest}
use ccnpl_sim.Node.State.{
  content_name, Node, Env, Packet, interest, data_packet, info, Effect, queued, direct, member,
  search_in_cache, manage_interest,
}

-- The new state, the effects in order and the value of a handler.
abbrev pub Handled : Type 0 → Type 0 → Type 0
Handled M C = Node M C × List (Effect M) × ℕ

module _ {M : Type 0} where
  -- A packet for the neighbour of an interface: an `INFO` is signalled, another goes through the queue.
  unfoldable pub send_local : ℕ → Option (Packet M) → List (Effect M)
  send_local ifid none = []
  send_local ifid (some (info p)) = direct ifid (info p) ∷ []
  send_local ifid (some (data_packet p)) = queued ifid (data_packet p) ∷ []
  send_local ifid (some (interest p)) = queued ifid (interest p) ∷ []

module _ {M C : Type 0} where
  -- The lookup in the routes, behind the cache and the table: the interest goes on to the interface
  -- that the load balancer chooses, if there is a route. A fault is the use of the output queue of
  -- interface 0, which is `NULL`.
  unfoldable pub forward : Env M → Interest M → Node M C → Option (Handled M C)
  forward env i n = elim (env.matches i.msg) [
    | [] ↦ some (n, [], 0)
    | _ ∷ _ ↦
        (elim (fwd_interest n.balance (content_name (env.values i.msg) (env.match_len i.msg))
          env.choice) [
            | none ↦ none
            | some (balance, ifid) ↦
                let packet = interest (forward_interest n.id i) in
                if ifid == 0
                then none
                else some (
                  record n { balance = balance },
                  (if i.chunk_id == 0 then direct ifid packet else queued ifid packet) ∷ [],
                  1,
                )
          ])
  ]

  -- The lookup in the table of pending interests.
  unfoldable pub look_pending : ℕ → Env M → Interest M → Node M C → Option (Handled M C)
  unfolding forward
  look_pending ifid env i n =
      elim (record_interest n.pit ifid i none env.now (env.slot n.pit.next_name)) [
        | none ↦ none
        | some (pit, true) ↦ some (record n { pit = pit }, [], 1)
        | some (pit, false) ↦ forward env i (record n { pit = pit })
      ]

  -- The lookup in the cache, of a chunk other than 0.
  unfoldable pub look_cached : ℕ → Env M → Interest M → Node M C → Option (Handled M C)
  unfolding look_pending search_in_cache
  look_cached ifid env i n =
      if i.chunk_id == 0
      then look_pending ifid env i n
      else (elim (search_in_cache n.store i env.now) [
        | none ↦ none
        | some (store, none) ↦ look_pending ifid env i (record n { store = store })
        | some (store, some d) ↦ some (
          record n { store = store },
          queued ifid (data_packet (forward_data n.id d d.port (decimal n.id))) ∷ [],
          1,
        )
      ])

  -- `CBCBNode::process_interest`: an interest that matches the node itself is answered by it.
  unfoldable pub process_interest : ℕ → Env M → Interest M → Node M C → Option (Handled M C)
  unfolding send_local look_cached
  process_interest ifid env i n =
      if member 0 (env.matches i.msg)
      then some (n, send_local ifid (manage_interest n i), 1)
      else look_cached ifid env i n
