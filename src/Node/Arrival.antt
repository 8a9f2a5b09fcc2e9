-- ===== src/Node/Arrival.antt =====
-- `CBCBNode::process_data`, the two timers of downloads and `download_content` (CBCBNode.cc).
use ccnpl_sim.Prelude.{
  ℕ, suc, ◌==◌, if◌then◌else◌, false, List, [], ◌∷◌, ◌++◌, Option, none, some, Text, decimal,
  length,
}
use ccnpl_sim.Packets.{Interest, Data, Info, new_interest, forward_data, forward_info}
use ccnpl_sim.Pit.Table.{MatchingIf, record_interest, process_out}
use ccnpl_sim.Socket.Controller.{Controller}
use ccnpl_sim.Node.Balance.{pending}
use ccnpl_sim.Node.State.{
  content_name, Node, Env, interest, data_packet, info, Effect, queued, direct, member,
  add_in_cache,
}
use ccnpl_sim.Node.Forward.{Handled}
use ccnpl_sim.Node.Download.{
  Outgoing, enqueue_all, open_socket, manage_data, receiver_to_node, receiver_cbr,
}

-- What `process_data` gets: a `DATA` packet, or an `INFO` as one.
pub data Arrived (M : Type 0) : Type 0 where
  data_arrived : Data M → Arrived M
  info_arrived : Info M → Arrived M

module _ {M : Type 0} where
  abbrev pub data_of : Arrived M → Data M
  data_of (data_arrived d) = d
  data_of (info_arrived packet) = packet.base

  -- The source that a forwarded chunk carries: the one so far, and the node.
  abbrev pub path : ℕ → Data M → Text
  path id d = d.source ++ decimal id

  -- The interests of a download whose interface matches; the others are dropped.
  unfoldable pub enqueue_matching : List ℕ → List (ℕ × Interest M) → List (Effect M)
  enqueue_matching matches [] = []
  enqueue_matching matches ((ifid, i) ∷ is) =
      let later = enqueue_matching matches is in
      if member ifid matches then queued ifid (interest i) ∷ later else later

module _ {M C : Type 0} where
  -- An entry of another node: an `INFO` is signalled, a chunk goes to the queue and into the cache.
  -- The `n`-th addition of a handler takes the `n`-th values of `rand()`.
  unfoldable pub send_on :
      Env M → ℕ → Arrived M → MatchingIf → Node M C → Option (Node M C × List (Effect M))
  send_on env nth packet out n =
      let d = data_of packet in
      if d.chunk_id == 0
      then (elim packet [
        | data_arrived _ ↦ none
        | info_arrived p ↦ some (n, direct (out.ifid) (info (forward_info n.id p 0)) ∷ [])
      ])
      else (elim (add_in_cache n.store d env.now (env.rands nth)) [
        | none ↦ none
        | some store ↦ some (
          record n { store = store },
          queued (out.ifid) (data_packet (forward_data n.id d out.port (path n.id d))) ∷ [],
        )
      ])

  -- The effects of a download: those before, the timers, and the interests.
  unfoldable pub finish :
      List ℕ → List (Effect M) → Option (Outgoing M C) → Option (Node M C × List (Effect M))
  unfolding enqueue_matching
  finish matches before none = none
  finish matches before (some (n', sent, set_off)) =
      some (n', before ++ (set_off ++ enqueue_matching matches sent))

module _ {M C : Type 0} (k : Controller C) where
  -- An entry of the node's own downloads: an `INFO` opens one; its next interests go out. Without a
  -- matching interface the packet is dropped. A chunk 0 that is no `INFO` is a fault.
  unfoldable pub take_in :
      (ℕ → C) → Env M → ℕ → Arrived M → Node M C → Option (Node M C × List (Effect M))
  unfolding open_socket manage_data finish
  take_in make env ifid packet n =
      let d = data_of packet in
      let matches = env.matches d.msg in
      (elim matches [
        | [] ↦ some (n, [])
        | first ∷ rest ↦
            let managed = manage_data k env d ifid n in
            if d.chunk_id == 0
            then (elim packet [
              | data_arrived _ ↦ none
              | info_arrived p ↦
                  (elim (open_socket k make env (forward_info n.id p 0) (first ∷ rest) n) [
                    | none ↦ none
                    | some (n', port, opened) ↦
                        finish (first ∷ rest) opened
                          (manage_data k env (forward_data n.id d port []) ifid n')
                  ])
            ])
            else finish (first ∷ rest) [] managed
      ])

  -- The loop of `process_data` over the interfaces that the table hands out.
  unfoldable pub deliver :
      (ℕ → C)
      → Env M
      → ℕ
      → Arrived M
      → ℕ
      → List MatchingIf
      → Node M C
      → Option (Node M C × List (Effect M))
  unfolding send_on take_in
  deliver make env ifid packet nth [] n = some (n, [])
  deliver make env ifid packet nth (out ∷ outs) n =
      let handled =
        if out.ifid == 0 then take_in make env ifid packet n else send_on env nth packet out n in
      (elim handled [
        | none ↦ none
        | some (n', first) ↦ (elim (deliver make env ifid packet (suc nth) outs n') [
          | none ↦ none
          | some (n'', later) ↦ some (n'', first ++ later)
        ])
      ])

  -- `CBCBNode::process_data`.
  unfoldable pub process_data : (ℕ → C) → Env M → ℕ → Arrived M → Node M C → Option (Handled M C)
  unfolding deliver
  process_data make env ifid packet n =
      let d = data_of packet in
      let balance =
        pending n.balance (content_name (env.values d.msg) (env.match_len d.msg)) ifid false in
      (elim (process_out n.pit ifid d env.now) [
        | none ↦ none
        | some (pit, outs) ↦
            (elim (deliver make env ifid packet 0 outs
              (record n { pit = pit; balance = balance })) [
                | none ↦ none
                | some (n', effects) ↦ some (n', effects, 1)
              ])
      ])

  -- `CBCBNode::receiver_TO` and `receiver_CBR`.
  unfoldable pub on_receiver_to :
      Env M → ℕ → Text → ℕ → ℕ → Node M C → Option (Node M C × List (Effect M))
  unfolding receiver_to_node enqueue_all
  on_receiver_to env ifid address chunk start n =
      elim (receiver_to_node k env ifid address chunk start n) [
        | none ↦ none
        | some (n', sent, set_off) ↦ some (n', set_off ++ enqueue_all sent)
      ]

  unfoldable pub on_receiver_cbr : Env M → ℕ → Text → Node M C → Option (Node M C × List (Effect M))
  unfolding receiver_cbr enqueue_all
  on_receiver_cbr env ifid address n = elim (receiver_cbr k env ifid address n) [
    | none ↦ none
    | some (n', sent, set_off) ↦ some (n', set_off ++ enqueue_all sent)
  ]

module _ {M C : Type 0} where
  -- `CBCBNode::download_content`: the interest for chunk 0 goes to
  -- the first interface that matches, and is recorded without a socket.
  unfoldable pub download_content : Env M → M → Node M C → Option (Node M C × List (Effect M))
  unfolding new_interest
  download_content env msg n =
      let i =
        new_interest n.id (content_name (env.values msg) (length (env.values msg))) 0 env.now msg 0
          0 0 0 in
      (elim (env.matches msg) [
        | [] ↦ some (n, [])
        | ifid ∷ _ ↦ (elim (record_interest n.pit 0 i none env.now (env.slot n.pit.next_name)) [
          | none ↦ none
          | some (pit, _) ↦ some (record n { pit = pit }, direct ifid (interest i) ∷ [])
        ])
      ])
