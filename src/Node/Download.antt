-- ===== src/Node/Download.antt =====
-- The downloads of a node: `open_socket`, `set_outgoing_interests`, `manage_data`, `receiver_TO` and
-- `receiver_CBR` of CCNxNode.cc, and the handlers of CBCBNode.cc over the last two.
--
-- A fault (`none`) is an access outside of the chunks of a download or of its map, or a fault of the
-- table of pending interests. The counter of open connections is only printed and left out.
use ccnpl_sim.Prelude.{
  ℕ, zero, suc, ◌==◌, not, if◌then◌else◌, true, false, List, [], ◌∷◌, ◌++◌, Option, none, some,
  Text, map, length,
}
use ccnpl_sim.Packets.{Interest, Data, Info, new_interest}
use ccnpl_sim.Pit.Table.{PitTable, record_interest}
use ccnpl_sim.Socket.Controller.{Controller}
use ccnpl_sim.Socket.Chunks.{requested_chunk, check_received}
use ccnpl_sim.Socket.Manager.{
  Manager, RequestingChunk, new_manager, received_chunk, receiver_to, serves, get_interested_chunk,
  completed,
}
use ccnpl_sim.Node.State.{
  Node, Env, interest, Effect, queued, timer, cbr_timer, socket_address, find_socket, put_socket,
  erase_socket,
}

-- A node, the interests that go out with their interfaces, and the timers set before.
abbrev pub Outgoing : Type 0 → Type 0 → Type 0
Outgoing M C = Node M C × List (ℕ × Interest M) × List (Effect M)

module _ {M : Type 0} where
  -- `CBCBNode::receiver_TO` and `receiver_CBR` hand every interest to its queue.
  unfoldable pub enqueue_all : List (ℕ × Interest M) → List (Effect M)
  enqueue_all [] = []
  enqueue_all ((ifid, i) ∷ is) = queued ifid (interest i) ∷ enqueue_all is

module _ {M C : Type 0} where
  -- The loop of `open_socket`: the first port from one on that is not in use.
  unfoldable pub free_port : ℕ → Text → ℕ → List (Text × Manager M C) → Option ℕ
  free_port zero name port sockets = none
  free_port (suc fuel) name port sockets =
      let later = free_port fuel name (suc port) sockets in
      (elim (find_socket (socket_address name port) sockets) [ none ↦ some port | some _ ↦ later ])

  -- The loop of `set_outgoing_interests`: an interest for each chunk asked for. One that is recorded
  -- goes out and counts as a request.
  unfoldable pub send_asked :
      Env M
      → ℕ
      → List RequestingChunk
      → PitTable M
      → Manager M C
      → Option (PitTable M × Manager M C × List (ℕ × Interest M))
  send_asked env id [] pit m = some (pit, m, [])
  send_asked env id (r ∷ rs) pit m =
      let i =
        new_interest id m.content_name r.chunk_id env.now m.msg m.chunk_size m.port
          m.popularity_class m.tot_filesize in
      (elim (record_interest pit 0 i (some (m.port)) env.now (env.slot pit.next_name)) [
        | none ↦ none
        | some (pit', true) ↦ send_asked env id rs pit' m
        | some (pit', false) ↦ (elim (requested_chunk m.socket r.chunk_id env.now) [
          | none ↦ none
          | some s ↦ (elim (send_asked env id rs pit' (record m { socket = s })) [
            | none ↦ none
            | some (pit'', m', sent) ↦ some (pit'', m', (r.ifid, i) ∷ sent)
          ])
        ])
      ])

module _ {M C : Type 0} (k : Controller C) where
  -- `CCNxNode::open_socket`: the new download, its port and the first timers of a `CBR`. The fuel is
  -- one more than there are downloads.
  unfoldable pub open_socket :
      (ℕ → C) → Env M → Info M → List ℕ → Node M C → Option (Node M C × ℕ × List (Effect M))
  unfolding free_port
  open_socket make env packet matches n =
      elim (free_port (suc (length n.sockets)) packet.content_name 0 n.sockets) [
        | none ↦ none
        | some port ↦
            let address = socket_address packet.content_name port in
            some (
              record n {
                sockets =
                    (address, new_manager k make n.id packet port matches env.now) ∷ n.sockets;
              },
              port,
              if n.options.cbr_control
                  then map (λ ifid. cbr_timer ifid address env.now) matches
                  else [],
            )
      ]

  -- `CCNxNode::set_outgoing_interests`, of the download of an address.
  unfoldable pub set_outgoing_interests :
      Env M → Text → Manager M C → Node M C → Option (Outgoing M C)
  unfolding send_asked
  set_outgoing_interests env address m n =
      elim (get_interested_chunk k env.pick n.options.to_limit env.now m) [
        | none ↦ none
        | some (m', asked, set_off) ↦ (elim (send_asked env n.id asked n.pit m') [
          | none ↦ none
          | some (pit, m'', sent) ↦ some (
            record n { pit = pit; sockets = put_socket address m'' n.sockets },
            sent,
            map (λ t. timer address m.start_time t) set_off,
          )
        ])
      ]

  -- `CCNxNode::manage_data`. A download that is complete is closed.
  unfoldable pub manage_data : Env M → Data M → ℕ → Node M C → Option (Outgoing M C)
  unfolding set_outgoing_interests
  manage_data env d ifid n =
      let address = socket_address d.content_name d.port in
      (elim (find_socket address n.sockets) [
        | none ↦ some (n, [], [])
        | some m ↦ (elim (received_chunk k m d.chunk_id d.size ifid d.source env.now) [
          | none ↦ none
          | some m' ↦
              let kept = record n { sockets = put_socket address m' n.sockets } in
              let on = set_outgoing_interests env address m' kept in
              if d.chunk_id == 0
              then on
              else if n.options.cbr_control
              then some (kept, [], [])
              else if not (completed k m')
              then on
              else some (record n { sockets = erase_socket address n.sockets }, [], [])
        ])
      ])

  -- `receiver_TO`: a timer of the same start for a chunk that is not received counts; a download that
  -- is not aborted then asks for more.
  unfoldable pub receiver_to_node : Env M → ℕ → Text → ℕ → ℕ → Node M C → Option (Outgoing M C)
  unfolding set_outgoing_interests
  receiver_to_node env ifid address chunk start n = elim (find_socket address n.sockets) [
    | none ↦ some (n, [], [])
    | some m ↦ (elim (timed_out m) [
      | none ↦ none
      | some m' ↦
          let kept = record n { sockets = put_socket address m' n.sockets } in
          if not (m'.aborted)
          then set_outgoing_interests env address m' kept
          else some (kept, [], [])
    ])
  ]
    where
      timed_out : Manager M C → Option (Manager M C)
      timed_out m =
          if start == m.start_time
          then (elim (check_received m.socket chunk) [
            | none ↦ none
            | some true ↦ some m
            | some false ↦ receiver_to k m n.options.to_limit ifid chunk env.now
          ])
          else some m

  -- `receiver_CBR`: a download with nothing to ask for is closed; otherwise its interface's timer is
  -- set again. No download of the address is a fault.
  unfoldable pub receiver_cbr : Env M → ℕ → Text → Node M C → Option (Outgoing M C)
  unfolding set_outgoing_interests
  receiver_cbr env ifid address n = elim (find_socket address n.sockets) [
    | none ↦ none
    | some m ↦ (elim (set_outgoing_interests env address m n) [
      | none ↦ none
      | some (n', [], set_off) ↦
          some (record n' { sockets = erase_socket address n'.sockets }, [], set_off)
      | some (n', sent ∷ more, set_off) ↦
          some (n', sent ∷ more, set_off ++ again (find_socket address n'.sockets))
    ])
  ]
    where
      again : Option (Manager M C) → List (Effect M)
      again none = []
      again (some m) =
          if serves k ifid m.window_controllers
          then cbr_timer ifid address m.start_time ∷ []
          else []
