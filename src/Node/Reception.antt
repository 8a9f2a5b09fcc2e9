-- ===== src/Node/Reception.antt =====
-- What `CBCBNode::process_data` does with a chunk that the node's own download waits for
-- (CBCBNode.cc), over the theorems of the table of pending interests and of the downloads.
use ccnpl_sim.Prelude.{
  ℕ, ◌≤◌, ◌<◌, ◌≡◌, refl, ◌⊎◌, inl, inr, true, false, List, [], ◌∷◌, ◌++◌, some, append-nil, length,
  arith,
}
use ccnpl_sim.Packets.{Interest, Data}
use ccnpl_sim.Pit.Table.{Named}
use ccnpl_sim.Pit.Slots.{Slot}
use ccnpl_sim.Pit.Clean.{IsTable}
use ccnpl_sim.Pit.Out.{waiting_for, own, process_out-taken, taken-own}
use ccnpl_sim.Socket.Controller.{Controller, IsWithin}
use ccnpl_sim.Socket.Manager.{Manager, received_chunk}
use ccnpl_sim.Socket.Progress.{AllReceived}
use ccnpl_sim.Socket.Requests.{free_slots}
use ccnpl_sim.Node.Balance.{pending}
use ccnpl_sim.Node.State.{
  content_name, Node, Env, Effect, socket_address, find_socket, erase_socket,
}
use ccnpl_sim.Node.Arrival.{data_arrived, enqueue_matching, finish, take_in, deliver, process_data}
use ccnpl_sim.Node.Managed.{IsReadyDownload, manage_data-AllReceived}

module _ {M C : Type 0} (k : Controller C) (make : ℕ → C) where
  -- The download is closed, and nothing is sent.
  abbrev pub IsClosed : Env M → ℕ → Data M → Node M C → Manager M C → Type 0
  IsClosed env ifid d node m =
      AllReceived m.socket
      × (node' : Node M C) × (process_data k make env ifid (data_arrived d) node
          ≡ some (node', [], 1))
      × IsTable node'.pit
      × (node'.sockets ≡ erase_socket (socket_address d.content_name d.port) node.sockets)

  -- The download goes on: timers, and interests on the interfaces that match.
  abbrev pub GoesOn : (C → Type 0) → ℕ → Env M → ℕ → Data M → Node M C → Manager M C → Type 0
  GoesOn P n env ifid d node m =
      (AllReceived m.socket → ⊥)
      × (node' : Node M C) × (m' : Manager M C) × (sent : List (ℕ × Interest M)) × (set_off : List
          (Effect M))
      × (process_data k make env ifid (data_arrived d) node
          ≡ some (node', set_off ++ enqueue_matching (env.matches d.msg) sent, 1))
      × IsTable node'.pit
      × (find_socket (socket_address d.content_name d.port) node'.sockets ≡ some m')
      × IsReadyDownload k P n m'
      × (m'.socket.received_count ≡ m.socket.received_count)
      × (length sent ≤ free_slots k m.window_controllers)

  -- Take a node with its table of pending interests in order and filtering on, and a download of it
  -- that is ready, under other controllers than `CBR`. The data of one of its chunks other than 0, of
  -- the content's chunk size, comes from another node; the first entry alive for the chunk is that of
  -- the download, and the message matches an interface. The handler does not fault. The download
  -- takes the chunk in. If all chunks are then received, the download is closed and nothing is sent.
  -- Else it stays under its address, ready, and what is sent are its timers and, of at most as many
  -- interests as its controllers have free slots, those on matching interfaces. The table stays in
  -- order.
  pub process_data-AllReceived :
      (P : C → Type 0) (n : ℕ) (env : Env M) (d : Data M) (ifid first : ℕ) (rest : List ℕ)
      (node : Node M C) (m : Manager M C) (x : Slot (Named M)) (xs : List (Slot (Named M)))
      → IsWithin k n P
      → IsTable node.pit
      → node.pit.filtering ≡ true
      → waiting_for node.pit d env.now ≡ x ∷ xs
      → own d x ≡ true
      → find_socket (socket_address d.content_name d.port) node.sockets ≡ some m
      → IsReadyDownload k P n m
      → 0 < ifid
      → env.matches d.msg ≡ first ∷ rest
      → 0 < d.chunk_id
      → d.chunk_id < n
      → d.size ≡ m.socket.chunk_size
      → 0 < d.size
      → node.options.cbr_control ≡ false
      → (m' : Manager M C) × (received_chunk k m d.chunk_id d.size ifid d.source env.now ≡ some m')
        × (IsClosed env ifid d node m' ⊎ GoesOn P n env ifid d node m')
  unfolding process_data deliver take_in finish
  process_data-AllReceived P n env d ifid first rest node m x xs law v on waits mine at w far route
        piece below size some_bits windowed =
      let (q, e, vq, _) = process_out-taken node.pit ifid d env.now v in
      let alone = taken-own ifid d x xs piece far mine in
      let balance =
        pending node.balance (content_name (env.values d.msg) (env.match_len d.msg)) ifid false in
      let node₁ = record node { pit = q; balance = balance } in
      let (m₁, found, result) =
        manage_data-AllReceived k P n env d ifid node₁ m law vq at w piece below size some_bits
          windowed in
      elim result [
        | inl (all, closed) ↦ (
          m₁,
          found,
          inl (
            all,
            record node₁ {
              sockets = erase_socket (socket_address d.content_name d.port) node.sockets;
            },
            ground (arith, e, on, waits, alone, mine, route, closed),
            vq,
            refl,
          ),
        )
        | inr (more, node', m₂, sent, set_off, eq, v', at', w', count, few) ↦ (
          m₁,
          found,
          inr (
            more,
            node',
            m₂,
            sent,
            set_off,
            ground (
              arith,
              e,
              on,
              waits,
              alone,
              mine,
              route,
              eq,
              append-nil (set_off ++ enqueue_matching (first ∷ rest) sent),
            ),
            v',
            at',
            w',
            count,
            few,
          ),
        )
      ]
