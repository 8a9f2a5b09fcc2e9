-- ===== src/Node/Managed.antt =====
-- What `CCNxNode::set_outgoing_interests` and `manage_data` do (CCNxNode.cc), over the theorems of the
-- downloads and of the table of pending interests.
use ccnpl_sim.Prelude.{
  ℕ, ◌+◌, set, if◌then◌else◌, ◌≤◌, ◌<◌, ◌≡◌, refl, ◌∙◌, ◌==◌, ◌⊎◌, inl, inr, Bool-cases, false,
  List, [], ◌∷◌, some, Text, map, length, length-set, arith,
}
use ccnpl_sim.Packets.{Interest, Data, new_interest}
use ccnpl_sim.Pit.Table.{PitTable}
use ccnpl_sim.Pit.Clean.{IsTable}
use ccnpl_sim.Pit.Record.{any_port, pending_for, record_interest-local}
use ccnpl_sim.Socket.Controller.{Controller, IsWithin}
use ccnpl_sim.Socket.Chunks.{Socket, ChunkInfo, requested_chunk}
use ccnpl_sim.Socket.Choice.{get_elem?_total}
use ccnpl_sim.Socket.Manager.{Manager, RequestingChunk, received_chunk, completed}
use ccnpl_sim.Socket.Progress.{IsSound, AllReceived, completed-AllReceived}
use ccnpl_sim.Socket.Receipt.{Every, same_after, received_chunk-Every}
use ccnpl_sim.Socket.Requests.{AllBelow, free_slots, get_interested_chunk-IsSound}
use ccnpl_sim.Node.State.{
  Node, Env, Effect, timer, socket_address, find_socket, put_socket, erase_socket,
}
use ccnpl_sim.Node.Download.{send_asked, set_outgoing_interests, manage_data}

module _ {M C : Type 0} where
  find_socket-put :
      (a : Text) (m m' : Manager M C) (l : List (Text × Manager M C))
      → find_socket a l ≡ some m
      → find_socket a (put_socket a m' l) ≡ some m'
  unfolding find_socket put_socket
  find_socket-put a m m' [] e = cc
  find_socket-put a m m' ((b, o) ∷ l) e = ground (arith, find_socket-put a m m' l)

module _ {M C : Type 0} (k : Controller C) where
  -- A download with its counts in order, of a content with so many entries, and controllers that keep
  -- to them.
  pub record IsReadyDownload (P : C → Type 0) (n : ℕ) (m : Manager M C) : Type 0 where
    pub sound : IsSound m.socket
    pub entries : length m.socket.file_chunks ≡ n
    pub kept : Every P m.window_controllers

  -- One request that is recorded.
  requested_chunk-IsReadyDownload :
      (P : C → Type 0) (n : ℕ) (m : Manager M C) (chunk now : ℕ)
      → IsReadyDownload P n m
      → chunk < n
      → (s : Socket M) × (requested_chunk m.socket chunk now ≡ some s)
        × IsReadyDownload P n (record m { socket = s })
        × (s.received_count ≡ m.socket.received_count)
  unfolding requested_chunk
  requested_chunk-IsReadyDownload P n m chunk now v h =
      let (c, entry) = get_elem?_total m.socket.file_chunks chunk (omega (arith, v.entries)) in
      let d : ChunkInfo = record c {
        chunk_retrieving_time = if c.chunk_request == 0 then now else c.chunk_retrieving_time;
        chunk_rtt = now;
        chunk_request = c.chunk_request + 1;
      } in
      (
        record (m.socket) { file_chunks = set m.socket.file_chunks chunk d },
        ground (arith, entry),
        record {
          sound = same_after k m v.sound chunk c entry d m.socket.missing_chunks (inl refl);
          entries = length-set m.socket.file_chunks chunk d ∙ v.entries;
          kept = v.kept;
        },
        refl,
      )

  -- What the loop of `set_outgoing_interests` yields.
  Sends :
      (P : C → Type 0) → ℕ → Env M → ℕ → List RequestingChunk → PitTable M → Manager M C → Type 0
  Sends P n env id rs pit m =
      (pit' : PitTable M) × (m' : Manager M C) × (sent : List (ℕ × Interest M)) × (send_asked env id
          rs pit m
        ≡ some (pit', m', sent))
      × IsTable pit'
      × IsReadyDownload P n m'
      × (m'.socket.received_count ≡ m.socket.received_count)
      × (length sent ≤ length rs)

  send_asked-Sends :
      (P : C → Type 0) (n : ℕ) (env : Env M) (id : ℕ) (rs : List RequestingChunk) (pit : PitTable M)
      (m : Manager M C)
      → IsTable pit
      → IsReadyDownload P n m
      → AllBelow n rs
      → Sends P n env id rs pit m
  unfolding send_asked Sends
  send_asked-Sends P n env id [] pit m v w b = (pit, m, [], refl, v, w, refl, omega arith)
  send_asked-Sends P n env id (r ∷ rs) pit m v w b =
      let i =
        new_interest id m.content_name r.chunk_id env.now m.msg m.chunk_size m.port
          m.popularity_class m.tot_filesize in
      let (q, e, vq, _) = record_interest-local pit m.port i env.now (env.slot pit.next_name) v in
      elim (Bool-cases (any_port m.port (pending_for pit i env.now))) [
        | inl own ↦
            let (pit', m', sent, es, v', w', same, few) =
              send_asked-Sends P n env id rs q m vq w b.1 in
            (pit', m', sent, ground (arith, e, own, es), v', w', same, omega (arith, few))
        | inr new ↦
            let (s, es, ws, ss) = requested_chunk-IsReadyDownload P n m r.chunk_id env.now w b.0 in
            let (pit', m', sent, e', v', w', same, few) =
              send_asked-Sends P n env id rs q (record m { socket = s }) vq ws b.1 in
            (
              pit',
              m',
              (r.ifid, i) ∷ sent,
              ground (arith, e, new, es, e'),
              v',
              w',
              same ∙ ss,
              omega (arith, few),
            )
      ]

  -- What a download asks for next, by the node.
  Asks : (P : C → Type 0) → ℕ → Env M → Text → Manager M C → Node M C → Type 0
  Asks P n env address m node =
      (node' : Node M C) × (m' : Manager M C) × (sent : List (ℕ × Interest M)) × (set_off : List
        (Effect M))
      × (set_outgoing_interests k env address m node ≡ some (node', sent, set_off))
      × IsTable node'.pit
      × (node'.sockets ≡ put_socket address m' node.sockets)
      × IsReadyDownload P n m'
      × (m'.socket.received_count ≡ m.socket.received_count)
      × (length sent ≤ free_slots k m.window_controllers)

  set_outgoing_interests-Asks :
      (P : C → Type 0) (n : ℕ) (env : Env M) (address : Text) (m : Manager M C) (node : Node M C)
      → IsWithin k n P
      → IsTable node.pit
      → IsReadyDownload P n m
      → Asks P n env address m node
  unfolding set_outgoing_interests Asks Sends
  set_outgoing_interests-Asks P n env address m node law v w =
      let (m₁, asked, set_off, e, sound, reduced, few, below, every) =
        get_interested_chunk-IsSound k n P law env.pick node.options.to_limit env.now m w.sound
          w.entries w.kept in
      let w₁ : IsReadyDownload P n m₁ = record {
        sound = sound;
        entries = ground (arith, reduced.only_left, w.entries);
        kept = every;
      } in
      let (pit, m₂, sent, es, v₂, w₂, same, fewer) =
        send_asked-Sends P n env node.id asked node.pit m₁ v w₁ below in
      (
        record node { pit = pit; sockets = put_socket address m₂ node.sockets },
        m₂,
        sent,
        map (λ t. timer address m.start_time t) set_off,
        ground (arith, e, es),
        v₂,
        refl,
        w₂,
        ground (arith, same, reduced.only_left),
        omega (arith, few, fewer),
      )

  -- What becomes of a download after an arrival that leaves it as `m`: it is closed, or asks for more.
  abbrev pub Closed : (P : C → Type 0) → ℕ → Env M → Data M → ℕ → Node M C → Manager M C → Type 0
  Closed P n env d ifid node m =
      AllReceived m.socket
      × (manage_data k env d ifid node
          ≡ some (
            record node {
              sockets = erase_socket (socket_address d.content_name d.port) node.sockets;
            },
            [],
            [],
          ))

  abbrev pub Continued : (P : C → Type 0) → ℕ → Env M → Data M → ℕ → Node M C → Manager M C → Type 0
  Continued P n env d ifid node m =
      (AllReceived m.socket → ⊥)
      × (node' : Node M C) × (m' : Manager M C) × (sent : List (ℕ × Interest M)) × (set_off : List
          (Effect M))
      × (manage_data k env d ifid node ≡ some (node', sent, set_off))
      × IsTable node'.pit
      × (find_socket (socket_address d.content_name d.port) node'.sockets ≡ some m')
      × IsReadyDownload P n m'
      × (m'.socket.received_count ≡ m.socket.received_count)
      × (length sent ≤ free_slots k m.window_controllers)

  -- In a node with its table in order, a chunk other than 0 of a download that is ready, of the
  -- content's chunk size, is taken in without a fault. If all chunks are then received, the download
  -- is closed and nothing is asked for. Else it stays under its address, ready, and asks for at most
  -- as many chunks as its controllers have free slots. The controllers are no `CBR`.
  pub manage_data-AllReceived :
      (P : C → Type 0) (n : ℕ) (env : Env M) (d : Data M) (ifid : ℕ) (node : Node M C)
      (m : Manager M C)
      → IsWithin k n P
      → IsTable node.pit
      → find_socket (socket_address d.content_name d.port) node.sockets ≡ some m
      → IsReadyDownload P n m
      → 0 < d.chunk_id
      → d.chunk_id < n
      → d.size ≡ m.socket.chunk_size
      → 0 < d.size
      → node.options.cbr_control ≡ false
      → (m' : Manager M C) × (received_chunk k m d.chunk_id d.size ifid d.source env.now ≡ some m')
        × (Closed P n env d ifid node m' ⊎ Continued P n env d ifid node m')
  unfolding manage_data Asks
  manage_data-AllReceived P n env d ifid node m law v at w piece below size some_bits windowed =
      let address = socket_address d.content_name d.port in
      let (m₁, found, sound, same, every) =
        received_chunk-Every k P m d.chunk_id d.size ifid d.source env.now w.sound
          (omega (arith, w.entries, w.sound.sized)) size
          (λ c again. law.after_arrival c d.chunk_id again d.source env.now) w.kept in
      let w₁ : IsReadyDownload P n m₁ = record {
        sound = sound;
        entries = omega (arith, sound.sized, same.1, w.sound.sized, w.entries);
        kept = every;
      } in
      let done = completed-AllReceived k m₁ sound (omega (arith, same.0)) in
      elim (Bool-cases (completed k m₁)) [
        | inl full ↦ (m₁, found, inl (done.0 full, ground (arith, at, found, full)))
        | inr open' ↦
            let (node', m₂, sent, set_off, e, v', put, w₂, count, few) =
              set_outgoing_interests-Asks P n env address m₁
                (record node { sockets = put_socket address m₁ node.sockets }) law v w₁ in
            (
              m₁,
              found,
              inr (
                (λ all. ground (arith, done.1 all)),
                node',
                m₂,
                sent,
                set_off,
                ground (arith, at, found, open', e),
                v',
                rw put (
                    find_socket-put address m₁ m₂ (put_socket address m₁ node.sockets)
                      (find_socket-put address m m₁ node.sockets at)),
                w₂,
                count,
                few,
              ),
            )
      ]
