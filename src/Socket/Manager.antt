-- ===== src/Socket/Manager.antt =====
-- `SocketManager` of tags/cbcbsim-1.0.2/src/SocketManager.cc: a download over the controllers of
-- several interfaces. The controllers are behind their interface; what a path's statistics say is
-- theirs. A fault (`none`) is an access outside of the vector of chunks.
use ccnpl_sim.Prelude.{
  ℕ, zero, suc, ◌+◌, ◌-◌, ◌*◌, ◌==◌, leb, ltb, not, if◌then◌else◌, Bool, true, false, ◌&&◌, ◌||◌,
  List, [], ◌∷◌, ◌++◌, Option, none, some, Text, get_elem?, set, map, add32, u32_mod, ◌%◌,
}
use ccnpl_sim.Packets.{Info}
use ccnpl_sim.Socket.Controller.{Controller}
use ccnpl_sim.Socket.Chunks.{Socket, ChunkInfo, new_socket, erase_id, remove_notreq, select_chunk}

pub record Manager (M C : Type 0) : Type 0 where
  pub socket : Socket M
  pub open socket use *
  pub window_controllers : List C
  pub aborted : Bool

-- `requesting_chunk`.
pub record RequestingChunk : Type 0 where
  pub ifid : ℕ
  pub chunk_id : ℕ

-- A `ReceiverTO` event that a controller signals: its interface, the chunk and the lag.
pub record Timer : Type 0 where
  pub timer_ifid : ℕ
  pub timer_chunk : ℕ
  pub lag : ℕ

module _ {C : Type 0} (k : Controller C) where
  -- Whether an interface has a controller, and the first one with something done to it.
  unfoldable pub serves : ℕ → List C → Bool
  serves ifid [] = false
  serves ifid (c ∷ cs) = (k.ifid c == ifid) || serves ifid cs

  unfoldable pub at_ifid : ℕ → (C → C) → List C → List C
  at_ifid ifid f [] = []
  at_ifid ifid f (c ∷ cs) = if k.ifid c == ifid then f c ∷ cs else c ∷ at_ifid ifid f cs

-- What filling a window yields: the socket, the controller, the chunks asked for and the timers set.
abbrev pub Filled : Type 0 → Type 0 → Type 0
Filled M C = Socket M × C × List RequestingChunk × List Timer

abbrev pub timers : ℕ → ℕ → Option ℕ → List Timer
timers ifid chunk none = []
timers ifid chunk (some lag) = record { timer_ifid = ifid; timer_chunk = chunk; lag = lag } ∷ []

-- One more chunk asked for, in front of the later ones.
unfoldable pub push : {M C : Type 0} → ℕ → ℕ → Option ℕ → Option (Filled M C) → Option (Filled M C)
push ifid chunk timer rest = elim rest [
  | none ↦ none
  | some (s, w, asked, set_off) ↦
      some
        (s, w, record { ifid = ifid; chunk_id = chunk } ∷ asked, timers ifid chunk timer ++ set_off)
]

module _ {M C : Type 0} (k : Controller C) where
  -- The controllers are made for the matching interfaces, in their order.
  unfoldable pub new_manager : (ℕ → C) → ℕ → Info M → ℕ → List ℕ → ℕ → Manager M C
  new_manager make id info port matches now = record {
    socket = new_socket id info port now;
    window_controllers = map make matches;
    aborted = false;
  }

  -- A chunk that is not a duplicate is counted, and its round-trip and retrieving times are kept.
  unfoldable pub count_chunk : Socket M → ℕ → ChunkInfo → ℕ → ℕ → Socket M
  count_chunk s chunk c size now = record s {
    received_count = add32 s.received_count 1;
    missing_chunks = erase_id chunk s.missing_chunks;
    file_chunks = set s.file_chunks chunk (record c {
      received = true;
      chunk_rtt = now - c.chunk_rtt;
      chunk_retrieving_time = now - c.chunk_retrieving_time;
    });
    vrtt = s.vrtt + (now - c.chunk_rtt);
    delay = s.delay + (now - c.chunk_retrieving_time);
    filesize = add32 s.filesize size;
  }

  -- `SocketManager::received_chunk`.
  unfoldable pub received_chunk : Manager M C → ℕ → ℕ → ℕ → Text → ℕ → Option (Manager M C)
  unfolding count_chunk at_ifid
  received_chunk m chunk size ifid source now =
      let s = record (m.socket) { missing_chunks = erase_id chunk m.socket.missing_chunks } in
      if not (chunk == 0) && not (serves k ifid m.window_controllers)
      then some (record m { socket = s })
      else (elim (get_elem? s.file_chunks chunk) [
        | none ↦ none
        | some c ↦
            if chunk == 0
            then some (record m {
              socket = record s {
                file_chunks = set s.file_chunks 0 (record c { received = true });
              };
            })
            else some (record m {
              window_controllers =
                  at_ifid k ifid (λ w. k.received_chunk w chunk (ltb 1 c.chunk_request) source now)
                    m.window_controllers;
              socket = if c.received then s else count_chunk s chunk c size now;
            })
      ])

  -- `SocketManager::receiver_TO`.
  unfoldable pub receiver_to : Manager M C → ℕ → ℕ → ℕ → ℕ → Option (Manager M C)
  unfolding at_ifid
  receiver_to m to_limit ifid chunk now =
      if not (serves k ifid m.window_controllers)
      then some m
      else (elim (get_elem? m.socket.file_chunks chunk) [
        | none ↦ none
        | some c ↦
            let over = leb to_limit c.chunk_request in
            some (record m {
              window_controllers =
                  at_ifid k ifid (λ w. k.receiver_to w chunk now) m.window_controllers;
              socket = record (m.socket) {
                file_chunks =
                    set m.socket.file_chunks chunk
                      (if c.received then c else record c { chunk_timeout = c.chunk_timeout + 1 });
                missing_chunks = if over then [] else m.socket.missing_chunks;
              };
              aborted = over || m.aborted;
            })
      ])

  -- The inner loop of `get_interested_chunk`: a round for each free slot of a controller.
  unfoldable pub fill_window : ℕ → (ℕ → ℕ) → ℕ → ℕ → Socket M → C → Option (Filled M C)
  unfolding push
  fill_window zero pick to_limit now s w = some (s, w, [], [])
  fill_window (suc rounds) pick to_limit now s w = elim (k.timed_out_chunk w) [
    | some (chunk, first) ↦ (elim (k.pop_timed_out w) [
      | none ↦ none
      | some w₀ ↦
          let (w', timer) = k.request_chunk w₀ chunk (if ltb 0 first then first else now) in
          push (k.ifid w) chunk timer (fill_window rounds pick to_limit now s w')
    ])
    | none ↦ (elim (select_chunk pick to_limit s) [
      | none ↦ none
      | some (s', none) ↦ fill_window rounds pick to_limit now s' w
      | some (s', some chunk) ↦
          let (w', timer) = k.request_chunk w chunk now in
          push (k.ifid w) chunk timer
            (fill_window rounds pick to_limit now (remove_notreq s' chunk) w')
    ])
  ]

  -- The loop of `get_interested_chunk` over the controllers.
  unfoldable pub fill_windows :
      (ℕ → ℕ)
      → ℕ
      → ℕ
      → Socket M
      → List C
      → Option (Socket M × List C × List RequestingChunk × List Timer)
  unfolding fill_window
  fill_windows pick to_limit now s [] = some (s, [], [], [])
  fill_windows pick to_limit now s (w ∷ ws) =
      elim (fill_window (k.free_slot_win w) pick to_limit now s w) [
        | none ↦ none
        | some (s', w', asked, set_off) ↦ (elim (fill_windows pick to_limit now s' ws) [
          | none ↦ none
          | some (s'', ws', more, later) ↦ some (s'', w' ∷ ws', asked ++ more, set_off ++ later)
        ])
      ]

  -- `SocketManager::get_interested_chunk`.
  unfoldable pub get_interested_chunk :
      (ℕ → ℕ) → ℕ → ℕ → Manager M C → Option (Manager M C × List RequestingChunk × List Timer)
  unfolding fill_windows
  get_interested_chunk pick to_limit now m =
      elim (fill_windows pick to_limit now m.socket m.window_controllers) [
        | none ↦ none
        | some (s, ws, asked, set_off) ↦
            some (record m { socket = s; window_controllers = ws }, asked, set_off)
      ]

  -- `completed`: the bits received are those of all the chunks, as `unsigned int`.
  unfoldable pub completed : Manager M C → Bool
  completed m = m.socket.filesize == m.socket.chunk_size * m.socket.tot_filesize % u32_mod
