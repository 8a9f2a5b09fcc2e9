-- ===== src/Socket/Expiry.antt =====
-- The timers of a download (`receiver_TO` of SocketManager.cc).
use ccnpl_sim.Prelude.{
  ℕ, ◌+◌, ◌≡◌, refl, inl, inr, leb, if◌then◌else◌, ◌&&◌, ◌||◌, Bool-cases, [], some, get_elem?, set,
  arith,
}
use ccnpl_sim.Socket.Controller.{Controller}
use ccnpl_sim.Socket.Chunks.{ChunkInfo}
use ccnpl_sim.Socket.Manager.{Manager, serves, at_ifid, receiver_to}
use ccnpl_sim.Socket.Progress.{IsSound}
use ccnpl_sim.Socket.Receipt.{same_after}

module _ {M C : Type 0} (k : Controller C) (pick : ℕ → ℕ) (to_limit now : ℕ) where
  -- A timer for a chunk of a sound download does not fault, and the download stays sound. It is
  -- aborted exactly if it was, or the interface has a controller and the chunk has been asked for as
  -- often as the limit says.
  pub receiver_to-IsSound :
      (m : Manager M C) (ifid chunk : ℕ) (c : ChunkInfo)
      → IsSound m.socket
      → get_elem? m.socket.file_chunks chunk ≡ some c
      → (m' : Manager M C) × (receiver_to k m to_limit ifid chunk now ≡ some m')
        × IsSound m'.socket
        × (m'.aborted
            ≡ (serves k ifid m.window_controllers && leb to_limit c.chunk_request) || m.aborted)
        × (m'.socket.received_count ≡ m.socket.received_count)
  unfolding receiver_to
  receiver_to-IsSound m ifid chunk c v entry =
      elim (Bool-cases (serves k ifid m.window_controllers)) [
        | inr unserved ↦ (m, ground arith, v, ground arith, refl)
        | inl served ↦
            let late : ChunkInfo =
              if c.received then c else record c { chunk_timeout = c.chunk_timeout + 1 } in
            let missing = if leb to_limit c.chunk_request then [] else m.socket.missing_chunks in
            (
              record m {
                window_controllers =
                    at_ifid k ifid (λ w. k.receiver_to w chunk now) m.window_controllers;
                socket = record (m.socket) {
                  file_chunks = set m.socket.file_chunks chunk late;
                  missing_chunks = missing;
                };
                aborted = leb to_limit c.chunk_request || m.aborted;
              },
              ground (arith, entry, served),
              same_after k m v chunk c entry late missing (inl (ground arith)),
              ground arith,
              refl,
            )
      ]
