-- ===== src/Socket/Progress.antt =====
-- What a download counts (Socket.cc, SocketManager.cc), and when it is complete.
use ccnpl_sim.Prelude.{
  ℕ, suc, ◌+◌, ◌*◌, ◌<◌, ◌≡◌, ◌↔◌, refl, true, List, [], ◌∷◌, some, length, u32_mod, arith,
}
use ccnpl_sim.Socket.Controller.{Controller}
use ccnpl_sim.Socket.Chunks.{Socket, ChunkInfo, check_received}
use ccnpl_sim.Socket.Choice.{InRange, get_elem?_total}
use ccnpl_sim.Socket.Manager.{Manager, completed}
use ccnpl_sim.Socket.Flags.{data_flags, flags_all, get_elem?-lt, all_flags, mul_cancel, mod_small}

module _ {M : Type 0} where
  -- The counts are those of the flags; the sums are within 32-bit words; every chunk that is left has
  -- its entry.
  pub record IsSound (s : Socket M) : Type 0 where
    pub sized : length s.file_chunks ≡ suc s.tot_filesize
    pub counted : s.received_count ≡ data_flags s.file_chunks
    pub bits : s.filesize ≡ s.chunk_size * s.received_count
    pub word : s.chunk_size * s.tot_filesize < u32_mod
    pub total_word : s.tot_filesize + 1 < u32_mod
    pub in_range : InRange s

  -- All chunks from 1 on are received.
  abbrev pub AllReceived : Socket M → Type 0
  AllReceived s = (i : ℕ) → i < s.tot_filesize → check_received s (suc i) ≡ some true

  all_iff : (s : Socket M) → IsSound s → (s.received_count ≡ s.tot_filesize) ↔ AllReceived s
  unfolding check_received
  all_iff s v = iff s.file_chunks refl
    where
      iff :
          (l : List ChunkInfo)
          → s.file_chunks ≡ l
          → (s.received_count ≡ s.tot_filesize) ↔ AllReceived s
      iff [] e = absurd (ground (arith, v.sized))
      iff (c ∷ cs) e = (
        (λ h i lt.
            let (x, at) = get_elem?_total cs i (ground (arith, v.sized)) in
            ground (arith, flags_all cs (ground (arith, v.sized, v.counted)) i x at)),
        (λ all. ground (
          arith,
          v.sized,
          v.counted,
          all_flags cs (λ i x at. ground (arith, get_elem?-lt cs i x at, all i, v.sized)),
        )),
      )

module _ {M C : Type 0} (k : Controller C) where
  -- A sound download of chunks of some bits is complete exactly if all its chunks from 1 on are
  -- received.
  pub completed-AllReceived :
      (m : Manager M C)
      → IsSound m.socket
      → 0 < m.socket.chunk_size
      → (completed k m ≡ true) ↔ AllReceived m.socket
  unfolding completed
  completed-AllReceived m v h =
      let s = m.socket in
      let full = mod_small (s.chunk_size * s.tot_filesize) v.word in
      let iff = all_iff s v in
      (
        (λ done. iff.0 (
            mul_cancel s.chunk_size s.received_count s.tot_filesize h
              (ground (arith, full, v.bits)))),
        (λ all. ground (arith, full, v.bits, iff.1 all)),
      )
