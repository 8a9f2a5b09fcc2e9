-- ===== src/Socket/Receipt.antt =====
-- What the arrival of a chunk does to a download (SocketManager.cc).
use ccnpl_sim.Prelude.{
  ℕ, suc, ◌+◌, ◌*◌, ◌≤◌, ◌<◌, ◌≡◌, ◌⊎◌, refl, sym, subst, ◌∙◌, ◌-◌, ◌==◌, ltb, not, if◌then◌else◌,
  Bool, true, false, ◌&&◌, Bool-cases, inl, inr, List, [], ◌∷◌, some, Text, get_elem?, set,
  length-set, add32, arith,
}
use ccnpl_sim.Socket.Controller.{Controller}
use ccnpl_sim.Socket.Chunks.{Socket, ChunkInfo, erase_id}
use ccnpl_sim.Socket.Choice.{get_elem?_total}
use ccnpl_sim.Socket.Manager.{Manager, serves, at_ifid, count_chunk, received_chunk}
use ccnpl_sim.Socket.Flags.{
  data_flags, data_flags-set, is_received, data_flags-le-length, mul_bound,
}
use ccnpl_sim.Socket.Progress.{IsSound}

-- What holds of every controller of a download.
abbrev pub Every : {C : Type 0} → (C → Type 0) → List C → Type 0
Every P [] = Unit {0}
Every P (c ∷ cs) = P c × Every P cs

pub everywhere : {C : Type 0} (cs : List C) → Every (λ c. Unit {0}) cs
everywhere [] = tt
everywhere (c ∷ cs) = (tt, everywhere cs)

-- The same content, at the same port, with the same number of entries.
abbrev pub SameContent : {M : Type 0} → Socket M → Socket M → Type 0
SameContent s t =
    (t.chunk_size ≡ s.chunk_size)
    × (t.tot_filesize ≡ s.tot_filesize)
    × (t.port ≡ s.port)
    × (t.start_time ≡ s.start_time)

module _ {C : Type 0} (k : Controller C) where
  pub Every-at_ifid :
      (P : C → Type 0) (ifid : ℕ) (f : C → C) (cs : List C)
      → ((c : C) → P c → P (f c))
      → Every P cs
      → Every P (at_ifid k ifid f cs)
  unfolding at_ifid
  Every-at_ifid P ifid f [] law all = tt
  Every-at_ifid P ifid f (c ∷ cs) law all = elim (Bool-cases (k.ifid c == ifid)) [
    | inl here ↦ rw here (law c all.0, all.1)
    | inr there ↦ rw there (all.0, Every-at_ifid P ifid f cs law all.1)
  ]

module _ {M C : Type 0} (k : Controller C) where
  -- Whether an arrival counts: its interface has a controller, it is not chunk 0, and the chunk was
  -- not received before.
  abbrev pub is_new : Manager M C → ℕ → ℕ → Bool
  is_new m chunk ifid =
      not (chunk == 0)
      && (serves k ifid m.window_controllers && not (is_received m.socket.file_chunks chunk))

  -- The chunks missing are not read by the counts.
  missing_IsSound :
      (m : Manager M C)
      → IsSound m.socket
      → (missing : List ℕ) → IsSound (record (m.socket) { missing_chunks = missing })
  missing_IsSound m v missing = record {
    sized = v.sized;
    counted = v.counted;
    bits = v.bits;
    word = v.word;
    total_word = v.total_word;
    in_range = v.in_range;
  }

  -- The parts of an arrival, for the entry of its chunk.
  module _ (m : Manager M C) (v : IsSound m.socket) (chunk : ℕ) (c : ChunkInfo)
      (entry : get_elem? m.socket.file_chunks chunk ≡ some c) where
    counted_after :
        (size now : ℕ)
        → size ≡ m.socket.chunk_size
        → 0 < chunk
        → c.received ≡ false
        → IsSound (
            count_chunk k
              (record (m.socket) { missing_chunks = erase_id chunk m.socket.missing_chunks })
              chunk
              c
              size
              now)
          × ((count_chunk k
                (record (m.socket) { missing_chunks = erase_id chunk m.socket.missing_chunks })
                chunk
                c
                size
                now).received_count
              ≡ m.socket.received_count + 1)
    unfolding count_chunk
    counted_after size now e pos new =
        let d : ChunkInfo = record c {
          received = true;
          chunk_rtt = now - c.chunk_rtt;
          chunk_retrieving_time = now - c.chunk_retrieving_time;
        } in
        let l = m.socket.file_chunks in
        let more : data_flags (set l chunk d) ≡ suc (data_flags l) =
          ground (arith, data_flags-set l chunk c d entry) in
        let len = length-set l chunk d in
        let room : data_flags (set l chunk d) ≤ m.socket.tot_filesize =
          data_flags-le-length (set l chunk d) m.socket.tot_filesize (len ∙ v.sized) in
        let grown : add32 m.socket.received_count 1 ≡ m.socket.received_count + 1 =
          omega (arith, v.counted, v.total_word) in
        let bound =
          mul_bound m.socket.chunk_size (m.socket.received_count + 1) m.socket.tot_filesize
            (omega (arith, v.counted, room, more)) in
        let bits_sum : m.socket.chunk_size * (m.socket.received_count + 1)
            ≡ m.socket.filesize + m.socket.chunk_size =
          grind (arith, v.bits) in
        (
          record {
            sized = len ∙ v.sized;
            counted = omega (arith, v.counted, grown, more);
            bits = rw grown (ground (arith, e, bits_sum, bound, v.word));
            word = v.word;
            total_word = v.total_word;
            in_range = λ a h. ground (arith, v.in_range a h, len);
          },
          grown,
        )

    -- The socket after a write that leaves the flags from 1 on, and anything to the chunks missing.
    pub same_after :
        (d : ChunkInfo) (missing : List ℕ)
        → (d.received ≡ c.received) ⊎ (chunk ≡ 0)
        → IsSound (record (m.socket) {
          file_chunks = set m.socket.file_chunks chunk d;
          missing_chunks = missing;
        })
    same_after d missing h =
        let l = m.socket.file_chunks in
        let same : data_flags (set l chunk d) ≡ data_flags l =
          ground (arith, data_flags-set l chunk c d entry) in
        let len = length-set l chunk d in
        record {
          sized = len ∙ v.sized;
          counted = v.counted ∙ sym same;
          bits = v.bits;
          word = v.word;
          total_word = v.total_word;
          in_range = λ a h. ground (arith, v.in_range a h, len);
        }

    arrived :
        (P : C → Type 0) (size ifid : ℕ) (source : Text) (now : ℕ)
        → size ≡ m.socket.chunk_size
        → ((w : C) (again : Bool) → P w → P (k.received_chunk w chunk again source now))
        → Every P m.window_controllers
        → (m' : Manager M C) × (received_chunk k m chunk size ifid source now ≡ some m')
          × IsSound m'.socket
          × (m'.socket.received_count
              ≡ m.socket.received_count + (if is_new m chunk ifid then 1 else 0))
          × SameContent m.socket m'.socket
          × Every P m'.window_controllers
    unfolding received_chunk
    arrived P size ifid source now e law all = elim (Bool-cases (chunk == 0)) [
      | inl info ↦ (
        record m {
          socket = record (m.socket) {
            missing_chunks = erase_id chunk m.socket.missing_chunks;
            file_chunks = set m.socket.file_chunks 0 (record c { received = true });
          };
        },
        ground (arith, entry),
        subst
            (λ i. IsSound (record (m.socket) {
              missing_chunks = erase_id chunk m.socket.missing_chunks;
              file_chunks = set m.socket.file_chunks i (record c { received = true });
            }))
            (ground arith)
            (same_after (record c { received = true }) (erase_id chunk m.socket.missing_chunks)
              (inr (ground arith))),
        ground arith,
        (refl, refl, refl, refl),
        all,
      )
      | inr piece ↦ elim (Bool-cases (serves k ifid m.window_controllers)) [
        | inr unserved ↦ (
          record m {
            socket = record (m.socket) { missing_chunks = erase_id chunk m.socket.missing_chunks };
          },
          ground (arith, entry),
          missing_IsSound m v (erase_id chunk m.socket.missing_chunks),
          ground arith,
          (refl, refl, refl, refl),
          all,
        )
        | inl served ↦ elim (Bool-cases (c.received)) [
          | inl again ↦ (
            record m {
              window_controllers =
                  at_ifid k ifid (λ w. k.received_chunk w chunk (ltb 1 c.chunk_request) source now)
                    m.window_controllers;
              socket = record (m.socket) {
                missing_chunks = erase_id chunk m.socket.missing_chunks;
              };
            },
            ground (arith, entry),
            missing_IsSound m v (erase_id chunk m.socket.missing_chunks),
            ground (arith, entry),
            (refl, refl, refl, refl),
            Every-at_ifid k P ifid
                (λ w. k.received_chunk w chunk (ltb 1 c.chunk_request) source now)
                m.window_controllers (λ w h. law w (ltb 1 c.chunk_request) h) all,
          )
          | inr new ↦
              let (sound, more) = counted_after size now e (ground arith) new in
              (
                record m {
                  window_controllers =
                      at_ifid k ifid
                        (λ w. k.received_chunk w chunk (ltb 1 c.chunk_request) source now)
                        m.window_controllers;
                  socket =
                      count_chunk k
                        (record (m.socket) {
                          missing_chunks = erase_id chunk m.socket.missing_chunks;
                        })
                        chunk c size now;
                },
                ground (arith, entry),
                sound,
                ground (arith, entry, more),
                (refl, refl, refl, refl),
                Every-at_ifid k P ifid
                    (λ w. k.received_chunk w chunk (ltb 1 c.chunk_request) source now)
                    m.window_controllers (λ w h. law w (ltb 1 c.chunk_request) h) all,
              )
        ]
      ]
    ]

  -- A chunk of a sound download that arrives with the content's chunk size does not fault, and the
  -- download stays sound. The count of chunks received grows by one if the interface has a
  -- controller, the chunk is not chunk 0 and was not received before, and else stays.
  pub received_chunk-IsSound :
      (m : Manager M C) (chunk size ifid : ℕ) (source : Text) (now : ℕ)
      → IsSound m.socket
      → chunk ≤ m.socket.tot_filesize
      → size ≡ m.socket.chunk_size
      → (m' : Manager M C) × (received_chunk k m chunk size ifid source now ≡ some m')
        × IsSound m'.socket
        × (m'.socket.received_count
            ≡ m.socket.received_count + (if is_new m chunk ifid then 1 else 0))
  received_chunk-IsSound m chunk size ifid source now v known e =
      let (c, entry) = get_elem?_total m.socket.file_chunks chunk (omega (arith, v.sized)) in
      let (m', found, sound, count, _, _) =
        arrived m v chunk c entry (λ w. Unit {0}) size ifid source now e (λ w again h. h)
          (everywhere m.window_controllers) in
      (m', found, sound, count)

  -- The same, for controllers that keep what an arrival leaves them.
  pub received_chunk-Every :
      (P : C → Type 0) (m : Manager M C) (chunk size ifid : ℕ) (source : Text) (now : ℕ)
      → IsSound m.socket
      → chunk ≤ m.socket.tot_filesize
      → size ≡ m.socket.chunk_size
      → ((w : C) (again : Bool) → P w → P (k.received_chunk w chunk again source now))
      → Every P m.window_controllers
      → (m' : Manager M C) × (received_chunk k m chunk size ifid source now ≡ some m')
        × IsSound m'.socket
        × SameContent m.socket m'.socket
        × Every P m'.window_controllers
  received_chunk-Every P m chunk size ifid source now v known e law all =
      let (c, entry) = get_elem?_total m.socket.file_chunks chunk (omega (arith, v.sized)) in
      let (m', found, sound, _, same, every) =
        arrived m v chunk c entry P size ifid source now e law all in
      (m', found, sound, same, every)
