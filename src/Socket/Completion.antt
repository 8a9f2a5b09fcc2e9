-- ===== src/Socket/Completion.antt =====
-- A download whose chunks all arrive (SocketManager.cc).
use ccnpl_sim.Prelude.{
  ℕ, zero, suc, ◌-◌, ◌≤◌, ◌<◌, ◌≡◌, refl, ◌∙◌, ◌==◌, ltb, if◌then◌else◌, Bool, true, false, ◌||◌,
  Option-cases, inl, inr, sym, subst, List, [], ◌∷◌, Option, none, some, Text, get_elem?, set,
  arith,
}
use ccnpl_sim.Socket.Controller.{Controller, IsFixed}
use ccnpl_sim.Socket.Chunks.{ChunkInfo, check_received}
use ccnpl_sim.Socket.Choice.{get_elem?_total}
use ccnpl_sim.Socket.Manager.{Manager, serves, at_ifid, count_chunk, received_chunk, completed}
use ccnpl_sim.Socket.Flags.{is_received}
use ccnpl_sim.Socket.Progress.{IsSound, completed-AllReceived}
use ccnpl_sim.Socket.Receipt.{SameContent, received_chunk-Every, everywhere}

is_received-set :
    (l : List ChunkInfo) (i j : ℕ) (c d : ChunkInfo)
    → get_elem? l i ≡ some c
    → is_received (set l i d) j ≡ (if j == i then d.received else is_received l j)
is_received-set [] i j c d e = cc
is_received-set (x ∷ xs) zero zero c d e = refl
is_received-set (x ∷ xs) zero (suc j) c d e = ground arith
is_received-set (x ∷ xs) (suc i) zero c d e = ground arith
is_received-set (x ∷ xs) (suc i) (suc j) c d e = ground (arith, is_received-set xs i j c d e)

-- A chunk that arrives: its id, its interface, its source and the time.
pub record Arriving : Type 0 where
  pub chunk : ℕ
  pub ifid : ℕ
  pub source : Text
  pub now : ℕ

-- Whether a chunk is among the arrivals.
abbrev pub arrives : ℕ → List Arriving → Bool
arrives i [] = false
arrives i (a ∷ rest) = (i == a.chunk) || arrives i rest

module _ {C : Type 0} (k : Controller C) where
  serves-at_ifid :
      (j ifid : ℕ) (f : C → C) (cs : List C)
      → ((c : C) → k.ifid (f c) ≡ k.ifid c)
      → serves k j (at_ifid k ifid f cs) ≡ serves k j cs
  unfolding serves at_ifid
  serves-at_ifid j ifid f [] law = refl
  serves-at_ifid j ifid f (c ∷ cs) law = ground (arith, law c, serves-at_ifid j ifid f cs law)

  -- The arrivals are of the content's chunks, on interfaces with a controller.
  abbrev pub AllServed : ℕ → List C → List Arriving → Type 0
  AllServed total cs [] = Unit {0}
  AllServed total cs (a ∷ rest) =
      (a.chunk ≤ total) × (serves k a.ifid cs ≡ true) × AllServed total cs rest

  AllServed-same :
      (total : ℕ) (cs cs' : List C) (rest : List Arriving)
      → ((j : ℕ) → serves k j cs' ≡ serves k j cs)
      → AllServed total cs rest
      → AllServed total cs' rest
  AllServed-same total cs cs' [] same all = tt
  AllServed-same total cs cs' (a ∷ rest) same all =
      (all.0, same a.ifid ∙ all.1, AllServed-same total cs cs' rest same all.2)

module _ {M C : Type 0} (k : Controller C) where
  -- A chunk on an interface with a controller is received afterwards, and so are those before.
  received_chunk-is_received :
      (m m' : Manager M C) (c : ChunkInfo) (chunk size ifid : ℕ) (source : Text) (now i : ℕ)
      → get_elem? m.socket.file_chunks chunk ≡ some c
      → serves k ifid m.window_controllers ≡ true
      → received_chunk k m chunk size ifid source now ≡ some m'
      → is_received m'.socket.file_chunks i ≡ (i == chunk) || is_received m.socket.file_chunks i
  unfolding received_chunk count_chunk
  received_chunk-is_received m m' c chunk size ifid source now i entry served e =
      let l = m.socket.file_chunks in
      let counted : ChunkInfo = record c {
        received = true;
        chunk_rtt = now - c.chunk_rtt;
        chunk_retrieving_time = now - c.chunk_retrieving_time;
      } in
      ground (
        arith,
        entry,
        served,
        is_received-set l chunk i c (record c { received = true }) entry,
        is_received-set l chunk i c counted entry,
        is_received-set l chunk i c c entry,
      )

  received_chunk-serves :
      (m m' : Manager M C) (c : ChunkInfo) (chunk size ifid : ℕ) (source : Text) (now j : ℕ)
      → IsFixed k
      → get_elem? m.socket.file_chunks chunk ≡ some c
      → received_chunk k m chunk size ifid source now ≡ some m'
      → serves k j m'.window_controllers ≡ serves k j m.window_controllers
  unfolding received_chunk
  received_chunk-serves m m' c chunk size ifid source now j fixed entry e = ground (
    arith,
    entry,
    serves-at_ifid k j ifid (λ w. k.received_chunk w chunk (ltb 1 c.chunk_request) source now)
        m.window_controllers (λ w. fixed.received w chunk (ltb 1 c.chunk_request) source now),
  )

  -- A run of arrivals, all of the content's chunk size.
  abbrev pub arrive_all : List Arriving → Manager M C → Option (Manager M C)
  arrive_all [] m = some m
  arrive_all (a ∷ rest) m =
      elim (received_chunk k m a.chunk m.socket.chunk_size a.ifid a.source a.now) [
        | none ↦ none
        | some m' ↦ arrive_all rest m'
      ]

  arrive_all_lem :
      (m : Manager M C) (rest : List Arriving)
      → IsFixed k
      → IsSound m.socket
      → AllServed k m.socket.tot_filesize m.window_controllers rest
      → (m' : Manager M C) × (arrive_all rest m ≡ some m')
        × IsSound m'.socket
        × SameContent m.socket m'.socket
        × ((i : ℕ)
            → is_received m'.socket.file_chunks i
              ≡ arrives i rest || is_received m.socket.file_chunks i)
  arrive_all_lem m [] fixed v all = (m, refl, v, (refl, refl, refl, refl), λ i. refl)
  arrive_all_lem m (a ∷ rest) fixed v all =
      let (c, entry) =
        get_elem?_total m.socket.file_chunks a.chunk (omega (arith, v.sized, all.0)) in
      let (m₁, found, v₁, same₁, _) =
        received_chunk-Every k (λ w. Unit {0}) m a.chunk m.socket.chunk_size a.ifid a.source a.now v
          all.0 refl (λ w again h. h) (everywhere m.window_controllers) in
      let marks : (i : ℕ)
          → is_received m₁.socket.file_chunks i
            ≡ (i == a.chunk) || is_received m.socket.file_chunks i =
        λ i.
          received_chunk-is_received m m₁ c a.chunk m.socket.chunk_size a.ifid a.source a.now i
            entry all.1 found in
      let still : (j : ℕ) → serves k j m₁.window_controllers ≡ serves k j m.window_controllers =
        λ j.
          received_chunk-serves m m₁ c a.chunk m.socket.chunk_size a.ifid a.source a.now j fixed
            entry found in
      let (m', run, v', same', marked) = arrive_all_lem m₁ rest fixed v₁ (
        AllServed-same k m₁.socket.tot_filesize m.window_controllers m₁.window_controllers rest
          still (subst (λ n. AllServed k n m.window_controllers rest) (sym same₁.1) all.2)) in
      (
        m',
        ground (arith, found, run),
        v',
        (same'.0 ∙ same₁.0, same'.1 ∙ same₁.1, same'.2 ∙ same₁.2, same'.3 ∙ same₁.3),
        λ i. ground (arith, marked i, marks i),
      )

  is_received-check :
      (m : Manager M C) (i : ℕ)
      → is_received m.socket.file_chunks i ≡ true
      → check_received m.socket i ≡ some true
  unfolding check_received
  is_received-check m i h = elim (Option-cases (get_elem? m.socket.file_chunks i)) [
    | inl gone ↦ ground (arith, gone, h)
    | inr (c, here) ↦ ground (arith, here, h)
  ]

  -- Every chunk of a sound download of chunks of some bits arrives, in any order and any number of
  -- times, on interfaces with a controller, and chunk 0 perhaps too. No arrival faults, and the
  -- download is complete afterwards.
  pub arrive_all-completed :
      (m : Manager M C) (rest : List Arriving)
      → IsFixed k
      → IsSound m.socket
      → 0 < m.socket.chunk_size
      → AllServed k m.socket.tot_filesize m.window_controllers rest
      → ((i : ℕ) → i < m.socket.tot_filesize → arrives (suc i) rest ≡ true)
      → (m' : Manager M C) × (arrive_all rest m ≡ some m') × (completed k m' ≡ true)
  arrive_all-completed m rest fixed v h all every =
      let (m', run, v', same, marked) = arrive_all_lem m rest fixed v all in
      (
        m',
        run,
        (completed-AllReceived k m' v' (omega (arith, same.0))).1 (λ i lt.
            is_received-check m' (suc i)
              (ground (arith, marked (suc i), every i (omega (arith, same.1))))),
      )
