-- ===== src/Queue/Flow.antt =====
-- One flow of the fair queue: what the operations of `VirtualQueue` (OutputQueue.cc) keep.
use ccnpl_sim.Prelude.{
  ℕ, ◌+◌, ◌≤◌, ◌<◌, ◌≡◌, refl, ◌⊎◌, inl, inr, ◌↔◌, true, if◌then◌else◌, List, [], ◌∷◌, none, some,
  subst, u32_mod, arith,
}
use ccnpl_sim.Packets.{CcnxPacket}
use ccnpl_sim.Queue.Link.{total, AllPositive, total-append, AllPositive-append}
use ccnpl_sim.Queue.VirtualQueue
use ccnpl_sim.Queue.VirtualQueue.{VirtualQueue}

module _ {M : Type 0} where
  -- The length counts the bits of the packets, each of which has some, and the token counter is
  -- within its bound.
  pub record IsCounted (q : VirtualQueue M) : Type 0 where
    pub counted : q.length ≡ total q.packet_list
    pub word : q.length < u32_mod
    pub positive : AllPositive q.packet_list
    pub tokens : q.counter ≤ q.b
    pub room : q.b < u32_mod

  pub new_virtual_queue-IsCounted : IsCounted (VirtualQueue.new_virtual_queue {M = M})
  unfolding VirtualQueue.new_virtual_queue
  new_virtual_queue-IsCounted = ground arith

  -- A packet of some bits, whose size does not carry the length past a 32-bit word, leaves a flow
  -- counted.
  pub enqueue-IsCounted :
      (q : VirtualQueue M) (p : CcnxPacket M)
      → IsCounted q
      → 0 < p.size
      → q.length + p.size < u32_mod
      → IsCounted (VirtualQueue.enqueue q p)
  unfolding VirtualQueue.enqueue
  enqueue-IsCounted q p c h k =
      ground (arith, total-append q.packet_list (p ∷ []), AllPositive-append q.packet_list p)

  -- On a counted flow `head` and `dequeue` agree: an empty flow yields no packet and stays; any
  -- other yields its oldest packet, which `dequeue` takes off, and stays counted.
  pub dequeue-head :
      (q : VirtualQueue M) (ps : List (CcnxPacket M))
      → q.packet_list ≡ ps
      → IsCounted q
      → ((ps ≡ []) × (VirtualQueue.head q ≡ some none) × (VirtualQueue.dequeue q ≡ some q))
        ⊎ ((p : CcnxPacket M) × (q' : VirtualQueue M) × (ps ≡ p ∷ q'.packet_list)
            × (VirtualQueue.head q ≡ some (some p))
            × (VirtualQueue.dequeue q ≡ some q')
            × IsCounted q'
            × (q'.length + p.size ≡ q.length))
  unfolding VirtualQueue.head VirtualQueue.dequeue
  dequeue-head q [] e c = inl (refl, ground arith, ground arith)
  dequeue-head q (p ∷ ps) e c = inr (
    p,
    record q { length = total ps; packet_list = ps },
    refl,
    ground arith,
    ground arith,
    ground arith,
    ground arith,
  )

  -- A nonempty list has a last packet, some bits long if all are.
  split_last-total :
      (p : CcnxPacket M) (ps : List (CcnxPacket M))
      → AllPositive (p ∷ ps)
      → (before : List (CcnxPacket M)) × (last : CcnxPacket M) × (VirtualQueue.split_last (p ∷ ps)
          ≡ some (before, last))
        × (total (p ∷ ps) ≡ total before + last.size)
        × (0 < last.size)
  unfolding VirtualQueue.split_last
  split_last-total p [] h = ([], p, refl, omega arith, h.0)
  split_last-total p (q ∷ ps) h =
      let (before, last, e, t, k) = split_last-total q ps h.1 in
      (p ∷ before, last, rw (e, VirtualQueue.split_last), omega arith, k)

  -- `drop` on a flow that holds a packet takes off a packet of some bits, and the length still
  -- counts them: the flow is not counted any more.
  pub drop_overcounts :
      (q : VirtualQueue M) (p : CcnxPacket M) (ps : List (CcnxPacket M))
      → q.packet_list ≡ p ∷ ps
      → IsCounted q
      → (q' : VirtualQueue M) × (dropped : ℕ) × (VirtualQueue.drop q ≡ some (q', dropped))
        × (q'.length ≡ total q'.packet_list + dropped)
        × (¬ (q'.length ≡ total q'.packet_list))
  unfolding VirtualQueue.drop
  drop_overcounts q p ps e c =
      let (before, last, found, t, k) = split_last-total p ps (subst AllPositive e c.positive) in
      (record q { packet_list = before }, last.size, ground arith, ground arith, ground arith)

  -- So a flow of one packet, dropped, has no front although its length is not 0: `head` faults.
  pub drop_then_head :
      (q q' : VirtualQueue M) (p : CcnxPacket M) (dropped : ℕ)
      → q.packet_list ≡ p ∷ []
      → IsCounted q
      → VirtualQueue.drop q ≡ some (q', dropped)
      → VirtualQueue.head q' ≡ none
  unfolding VirtualQueue.drop VirtualQueue.head VirtualQueue.split_last
  drop_then_head q q' p dropped e c d = ground arith

  -- The token bucket: the counter never passes its bound, and a refused request leaves it alone.
  pub inc_count-IsCounted :
      (q : VirtualQueue M) (inc : ℕ) → IsCounted q → IsCounted (VirtualQueue.inc_count q inc)
  unfolding VirtualQueue.inc_count
  inc_count-IsCounted q inc c = ground arith

  -- On a counted flow `dec_count` grants exactly what the counter covers, takes it off the counter if
  -- it grants it, and leaves the flow counted.
  pub dec_count_lem :
      (q : VirtualQueue M) (dec : ℕ)
      → IsCounted q
      → let (q', granted) = VirtualQueue.dec_count q dec in
        IsCounted q'
        × (q'.counter + (if granted then dec else 0) ≡ q.counter)
        × ((granted ≡ true) ↔ (dec ≤ q.counter))
  unfolding VirtualQueue.dec_count
  dec_count_lem q dec c = ground arith
