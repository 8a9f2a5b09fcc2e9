-- ===== src/Queue/Link.antt =====
-- A FIFO queue of OutputQueue.cc on its link: packets arrive, and the simulator fires the departures
-- that the queue has scheduled (`CBCBNode::dequeue_packet` in tags/cbcbsim-1.0.2/src/CBCBNode.cc).
use ccnpl_sim.Prelude.{
  ℕ, suc, ◌+◌, ◌-◌, ◌≤◌, ◌<◌, ◌≡◌, refl, sym, ap, subst, ◌∙◌, ◌==◌, leb, if◌then◌else◌, List, [],
  ◌∷◌, ◌++◌, Option, none, some, u32_mod, append-nil, arith,
}
use ccnpl_sim.Packets.{CcnxPacket}
use ccnpl_sim.Queue.Fifo.{Fifo, Signal, departure, delivery, enqueue, dequeue_packet}

-- What the environment does.
pub data Action (M : Type 0) : Type 0 where
  arrive : CcnxPacket M → Action M
  serve : Action M

-- The queue, its `DeQueuePacket` events not yet fired, and the packets handed to the next node.
pub record Link (M : Type 0) : Type 0 where
  pub queue : Fifo M
  pub pending : ℕ
  pub sent : List (CcnxPacket M)

-- The abstract link: a bounded queue of packets, first in, first out.
pub record Pipe (M : Type 0) : Type 0 where
  pub capacity : ℕ
  pub backlog : List (CcnxPacket M)
  pub passed : List (CcnxPacket M)

module _ {M : Type 0} where
  abbrev pub total : List (CcnxPacket M) → ℕ
  total [] = 0
  total (p ∷ ps) = p.size + total ps

  abbrev pub departures : List (Signal M) → ℕ
  departures [] = 0
  departures (departure _ ∷ s) = suc (departures s)
  departures (delivery _ _ ∷ s) = departures s

  abbrev pub deliveries : List (Signal M) → List (CcnxPacket M)
  deliveries [] = []
  deliveries (departure _ ∷ s) = deliveries s
  deliveries (delivery _ p ∷ s) = p ∷ deliveries s

  -- A fired event leaves the pending ones; with none pending nothing can fire.
  unfoldable pub step : Link M → Action M → Option (Link M)
  step l (arrive p) =
      let (q, raised, _) = enqueue l.queue p in
      some (record {
        queue = q;
        pending = l.pending + departures raised;
        sent = l.sent ++ deliveries raised;
      })
  step l serve = if l.pending == 0 then some l else (elim (dequeue_packet l.queue) [
    | none ↦ none
    | some (q, raised, _) ↦ some (record {
      queue = q;
      pending = l.pending - 1 + departures raised;
      sent = l.sent ++ deliveries raised;
    })
  ])

  unfoldable pub run : Link M → List (Action M) → Option (Link M)
  run l [] = some l
  run l (a ∷ as') = elim (step l a) [ none ↦ none | some l' ↦ run l' as' ]

  abbrev pub pipe_step : Pipe M → Action M → Pipe M
  pipe_step s (arrive p) =
      if leb (total s.backlog + p.size) s.capacity
      then record s { backlog = s.backlog ++ p ∷ [] }
      else s
  pipe_step s serve = elim s.backlog [
    | [] ↦ s
    | p ∷ rest ↦ record s { backlog = rest; passed = s.passed ++ p ∷ [] }
  ]

  abbrev pub pipe_run : Pipe M → List (Action M) → Pipe M
  pipe_run s [] = s
  pipe_run s (a ∷ as') = pipe_run (pipe_step s a) as'

  abbrev pub view : Link M → Pipe M
  view l = record { capacity = l.queue.size; backlog = l.queue.packet_list; passed = l.sent }

  -- One departure is scheduled for a queue that holds a packet, and none for an empty one.
  abbrev pub scheduled : List (CcnxPacket M) → ℕ
  scheduled [] = 0
  scheduled (_ ∷ _) = 1

  abbrev pub AllPositive : List (CcnxPacket M) → Type 0
  AllPositive [] = Unit {0}
  AllPositive (p ∷ ps) = (0 < p.size) × AllPositive ps

  pub record IsSound (l : Link M) : Type 0 where
    pub counted : l.queue.length ≡ total l.queue.packet_list
    pub bounded : l.queue.length ≤ l.queue.size
    pub word : l.queue.size < u32_mod
    pub positive : AllPositive l.queue.packet_list
    pub paced : l.pending ≡ scheduled l.queue.packet_list

  -- A packet of some bits, whose size does not carry a full queue past a 32-bit word.
  abbrev pub Admissible : ℕ → Action M → Type 0
  Admissible capacity (arrive p) = (0 < p.size) × (capacity + p.size < u32_mod)
  Admissible capacity serve = Unit {0}

  abbrev pub AllAdmissible : ℕ → List (Action M) → Type 0
  AllAdmissible capacity [] = Unit {0}
  AllAdmissible capacity (a ∷ as') = Admissible capacity a × AllAdmissible capacity as'

  pub total-append : (ps qs : List (CcnxPacket M)) → total (ps ++ qs) ≡ total ps + total qs
  total-append [] qs = omega arith
  total-append (p ∷ ps) qs = omega (arith, total-append ps qs)

  pub AllPositive-append :
      (ps : List (CcnxPacket M)) (p : CcnxPacket M)
      → AllPositive ps
      → 0 < p.size
      → AllPositive (ps ++ p ∷ [])
  AllPositive-append [] p h k = (k, tt)
  AllPositive-append (q ∷ ps) p h k = (h.0, AllPositive-append ps p h.1 k)

  -- What one step of a sound link yields: no fault, a sound link, and the abstract step.
  abbrev Refines : Link M → Action M → Type 0
  Refines l a = (l' : Link M) × (step l a ≡ some l') × IsSound l' × (view l' ≡ pipe_step (view l) a)

  abbrev after_arrive : Link M → CcnxPacket M → Link M
  after_arrive l p =
      let (q, raised, _) = enqueue l.queue p in
      record {
        queue = q;
        pending = l.pending + departures raised;
        sent = l.sent ++ deliveries raised;
      }

  arrive-IsSound :
      (l : Link M) (ps : List (CcnxPacket M)) (p : CcnxPacket M)
      → l.queue.packet_list ≡ ps
      → IsSound l
      → Admissible l.queue.size (arrive p)
      → IsSound (after_arrive l p)
  unfolding enqueue
  arrive-IsSound l [] p e s h = ground (arith)
  arrive-IsSound l (q ∷ ps) p e s h =
      ground (arith, total-append ps (p ∷ []), AllPositive-append ps p)

  arrive-view :
      (l : Link M) (ps : List (CcnxPacket M)) (p : CcnxPacket M)
      → l.queue.packet_list ≡ ps
      → IsSound l
      → Admissible l.queue.size (arrive p)
      → view (after_arrive l p) ≡ pipe_step (view l) (arrive p)
  unfolding enqueue
  arrive-view l [] p e s h = ground (arith, append-nil l.sent)
  arrive-view l (q ∷ ps) p e s h = ground (arith, append-nil l.sent)

  arrive-Refines :
      (l : Link M) (p : CcnxPacket M)
      → IsSound l
      → Admissible l.queue.size (arrive p)
      → Refines l (arrive p)
  unfolding step
  arrive-Refines l p s h =
      (after_arrive l p, refl, arrive-IsSound l _ p refl s h, arrive-view l _ p refl s h)

  serve-Refines :
      (l : Link M) (ps : List (CcnxPacket M))
      → l.queue.packet_list ≡ ps
      → IsSound l
      → Refines l serve
  unfolding step dequeue_packet
  serve-Refines l [] e s = (l, ground arith, s, ground arith)
  serve-Refines l (p ∷ []) e s = (
    record {
      queue = record (l.queue) { length = 0; packet_list = [] };
      pending = 0;
      sent = l.sent ++ p ∷ [];
    },
    ground arith,
    ground arith,
    ground arith,
  )
  serve-Refines l (p ∷ q ∷ ps) e s = (
    record {
      queue = record (l.queue) { length = total (q ∷ ps); packet_list = q ∷ ps };
      pending = 1;
      sent = l.sent ++ p ∷ [];
    },
    ground arith,
    ground arith,
    ground arith,
  )

  pipe_step-capacity : (s : Pipe M) (a : Action M) → (pipe_step s a).capacity ≡ s.capacity
  pipe_step-capacity s (arrive p) = ground arith
  pipe_step-capacity s serve = ground arith

  step-Refines : (l : Link M) (a : Action M) → IsSound l → Admissible l.queue.size a → Refines l a
  step-Refines l (arrive p) s h = arrive-Refines l p s h
  step-Refines l serve s h = serve-Refines l _ refl s

  -- Any run from a sound link, on packets of some bits that do not overflow the length, comes to its
  -- end with no read past the list, in a sound link, where the packets handed on, the backlog and
  -- the capacity are those of the bounded first-in first-out pipe run on the same actions.
  pub run-pipe_run :
      (l : Link M) (as' : List (Action M))
      → IsSound l
      → AllAdmissible l.queue.size as'
      → (l' : Link M) × (run l as' ≡ some l') × IsSound l' × (view l' ≡ pipe_run (view l) as')
  unfolding run
  run-pipe_run l [] s h = (l, refl, s, refl)
  run-pipe_run l (a ∷ as') s h =
      let (l₁, e₁, s₁, v₁) = step-Refines l a s h.0 in
      let same : l₁.queue.size ≡ l.queue.size =
        ap (λ (v : Pipe M). v.capacity) v₁ ∙ pipe_step-capacity (view l) a in
      let (l₂, e₂, s₂, v₂) =
        run-pipe_run l₁ as' s₁ (subst (λ c. AllAdmissible c as') (sym same) h.1) in
      (l₂, rw (e₁, run) e₂, s₂, v₂ ∙ ap (λ v. pipe_run v as') v₁)
