-- ===== src/Queue/Turns.antt =====
-- The turns of the fair queue (`FQ` of OutputQueue.cc).
use ccnpl_sim.Prelude.{
  ℕ, zero, suc, ◌+◌, ◌≤◌, ◌<◌, ◌≡◌, ◌⊎◌, refl, inl, inr, ◌==◌, Option-cases, Bool-cases, leb, List,
  [], ◌∷◌, Option, none, some, Text, text_eq_refl, u32_mod, add32, sub32, subst, sym, arith,
}
use ccnpl_sim.Packets.{CcnxPacket}
use ccnpl_sim.Queue.Fifo.{Signal, departure, delivery}
use ccnpl_sim.Queue.VirtualQueue.{VirtualQueue, new_virtual_queue, dec_dc}
use ccnpl_sim.Queue.VirtualQueue
use ccnpl_sim.Queue.FairQueue.{
  FairQueue, Flow, find, update, begin, insert_at, flow_name, fill, grant, next_queue, pass_on,
  dequeue, transmit, drop, drop_loop, store, enqueue, insert_queue,
}

module _ {M : Type 0} where
  find-update :
      (k : Text) (v w : VirtualQueue M) (fs : List (Flow M))
      → find k fs ≡ some v
      → find k (update k w fs) ≡ some w
  unfolding find update
  find-update k v w [] e = cc
  find-update k v w (f ∷ fs) e = ground (arith, find-update k v w fs)

  head-dequeue :
      (v : VirtualQueue M) (p : CcnxPacket M)
      → VirtualQueue.head v ≡ some (some p)
      → (v' : VirtualQueue M) × (VirtualQueue.dequeue v ≡ some v')
  unfolding VirtualQueue.head VirtualQueue.dequeue
  head-dequeue v p h = front v.packet_list refl
    where
      front :
          (l : List (CcnxPacket M))
          → v.packet_list ≡ l
          → (v' : VirtualQueue M) × (VirtualQueue.dequeue v ≡ some v')
      front [] e = ground arith
      front (r ∷ rs) e =
          (record v { length = sub32 v.length r.size; packet_list = rs }, ground arith)

  head-dec_dc :
      (v : VirtualQueue M) (p : CcnxPacket M) (n : ℕ)
      → VirtualQueue.head v ≡ some (some p)
      → VirtualQueue.head (dec_dc v n) ≡ some (some p)
  unfolding VirtualQueue.head dec_dc
  head-dec_dc v p n h = h

  -- The first packet of the flow at hand.
  pub record Scheduled (q : FairQueue M) (p : CcnxPacket M) : Type 0 where
    pub key : Text
    pub flow : VirtualQueue M
    pub actual : q.actual_queue ≡ some key
    pub found : find key q.virtual_queues ≡ some flow
    pub first : VirtualQueue.head flow ≡ some (some p)

  dec_dc-Scheduled :
      (q : FairQueue M) (k : Text) (v : VirtualQueue M) (p : CcnxPacket M)
      → q.actual_queue ≡ some k
      → find k q.virtual_queues ≡ some v
      → VirtualQueue.head v ≡ some (some p)
      → Scheduled (record q { virtual_queues = update k (dec_dc v p.size) q.virtual_queues }) p
  dec_dc-Scheduled q k v p a f h = record {
    key = k;
    flow = dec_dc v p.size;
    actual = a;
    found = find-update k v (dec_dc v p.size) q.virtual_queues f;
    first = head-dec_dc v p p.size h;
  }

  pub transmit-Scheduled :
      (q : FairQueue M) (p : CcnxPacket M)
      → Scheduled q p
      → (q' : FairQueue M) × (transmit q ≡ some (q', delivery q.remote_nid p ∷ []))
        × (q'.length ≡ sub32 q.length p.size)
  unfolding transmit
  transmit-Scheduled q p s =
      let (v', e) = head-dequeue s.flow p s.first in
      (
        record q {
          length = sub32 q.length p.size;
          virtual_queues = update s.key v' q.virtual_queues;
        },
        ground (arith, s.actual, s.found, s.first),
        refl,
      )

  abbrev pub Kept : FairQueue M → FairQueue M → Type 0
  Kept q q' = (q'.length ≡ q.length) × (q'.size ≡ q.size) × (q'.remote_nid ≡ q.remote_nid)

  grant-Kept : (q q' : FairQueue M) → grant q ≡ some q' → Kept q q'
  unfolding grant
  grant-Kept q q' e = ground arith

  next_queue-Kept : (q q' : FairQueue M) → next_queue q ≡ some q' → Kept q q'
  unfolding next_queue
  next_queue-Kept q q' e = grind (arith, grant-Kept)

  -- A turn of the flow at hand: its first packet fits its deficit counter and is scheduled.
  Served : FairQueue M → FairQueue M → List (Signal M) → Type 0
  Served q q' s =
      (k : Text) × (v : VirtualQueue M) × (p : CcnxPacket M) × (q.actual_queue ≡ some k)
      × (find k q.virtual_queues ≡ some v)
      × (VirtualQueue.head v ≡ some (some p))
      × (p.size ≤ v.deficit_counter)
      × (q' ≡ record q { virtual_queues = update k (dec_dc v p.size) q.virtual_queues })
      × (s ≡ departure p.size ∷ [])

  Passed : ℕ → FairQueue M → FairQueue M → List (Signal M) → Type 0
  Passed fuel q q' s =
      (q₁ : FairQueue M) × (r₁ : ℕ) × (next_queue q ≡ some q₁)
      × (dequeue fuel q₁ ≡ some (q', s, r₁))

  pass_on-Passed :
      (fuel : ℕ) (q q' : FairQueue M) (s : List (Signal M)) (r : ℕ)
      → pass_on (dequeue fuel) q ≡ some (q', s, r)
      → Passed fuel q q' s
  unfolding Passed pass_on
  pass_on-Passed fuel q q' s r e = elim (Option-cases (next_queue q)) [
    | inl stuck ↦ ground arith
    | inr (q₁, e₁) ↦ elim (Option-cases (dequeue fuel q₁)) [
      | inl stuck ↦ ground arith
      | inr ((q₂, s₂, r₂), e₂) ↦ (q₁, r₂, e₁, ground arith)
    ]
  ]

  Turn : ℕ → FairQueue M → FairQueue M → List (Signal M) → Type 0
  Turn fuel q q' s = Served q q' s ⊎ (Passed fuel q q' s ⊎ ((q' ≡ q) × (s ≡ [])))

  head_cases :
      (o : Option (Option (CcnxPacket M)))
      → (o ≡ none) ⊎ ((o ≡ some none) ⊎ ((p : CcnxPacket M) × (o ≡ some (some p))))
  head_cases none = inl refl
  head_cases (some none) = inr (inl refl)
  head_cases (some (some p)) = inr (inr (p, refl))

  dequeue-Turn :
      (fuel : ℕ) (q q' : FairQueue M) (s : List (Signal M)) (r : ℕ) (l : List (Flow M))
      → q.virtual_queues ≡ l
      → dequeue (suc fuel) q ≡ some (q', s, r)
      → Turn fuel q q' s
  unfolding dequeue Served Turn
  dequeue-Turn fuel q q' s r [] el e = inr (inr (ground arith, ground arith))
  dequeue-Turn fuel q q' s r (f ∷ fs) el e = elim (Option-cases q.actual_queue) [
    | inl unset ↦ ground arith
    | inr (k, ek) ↦ elim (Option-cases (find k q.virtual_queues)) [
      | inl dangling ↦ ground arith
      | inr (v, ev) ↦ elim (head_cases (VirtualQueue.head v)) [
        | inl broken ↦ ground arith
        | inr (inl no_packet) ↦ inr (inl (pass_on-Passed fuel q q' s r (ground arith)))
        | inr (inr (p, ep)) ↦ elim (Bool-cases (leb p.size v.deficit_counter)) [
          | inl fits ↦ inl (k, v, p, ek, ev, ep, ground arith, ground arith, ground arith)
          | inr large ↦ inr (inl (pass_on-Passed fuel q q' s r (ground arith)))
        ]
      ]
    ]
  ]

  pub dequeue-Kept :
      (fuel : ℕ) (q q' : FairQueue M) (s : List (Signal M)) (r : ℕ)
      → dequeue fuel q ≡ some (q', s, r)
      → Kept q q'
  unfolding dequeue Turn Served Passed
  dequeue-Kept zero q q' s r e = cc
  dequeue-Kept (suc fuel) q q' s r e = elim (dequeue-Turn fuel q q' s r q.virtual_queues refl e) [
    | inl (k, v, p, _, _, _, _, eq, _) ↦ ground arith
    | inr (inl (q₁, r₁, moved, rest)) ↦
        ground (arith, next_queue-Kept q q₁ moved, dequeue-Kept fuel q₁ q' s r₁ rest)
    | inr (inr (same, _)) ↦ ground arith
  ]

  -- A turn that schedules a departure comes, on any number of flows, to one whose first packet has
  -- the size of the departure.
  pub dequeue-Scheduled :
      (fuel : ℕ) (q q' : FairQueue M) (n : ℕ) (s : List (Signal M)) (r : ℕ)
      → dequeue fuel q ≡ some (q', departure n ∷ s, r)
      → (p : CcnxPacket M) × (p.size ≡ n) × (s ≡ []) × Scheduled q' p
  unfolding dequeue Turn Served Passed
  dequeue-Scheduled zero q q' n s r e = cc
  dequeue-Scheduled (suc fuel) q q' n s r e =
      elim (dequeue-Turn fuel q q' (departure n ∷ s) r q.virtual_queues refl e) [
        | inl (k, v, p, ek, ev, ep, _, eq, es) ↦ (
          p,
          ground arith,
          ground arith,
          subst (λ x. Scheduled x p) (sym eq) (dec_dc-Scheduled q k v p ek ev ep),
        )
        | inr (inl (q₁, r₁, moved, rest)) ↦ dequeue-Scheduled fuel q₁ q' n s r₁ rest
        | inr (inr (_, none_raised)) ↦ ground arith
      ]

  pub find-insert_at :
      (slot : ℕ) (f : Flow M) (fs : List (Flow M))
      → find f.key fs ≡ none
      → find f.key (insert_at slot f fs) ≡ some (f.queue)
  unfolding find insert_at
  find-insert_at zero f fs e = ground (arith, text_eq_refl f.key)
  find-insert_at (suc k) f [] e = ground (arith, text_eq_refl f.key)
  find-insert_at (suc k) f (g ∷ gs) e = ground (arith, find-insert_at k f gs)

  Filled : FairQueue M → CcnxPacket M → FairQueue M → Type 0
  Filled q p q' = (q'.length ≡ q.length + p.size) × (q'.size ≡ q.size)

  fill-Filled :
      (fuel : ℕ) (name : Text) (v : VirtualQueue M) (q q' : FairQueue M) (p : CcnxPacket M)
      (s : List (Signal M))
      → find name q.virtual_queues ≡ some v
      → q.length + p.size < u32_mod
      → fill fuel name q p ≡ some (q', s)
      → Filled q p q'
  unfolding fill Filled
  fill-Filled fuel name v q q' p s f w e =
      let filled = update name (VirtualQueue.enqueue v p) q.virtual_queues in
      let long = add32 q.length p.size in
      let q₀ : FairQueue M = record q {
        length = long;
        virtual_queues = filled;
        actual_queue = begin filled;
      } in
      elim (Bool-cases (long == p.size)) [
        | inr busy ↦ ground arith
        | inl idle ↦ elim (Option-cases (grant q₀)) [
          | inl stuck ↦ ground arith
          | inr (q₁, e₁) ↦ elim (Option-cases (dequeue fuel q₁)) [
            | inl stuck ↦ ground arith
            | inr ((q₂, s₂, r₂), e₂) ↦
                ground (arith, grant-Kept q₀ q₁ e₁, dequeue-Kept fuel q₁ q₂ s₂ r₂ e₂)
          ]
        ]
      ]

  store-Filled :
      (fuel slot : ℕ) (q q' : FairQueue M) (p : CcnxPacket M) (s : List (Signal M))
      → q.length + p.size < u32_mod
      → store fuel slot q p ≡ some (q', s)
      → Filled q p q'
  unfolding store insert_queue Filled
  store-Filled fuel slot q q' p s w e =
      let name = flow_name p.content_name p.port in
      elim (Option-cases (find name q.virtual_queues)) [
        | inl new ↦
            fill-Filled fuel name new_virtual_queue (insert_queue slot name q) q' p s
              (find-insert_at slot (record { key = name; queue = new_virtual_queue })
                q.virtual_queues new)
              w (ground arith)
        | inr (v, old) ↦ fill-Filled fuel name v q q' p s old w (ground arith)
      ]

  drop_cases :
      (q : FairQueue M) (l : List (Flow M))
      → q.virtual_queues ≡ l
      → (drop q ≡ none) ⊎ (drop q ≡ some (q, 0))
  unfolding drop
  drop_cases q [] e = inr (ground arith)
  drop_cases q (f ∷ fs) e = inl (ground arith)

  drop_loop_overflow : (fuel : ℕ) (q : FairQueue M) → q.size < q.length → drop_loop fuel q ≡ none
  unfolding drop_loop
  drop_loop_overflow zero q h = refl
  drop_loop_overflow (suc fuel) q h =
      ground (arith, drop_cases q q.virtual_queues refl, drop_loop_overflow fuel q h)

  -- A packet that takes the length over the size of the queue is never enqueued: whatever the fuel,
  -- `enqueue` comes to no end without a fault.
  pub enqueue_overflow :
      (fuel slot : ℕ) (q : FairQueue M) (p : CcnxPacket M)
      → q.size < q.length + p.size
      → q.length + p.size < u32_mod
      → enqueue fuel slot q p ≡ none
  unfolding enqueue Filled
  enqueue_overflow fuel slot q p h w = elim (Option-cases (store fuel slot q p)) [
    | inl faulted ↦ ground arith
    | inr ((q', s), e) ↦
        let filled : Filled q p q' = store-Filled fuel slot q q' p s w e in
        ground (arith, drop_loop_overflow fuel q' (ground arith))
  ]
