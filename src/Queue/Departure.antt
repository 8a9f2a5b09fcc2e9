-- ===== src/Queue/Departure.antt =====
-- Packets that the fair queue (`FQ` of OutputQueue.cc) is given while a departure is scheduled.
use ccnpl_sim.Prelude.{
  ℕ, zero, suc, ◌+◌, ◌≤◌, ◌<◌, ◌≡◌, refl, inl, inr, Option-cases, Bool-cases, List, [], ◌∷◌, Option,
  none, some, Text, text_eq, text_eq_iff, u32_mod, add32, sub32, arith, false,
}
use ccnpl_sim.Packets.{CcnxPacket}
use ccnpl_sim.Queue.Fifo.{Signal, departure, delivery}
use ccnpl_sim.Queue.VirtualQueue.{VirtualQueue, new_virtual_queue}
use ccnpl_sim.Queue.VirtualQueue
use ccnpl_sim.Queue.FairQueue.{
  FairQueue, Flow, find, update, insert_at, flow_name, fill, dequeue, transmit, drop_loop, store,
  enqueue, insert_queue,
}
use ccnpl_sim.Queue.Turns.{Scheduled, transmit-Scheduled, dequeue-Scheduled, find-insert_at}

module _ {M : Type 0} where
  -- Packets enqueued one after the other, each with the place that a new flow of its would get.
  abbrev pub enqueue_all : ℕ → List (ℕ × CcnxPacket M) → FairQueue M → Option (FairQueue M)
  enqueue_all fuel [] q = some q
  enqueue_all fuel ((slot, pkt) ∷ ps) q = elim (enqueue fuel slot q pkt) [
    | none ↦ none
    | some (q', _, _) ↦ enqueue_all fuel ps q'
  ]

  abbrev pub total : List (ℕ × CcnxPacket M) → ℕ
  total [] = 0
  total ((_, pkt) ∷ ps) = pkt.size + total ps

  find-other :
      (k name : Text) (v w : VirtualQueue M) (fs : List (Flow M))
      → text_eq name k ≡ false
      → find k fs ≡ some v
      → find k (update name w fs) ≡ some v
  unfolding find update
  find-other k name v w [] ne e = cc
  find-other k name v w (f ∷ fs) ne e =
      ground (arith, find-other k name v w fs, text_eq_iff f.key name)

  find-same :
      (k : Text) (v w : VirtualQueue M) (fs : List (Flow M))
      → find k fs ≡ some v
      → find k (update k w fs) ≡ some w
  unfolding find update
  find-same k v w [] e = cc
  find-same k v w (f ∷ fs) e = ground (arith, find-same k v w fs)

  find-insert_other :
      (slot : ℕ) (k : Text) (f : Flow M) (v : VirtualQueue M) (fs : List (Flow M))
      → find f.key fs ≡ none
      → find k fs ≡ some v
      → find k (insert_at slot f fs) ≡ some v
  unfolding find insert_at
  find-insert_other zero k f v fs none_there e = ground (arith, text_eq_iff f.key k)
  find-insert_other (suc slot) k f v [] none_there e = cc
  find-insert_other (suc slot) k f v (g ∷ gs) none_there e =
      ground (arith, find-insert_other slot k f v gs)

  head-enqueue :
      (v : VirtualQueue M) (p pkt : CcnxPacket M)
      → VirtualQueue.head v ≡ some (some p)
      → v.length + pkt.size < u32_mod
      → VirtualQueue.head (VirtualQueue.enqueue v pkt) ≡ some (some p)
  unfolding VirtualQueue.head VirtualQueue.enqueue
  head-enqueue v p pkt h w = front v.packet_list refl
    where
      front :
          (l : List (CcnxPacket M))
          → v.packet_list ≡ l
          → VirtualQueue.head (VirtualQueue.enqueue v pkt) ≡ some (some p)
      front [] e = ground arith
      front (r ∷ rs) e = ground arith

  length-enqueue :
      (v : VirtualQueue M) (pkt : CcnxPacket M)
      → v.length + pkt.size < u32_mod
      → (VirtualQueue.enqueue v pkt).length ≡ v.length + pkt.size
  unfolding VirtualQueue.enqueue
  length-enqueue v pkt w = ground arith

  -- A departure is to come: a packet of some bits is scheduled, and its flow is not longer than the queue.
  record Waits (q : FairQueue M) (p : CcnxPacket M) : Type 0 where
    scheduled : Scheduled q p
    within : scheduled.flow.length ≤ q.length
    busy : 0 < q.length

  -- The queue with one more packet, and the departure still to come.
  record Grown (q q' : FairQueue M) (p pkt : CcnxPacket M) : Type 0 where
    waits : Waits q' p
    longer : q'.length ≡ q.length + pkt.size
    same_size : q'.size ≡ q.size
    same_end : q'.remote_nid ≡ q.remote_nid

  fill-Grown :
      (fuel : ℕ) (name : Text) (w : VirtualQueue M) (q : FairQueue M) (p pkt : CcnxPacket M)
      → Waits q p
      → find name q.virtual_queues ≡ some w
      → q.length + pkt.size < u32_mod
      → (q' : FairQueue M) × (fill fuel name q pkt ≡ some (q', [])) × Grown q q' p pkt
  unfolding fill
  fill-Grown fuel name w q p pkt h f fits =
      let s = h.scheduled in
      let filled = update name (VirtualQueue.enqueue w pkt) q.virtual_queues in
      let q' : FairQueue M = record q {
        length = add32 q.length pkt.size;
        virtual_queues = filled;
      } in
      let done : fill fuel name q pkt ≡ some (q', []) = ground (arith, f, h.busy) in
      let longer : q'.length ≡ q.length + pkt.size = ground arith in
      elim (Bool-cases (text_eq name s.key)) [
        | inr other ↦ (
          q',
          done,
          record {
            waits = record {
              scheduled = record {
                key = s.key;
                flow = s.flow;
                actual = s.actual;
                found =
                    find-other s.key name s.flow (VirtualQueue.enqueue w pkt) q.virtual_queues other
                      s.found;
                first = s.first;
              };
              within = omega (arith, longer, h.within);
              busy = omega (arith, longer, h.busy);
            };
            longer = longer;
            same_size = refl;
            same_end = refl;
          },
        )
        | inl own ↦
            let here : name ≡ s.key = (text_eq_iff name s.key).0 own in
            let same : w ≡ s.flow = ground (arith, f, s.found, here) in
            let small : w.length ≤ q.length = ground (arith, same, h.within) in
            (
              q',
              done,
              record {
                waits = record {
                  scheduled = record {
                    key = name;
                    flow = VirtualQueue.enqueue w pkt;
                    actual = ground (arith, here, s.actual);
                    found = find-same name w (VirtualQueue.enqueue w pkt) q.virtual_queues f;
                    first =
                        head-enqueue w p pkt (ground (arith, same, s.first)) (omega (arith, small));
                  };
                  within =
                      omega (arith, longer, small, length-enqueue w pkt (omega (arith, small)));
                  busy = omega (arith, longer, h.busy);
                };
                longer = longer;
                same_size = refl;
                same_end = refl;
              },
            )
      ]

  store-Grown :
      (fuel slot : ℕ) (q : FairQueue M) (p pkt : CcnxPacket M)
      → Waits q p
      → q.length + pkt.size < u32_mod
      → (q' : FairQueue M) × (store fuel slot q pkt ≡ some (q', [])) × Grown q q' p pkt
  unfolding store insert_queue
  store-Grown fuel slot q p pkt h fits =
      let s = h.scheduled in
      let name = flow_name pkt.content_name pkt.port in
      elim (Option-cases (find name q.virtual_queues)) [
        | inr (w, old) ↦
            let (q', e, g) = fill-Grown fuel name w q p pkt h old fits in
            (q', ground (arith, old, e), g)
        | inl new ↦
            let flow : Flow M = record { key = name; queue = new_virtual_queue } in
            let (q', e, g) =
              fill-Grown fuel name new_virtual_queue (insert_queue slot name q) p pkt
                (record {
                  scheduled = record {
                    key = s.key;
                    flow = s.flow;
                    actual = s.actual;
                    found = find-insert_other slot s.key flow s.flow q.virtual_queues new s.found;
                    first = s.first;
                  };
                  within = h.within;
                  busy = h.busy;
                })
                (find-insert_at slot flow q.virtual_queues new) fits in
            (
              q',
              ground (arith, new, e),
              record {
                waits = g.waits;
                longer = g.longer;
                same_size = g.same_size;
                same_end = g.same_end;
              },
            )
      ]

  enqueue-Grown :
      (fuel slot : ℕ) (q : FairQueue M) (p pkt : CcnxPacket M)
      → 0 < fuel
      → Waits q p
      → q.length + pkt.size ≤ q.size
      → q.size < u32_mod
      → (q' : FairQueue M) × (enqueue fuel slot q pkt ≡ some (q', [], 0)) × Grown q q' p pkt
  unfolding enqueue drop_loop
  enqueue-Grown fuel slot q p pkt some_fuel h fits word =
      let (q', e, g) = store-Grown fuel slot q p pkt h (omega (arith, fits, word)) in
      (q', ground (arith, e, kept fuel q' some_fuel (omega (arith, g.longer, g.same_size))), g)
    where
      kept :
          (fuel : ℕ) (q' : FairQueue M)
          → 0 < fuel
          → q'.length ≤ q'.size
          → drop_loop fuel q' ≡ some q'
      kept zero q' h k = ground arith
      kept (suc fuel) q' h k = ground arith

  enqueue_all-Waits :
      (fuel : ℕ) (ps : List (ℕ × CcnxPacket M)) (q : FairQueue M) (p : CcnxPacket M)
      → 0 < fuel
      → Waits q p
      → q.length + total ps ≤ q.size
      → q.size < u32_mod
      → (q' : FairQueue M) × (enqueue_all fuel ps q ≡ some q')
        × Waits q' p
        × (q'.remote_nid ≡ q.remote_nid)
        × (q'.length ≡ q.length + total ps)
  enqueue_all-Waits fuel [] q p some_fuel h fits word = (q, refl, h, refl, omega arith)
  enqueue_all-Waits fuel ((slot, pkt) ∷ ps) q p some_fuel h fits word =
      let (q₁, e₁, g) = enqueue-Grown fuel slot q p pkt some_fuel h (omega (arith, fits)) word in
      let (q₂, e₂, h₂, n₂, l₂) =
        enqueue_all-Waits fuel ps q₁ p some_fuel g.waits
          (omega (arith, g.longer, g.same_size, fits)) (omega (arith, g.same_size, word)) in
      (q₂, rw (e₁, enqueue_all) e₂, h₂, ground (arith, n₂, g.same_end), omega (arith, l₂, g.longer))

  -- A turn that schedules a departure comes, on any number of flows, to one whose first packet has
  -- the size of the departure. Let no flow be longer than the queue, which holds some bits, and let any
  -- packets be enqueued before the departure fires, to whichever flows, all of which fit the queue. They
  -- raise no fault, and `transmit` then hands the very packet that was scheduled to the other end of
  -- the link, without a fault.
  pub dequeue-transmit :
      (fuel : ℕ) (q q' : FairQueue M) (n : ℕ) (s : List (Signal M)) (r : ℕ)
      (ps : List (ℕ × CcnxPacket M))
      → dequeue fuel q ≡ some (q', departure n ∷ s, r)
      → ((k : Text) (v : VirtualQueue M) → find k q'.virtual_queues ≡ some v → v.length ≤ q'.length)
      → 0 < q'.length
      → q'.length + total ps ≤ q'.size
      → q'.size < u32_mod
      → (p : CcnxPacket M) × (q₁ : FairQueue M) × (q₂ : FairQueue M) × (p.size ≡ n)
        × (s ≡ [])
        × Scheduled q' p
        × (enqueue_all (suc fuel) ps q' ≡ some q₁)
        × (q₁.length ≡ q'.length + total ps)
        × (transmit q₁ ≡ some (q₂, delivery q'.remote_nid p ∷ []))
        × (q₂.length ≡ sub32 q₁.length n)
  dequeue-transmit fuel q q' n s r ps e bounded busy fits word =
      let (p, same, single, at) = dequeue-Scheduled fuel q q' n s r e in
      let start : Waits q' p = record {
        scheduled = at;
        within = bounded at.key at.flow at.found;
        busy = busy;
      } in
      let (q₁, e₁, h₁, n₁, l₁) =
        enqueue_all-Waits (suc fuel) ps q' p (omega arith) start fits word in
      let (q₂, e₂, l₂) = transmit-Scheduled q₁ p h₁.scheduled in
      (p, q₁, q₂, same, single, at, e₁, l₁, ground (arith, e₂, n₁), ground (arith, l₂, same))
