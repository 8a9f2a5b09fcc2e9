-- ===== src/Queue/FairQueue.antt =====
-- `FQ` of OutputQueue.cc and OutputQueue.h: the fair queue, a deficit round robin over its flows.
--
-- The hash table of flows is a list in the order of the table, whose place for a new flow is an
-- argument; its room is not exceeded, so that it is not ordered again. An iterator is the key of its
-- flow, `none` for the end or a value never set. A fault (`none`) is an access through such an
-- iterator or to a packet that is not there.
use ccnpl_sim.Prelude.{
  ℕ, zero, suc, ◌==◌, leb, ltb, if◌then◌else◌, Bool, true, List, [], ◌∷◌, ◌++◌, Option, none, some,
  Text, text_eq, codes, decimal, add32, sub32,
}
use ccnpl_sim.Packets.{CcnxPacket, Interest}
use ccnpl_sim.Queue.Fifo.{Signal, departure, delivery}
use ccnpl_sim.Queue.VirtualQueue.{VirtualQueue, new_virtual_queue, inc_dc, dec_dc, inc_count}
use ccnpl_sim.Queue.VirtualQueue

pub record Flow (M : Type 0) : Type 0 where
  pub key : Text
  pub queue : VirtualQueue M

pub record FairQueue (M : Type 0) : Type 0 where
  pub remote_nid : ℕ
  pub size : ℕ
  pub length : ℕ
  pub quantum : ℕ
  pub virtual_queues : List (Flow M)
  pub actual_queue : Option Text

-- The name of a flow: the content's name and the port in decimal.
abbrev pub flow_name : Text → ℕ → Text
flow_name name port = name ++ (codes "/port:" ++ decimal port)

module _ {M : Type 0} where
  unfoldable pub new_fair_queue : ℕ → ℕ → FairQueue M
  new_fair_queue remote size = record {
    remote_nid = remote;
    size = size;
    length = 0;
    quantum = 80_000;
    virtual_queues = [];
    actual_queue = none;
  }

  unfoldable pub find : Text → List (Flow M) → Option (VirtualQueue M)
  find k [] = none
  find k (f ∷ fs) = if text_eq f.key k then some (f.queue) else find k fs

  -- A write through an iterator.
  unfoldable pub update : Text → VirtualQueue M → List (Flow M) → List (Flow M)
  update k q [] = []
  update k q (f ∷ fs) = if text_eq f.key k then record f { queue = q } ∷ fs else f ∷ update k q fs

  unfoldable pub remove : Text → List (Flow M) → List (Flow M)
  remove k [] = []
  remove k (f ∷ fs) = if text_eq f.key k then fs else f ∷ remove k fs

  -- `begin`, and the iterator behind another.
  unfoldable pub begin : List (Flow M) → Option Text
  begin [] = none
  begin (f ∷ fs) = some (f.key)

  unfoldable pub behind : Text → List (Flow M) → Option Text
  unfolding begin
  behind k [] = none
  behind k (f ∷ fs) = if text_eq f.key k then begin fs else behind k fs

  unfoldable pub insert_at : ℕ → Flow M → List (Flow M) → List (Flow M)
  insert_at zero f l = f ∷ l
  insert_at (suc n) f [] = f ∷ []
  insert_at (suc n) f (g ∷ gs) = g ∷ insert_at n f gs

  -- `FQ::insert_queue`, of a name that no flow has.
  unfoldable pub insert_queue : ℕ → Text → FairQueue M → FairQueue M
  insert_queue slot name q = record q {
    virtual_queues =
        insert_at slot (record { key = name; queue = new_virtual_queue }) q.virtual_queues;
  }

  unfoldable pub inc_counts : ℕ → List (Flow M) → List (Flow M)
  inc_counts quantum [] = []
  inc_counts quantum (f ∷ fs) =
      record f { queue = inc_count f.queue quantum } ∷ inc_counts quantum fs

  -- The end of `next_queue`: the flow moved to gets its quantum, unless there is none.
  unfoldable pub grant : FairQueue M → Option (FairQueue M)
  grant q = elim q.virtual_queues [
    | [] ↦ some q
    | _ ∷ _ ↦ (elim q.actual_queue [
      | none ↦ none
      | some k ↦ (elim (find k q.virtual_queues) [
        | none ↦ none
        | some v ↦
            some (record q { virtual_queues = update k (inc_dc v q.quantum) q.virtual_queues })
      ])
    ])
  ]

  -- `FQ::next_queue`.
  unfoldable pub next_queue : FairQueue M → Option (FairQueue M)
  next_queue q = elim q.actual_queue [
    | none ↦ none
    | some k ↦ (elim (find k q.virtual_queues) [
      | none ↦ none
      | some v ↦
          let left = if v.length == 0 then remove k q.virtual_queues else q.virtual_queues in
          (elim (behind k q.virtual_queues) [
            | some k' ↦ grant (record q { virtual_queues = left; actual_queue = some k' })
            | none ↦
                grant (record q {
                  virtual_queues = inc_counts q.quantum left;
                  actual_queue = begin left;
                })
          ])
    ])
  ]

  -- On to the next flow and a turn of it, whose value is not passed on.
  unfoldable pub pass_on :
      (FairQueue M → Option (FairQueue M × List (Signal M) × ℕ))
      → FairQueue M
      → Option (FairQueue M × List (Signal M) × ℕ)
  pass_on turn q = elim (next_queue q) [
    | none ↦ none
    | some q' ↦ (elim (turn q') [ none ↦ none | some (q'', raised, _) ↦ some (q'', raised, 0) ])
  ]

  -- `FQ::dequeue`: the flow at hand if its packet fits its deficit counter, or else on to the next.
  unfoldable pub dequeue : ℕ → FairQueue M → Option (FairQueue M × List (Signal M) × ℕ)
  unfolding pass_on
  dequeue zero q = none
  dequeue (suc fuel) q =
      let on = pass_on (dequeue fuel) q in
      (elim q.virtual_queues [
        | [] ↦ some (q, [], 0)
        | _ ∷ _ ↦ (elim q.actual_queue [
          | none ↦ none
          | some k ↦ (elim (find k q.virtual_queues) [
            | none ↦ none
            | some v ↦ (elim (VirtualQueue.head v) [
              | none ↦ none
              | some none ↦ on
              | some (some pkt) ↦
                  if leb pkt.size v.deficit_counter
                  then some (
                    record q { virtual_queues = update k (dec_dc v pkt.size) q.virtual_queues },
                    departure pkt.size ∷ [],
                    1,
                  )
                  else on
            ])
          ])
        ])
      ])

  -- `FQ::transmit`.
  unfoldable pub transmit : FairQueue M → Option (FairQueue M × List (Signal M))
  transmit q = elim q.actual_queue [
    | none ↦ none
    | some k ↦ (elim (find k q.virtual_queues) [
      | none ↦ none
      | some v ↦ (elim (VirtualQueue.head v) [
        | none ↦ none
        | some none ↦ none
        | some (some pkt) ↦ (elim (VirtualQueue.dequeue v) [
          | none ↦ none
          | some v' ↦ some (
            record q {
              length = sub32 q.length pkt.size;
              virtual_queues = update k v' q.virtual_queues;
            },
            delivery q.remote_nid pkt ∷ [],
          )
        ])
      ])
    ])
  ]

  -- `FQ::drop`. With a flow in the table, its loop starts with the length of the flow at `max_flow`,
  -- an iterator that nothing has set.
  unfoldable pub drop : FairQueue M → Option (FairQueue M × ℕ)
  drop q = elim q.virtual_queues [ [] ↦ some (q, 0) | _ ∷ _ ↦ none ]

  -- The loop that ends `FQ::enqueue`.
  unfoldable pub drop_loop : ℕ → FairQueue M → Option (FairQueue M)
  drop_loop zero q = none
  drop_loop (suc fuel) q =
      if ltb q.size q.length
      then (elim (drop q) [ none ↦ none | some (q', _) ↦ drop_loop fuel q' ])
      else some q

  -- `FQ::enqueue` once the flow is found: its packet, and a turn if the queue was empty.
  unfoldable pub fill :
      ℕ → Text → FairQueue M → CcnxPacket M → Option (FairQueue M × List (Signal M))
  fill fuel name q pkt = elim (find name q.virtual_queues) [
    | none ↦ some (q, [])
    | some v ↦
        let filled = update name (VirtualQueue.enqueue v pkt) q.virtual_queues in
        let long = add32 q.length pkt.size in
        if long == pkt.size
        then (elim (grant
            (record q { length = long; virtual_queues = filled; actual_queue = begin filled })) [
              | none ↦ none
              | some q' ↦ (elim (dequeue fuel q') [
                | none ↦ none
                | some (q'', raised, _) ↦ some (q'', raised)
              ])
            ])
        else some (record q { length = long; virtual_queues = filled }, [])
  ]

  -- `FQ::enqueue` up to the loop that drops.
  unfoldable pub store : ℕ → ℕ → FairQueue M → CcnxPacket M → Option (FairQueue M × List (Signal M))
  store fuel slot q pkt =
      let name = flow_name pkt.content_name pkt.port in
      (elim (find name q.virtual_queues) [
        | none ↦ fill fuel name (insert_queue slot name q) pkt
        | some _ ↦ fill fuel name q pkt
      ])

  -- `FQ::enqueue`, with its value.
  unfoldable pub enqueue :
      ℕ → ℕ → FairQueue M → CcnxPacket M → Option (FairQueue M × List (Signal M) × ℕ)
  enqueue fuel slot q pkt = elim (store fuel slot q pkt) [
    | none ↦ none
    | some (q', raised) ↦ (elim (drop_loop fuel q') [
      | none ↦ none
      | some q'' ↦ some (q'', raised, 0)
    ])
  ]

  -- `FQ::dec_count`.
  unfoldable pub dec_count : FairQueue M → Interest M → FairQueue M × Bool
  dec_count q i =
      let name = flow_name i.content_name i.port in
      (elim (find name q.virtual_queues) [
        | none ↦ (q, true)
        | some v ↦
            let (v', granted) = VirtualQueue.dec_count v i.data_size in
            (record q { virtual_queues = update name v' q.virtual_queues }, granted)
      ])
