-- ===== src/Queue/Fifo.antt =====
-- `FIFO` of OutputQueue.cc, and the handler of its departures, `CBCBNode::dequeue_packet`.
--
-- The queue's effects on the simulator are returned as a list of signals. The lag of a departure is
-- the packet's size over the constant rate of the link, so the signal carries the size. The average
-- length, a floating-point statistic that no operation of the queue reads, is left out.
use ccnpl_sim.Prelude.{
  ℕ, ◌==◌, ltb, if◌then◌else◌, List, [], ◌∷◌, ◌++◌, Option, none, some, add32, sub32,
}
use ccnpl_sim.Packets.{CcnxPacket}

pub data Signal (M : Type 0) : Type 0 where
  -- `DeQueuePacket` to the queue's own node, after the time that these bits take on the link.
  departure : ℕ → Signal M
  -- The packet to the node at the other end of the link.
  delivery : ℕ → CcnxPacket M → Signal M

pub record Fifo (M : Type 0) : Type 0 where
  pub remote_nid : ℕ
  -- The largest backlog, in bits.
  pub size : ℕ
  pub length : ℕ
  pub packet_list : List (CcnxPacket M)

-- A call returns its value beside the new queue and the signals that it raised.
abbrev pub Outcome : Type 0 → Type 0
Outcome M = Fifo M × List (Signal M) × ℕ

module _ {M : Type 0} where
  -- A queue with no packet.
  unfoldable pub new_fifo : ℕ → ℕ → Fifo M
  new_fifo remote size = record { remote_nid = remote; size = size; length = 0; packet_list = [] }

  -- `FIFO::dequeue` schedules the departure of the first packet.
  unfoldable pub dequeue : Fifo M → Outcome M
  dequeue q = elim q.packet_list [ [] ↦ (q, [], 0) | pkt ∷ _ ↦ (q, departure pkt.size ∷ [], 1) ]

  -- `FIFO::drop` frees the packet.
  unfoldable pub drop : Fifo M → CcnxPacket M → Outcome M
  drop q pkt = (q, [], 0)

  -- `FIFO::enqueue`, with the sums of `unsigned int`.
  unfoldable pub enqueue : Fifo M → CcnxPacket M → Outcome M
  unfolding drop dequeue
  enqueue q pkt =
      if ltb q.size (add32 q.length pkt.size)
      then drop q pkt
      else let q' = record q {
        length = add32 q.length pkt.size;
        packet_list = q.packet_list ++ pkt ∷ [];
      } in
        if q'.length == pkt.size then dequeue q' else (q', [], 1)

  -- `FIFO::transmit`; on an empty list it reads past the end, which is a fault (`none`).
  unfoldable pub transmit : Fifo M → Option (Fifo M × List (Signal M))
  transmit q = elim q.packet_list [
    | [] ↦ none
    | pkt ∷ rest ↦ some (
      record q { length = sub32 q.length pkt.size; packet_list = rest },
      delivery q.remote_nid pkt ∷ [],
    )
  ]

  -- `CBCBNode::dequeue_packet`: what a `DeQueuePacket` event does.
  unfoldable pub dequeue_packet : Fifo M → Option (Outcome M)
  unfolding transmit dequeue
  dequeue_packet q = elim (transmit q) [
    | none ↦ none
    | some (q', sent) ↦ let (q'', raised, result) = dequeue q' in some (q'', sent ++ raised, result)
  ]
