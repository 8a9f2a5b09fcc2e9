-- ===== src/Queue/VirtualQueue.antt =====
-- `VirtualQueue` of OutputQueue.cc and OutputQueue.h: one flow of the fair queue.
use ccnpl_sim.Prelude.{
  ℕ, ◌-◌, Bool, true, false, ◌==◌, leb, if◌then◌else◌, List, [], ◌∷◌, ◌++◌, Option, none, some, min,
  add32, sub32,
}
use ccnpl_sim.Packets.{CcnxPacket}

pub record VirtualQueue (M : Type 0) : Type 0 where
  pub counter : ℕ
  pub deficit_counter : ℕ
  pub length : ℕ
  pub packet_list : List (CcnxPacket M)
  -- The largest value of the counter.
  pub b : ℕ

module _ {M : Type 0} where
  unfoldable pub new_virtual_queue : VirtualQueue M
  new_virtual_queue = record {
    counter = 80_000;
    deficit_counter = 0;
    length = 0;
    packet_list = [];
    b = 80_000;
  }

  unfoldable pub enqueue : VirtualQueue M → CcnxPacket M → VirtualQueue M
  enqueue q pkt = record q {
    length = add32 q.length pkt.size;
    packet_list = q.packet_list ++ pkt ∷ [];
  }

  -- The first packet, `some none` for `NULL`; a front of an empty list is a fault.
  unfoldable pub head : VirtualQueue M → Option (Option (CcnxPacket M))
  head q =
      if q.length == 0
      then some none
      else (elim q.packet_list [ [] ↦ none | pkt ∷ _ ↦ some (some pkt) ])

  -- Takes the first packet off, unless the length is 0.
  unfoldable pub dequeue : VirtualQueue M → Option (VirtualQueue M)
  dequeue q = if q.length == 0 then some q else (elim q.packet_list [
    | [] ↦ none
    | pkt ∷ rest ↦ some (record q { length = sub32 q.length pkt.size; packet_list = rest })
  ])

  -- The last packet of a list and those before it.
  unfoldable pub split_last : List (CcnxPacket M) → Option (List (CcnxPacket M) × CcnxPacket M)
  split_last [] = none
  split_last (p ∷ ps) = elim (split_last ps) [
    | none ↦ some ([], p)
    | some (before, last) ↦ some (p ∷ before, last)
  ]

  -- Takes the last packet off and returns its size; the length is left as it was.
  unfoldable pub drop : VirtualQueue M → Option (VirtualQueue M × ℕ)
  drop q = if q.length == 0 then some (q, 0) else (elim (split_last q.packet_list) [
    | none ↦ none
    | some (before, pkt) ↦ some (record q { packet_list = before }, pkt.size)
  ])

  unfoldable pub inc_dc : VirtualQueue M → ℕ → VirtualQueue M
  inc_dc q inc = record q { deficit_counter = add32 q.deficit_counter inc }

  unfoldable pub dec_dc : VirtualQueue M → ℕ → VirtualQueue M
  dec_dc q dec = record q { deficit_counter = sub32 q.deficit_counter dec }

  unfoldable pub inc_count : VirtualQueue M → ℕ → VirtualQueue M
  inc_count q inc = record q { counter = min q.b (add32 q.counter inc) }

  unfoldable pub dec_count : VirtualQueue M → ℕ → VirtualQueue M × Bool
  dec_count q dec =
      if leb dec q.counter then (record q { counter = q.counter - dec }, true) else (q, false)
