-- ===== src/Tests/Queues.antt =====
-- The queues of OutputQueue.cc with a few packets.
use ccnpl_sim.Prelude.{
  ◌⊎◌, ℕ, ◌≡◌, refl, ◌+◌, ◌≤◌, sub32, Text, List, [], ◌∷◌, none, some, codes, arith,
}
use ccnpl_sim.Packets.{CcnxPacket}
use ccnpl_sim.Queue.Fifo.{new_fifo}
use ccnpl_sim.Queue.Link.{Link, Action, arrive, serve, run, view, IsSound, total, run-pipe_run}
use ccnpl_sim.Queue.VirtualQueue.{VirtualQueue, new_virtual_queue, enqueue}
use ccnpl_sim.Queue.VirtualQueue
use ccnpl_sim.Prelude.Texts.{text_eq}
use ccnpl_sim.Queue.Fifo.{Signal, delivery}
use ccnpl_sim.Queue.VirtualQueue.{head, dec_dc}
use ccnpl_sim.Queue.FairQueue.{FairQueue, find, update, dequeue, transmit}
use ccnpl_sim.Queue.FairQueue
use ccnpl_sim.Queue.Turns.{Scheduled, enqueue_overflow}
use ccnpl_sim.Queue.Departure.{enqueue_all, dequeue-transmit}
use ccnpl_sim.Queue.Flow.{IsCounted, dequeue-head, drop_overcounts}

abbrev packet : ℕ → CcnxPacket ℕ
packet bits = record {
  sender = 4;
  chunk_id = 1;
  content_name = codes "film";
  size = bits;
  msg = 0;
  port = 9;
  popularity_class = 0;
  content_size = 3;
  source = [];
}

-- A queue at rest: no packet and no departure.
abbrev at_rest : Link ℕ
at_rest = record { queue = new_fifo 2 1000; pending = 0; sent = [] }

at_rest-IsSound : IsSound at_rest
unfolding new_fifo
at_rest-IsSound = record {
  counted = refl;
  bounded = omega arith;
  word = omega arith;
  positive = tt;
  paced = refl;
}

-- Two packets that fit, one that does not, and three services, of which the last finds nothing.
abbrev traffic : List (Action ℕ)
traffic =
    arrive (packet 600) ∷ arrive (packet 300) ∷ arrive (packet 200) ∷ serve ∷ serve ∷ serve ∷ []

run-pipe_run_example :
    (l' : Link ℕ) × (run at_rest traffic ≡ some l')
    × IsSound l'
    × (view l' ≡ record { capacity = 1000; backlog = []; passed = packet 600 ∷ packet 300 ∷ [] })
unfolding new_fifo
run-pipe_run_example = run-pipe_run at_rest traffic at_rest-IsSound (
  (omega arith, omega arith),
  ((omega arith, omega arith), ((omega arith, omega arith), (tt, (tt, (tt, tt))))),
)

-- A flow that holds two packets.
abbrev flow : VirtualQueue ℕ
flow = record {
  counter = 80_000;
  deficit_counter = 0;
  length = 900;
  packet_list = packet 600 ∷ packet 300 ∷ [];
  b = 80_000;
}

flow-IsCounted : IsCounted flow
flow-IsCounted = record {
  counted = refl;
  word = omega arith;
  positive = (omega arith, (omega arith, tt));
  tokens = omega arith;
  room = omega arith;
}

drop_overcounts_example :
    (q' : VirtualQueue ℕ) × (dropped : ℕ) × (VirtualQueue.drop flow ≡ some (q', dropped))
    × (q'.length ≡ total q'.packet_list + dropped)
    × (¬ (q'.length ≡ total q'.packet_list))
drop_overcounts_example = drop_overcounts flow (packet 600) (packet 300 ∷ []) refl flow-IsCounted

dequeue-head_example :
    ((flow.packet_list ≡ [])
      × (VirtualQueue.head flow ≡ some none)
      × (VirtualQueue.dequeue flow ≡ some flow))
    ⊎ ((p : CcnxPacket ℕ) × (q' : VirtualQueue ℕ) × (flow.packet_list ≡ p ∷ q'.packet_list)
        × (VirtualQueue.head flow ≡ some (some p))
        × (VirtualQueue.dequeue flow ≡ some q')
        × IsCounted q'
        × (q'.length + p.size ≡ 900))
dequeue-head_example = dequeue-head flow (packet 600 ∷ packet 300 ∷ []) refl flow-IsCounted

-- A fair queue with one flow, at hand, whose first packet fits its deficit counter; and after its turn.
abbrev fair : ℕ → FairQueue ℕ
fair deficit = record {
  remote_nid = 2;
  size = 1000;
  length = 900;
  quantum = 80_000;
  virtual_queues =
      record { key = codes "film/port:9"; queue = record flow { deficit_counter = deficit } } ∷ [];
  actual_queue = some (codes "film/port:9");
}

-- A packet of the flow at hand, and one of a flow that is not in the table.
abbrev two_more : List (ℕ × CcnxPacket ℕ)
two_more = (0, packet 40) ∷ (0, record (packet 50) { port = 8 }) ∷ []

fair_lengths :
    (k : Text) (v : VirtualQueue ℕ) → find k ((fair 100).virtual_queues) ≡ some v → v.length ≤ 900
unfolding find
fair_lengths k v e = ground arith

dequeue-transmit_example :
    (p : CcnxPacket ℕ) × (q₁ : FairQueue ℕ) × (q₂ : FairQueue ℕ) × (p.size ≡ 600)
    × (◌≡◌ {A = List (Signal ℕ)} [] [])
    × Scheduled (fair 100) p
    × (enqueue_all 2 two_more (fair 100) ≡ some q₁)
    × (q₁.length ≡ 990)
    × (transmit q₁ ≡ some (q₂, delivery 2 p ∷ []))
    × (q₂.length ≡ sub32 q₁.length 600)
unfolding dequeue find update text_eq head dec_dc
dequeue-transmit_example =
    dequeue-transmit 1 (fair 700) (fair 100) 600 [] 1 two_more refl fair_lengths (omega arith)
      (omega arith) (omega arith)

enqueue_overflow_example : FairQueue.enqueue 9 0 (fair 700) (packet 200) ≡ none
enqueue_overflow_example = enqueue_overflow 9 0 (fair 700) (packet 200) (omega arith) (omega arith)
