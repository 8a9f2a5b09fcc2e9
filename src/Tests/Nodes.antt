-- ===== src/Tests/Nodes.antt =====
-- A node of CBCBNode.cc with the table of the tests of PITable.cc and one route.
use ccnpl_sim.Prelude.{
  ℕ, ◌<◌, ◌≡◌, ◌⊎◌, refl, true, false, List, [], ◌∷◌, none, some, Text, codes, arith,
}
use ccnpl_sim.Prelude.Texts.{text_eq, digits, decimal}
use ccnpl_sim.Packets.{Interest, forward_interest, forward_data}
use ccnpl_sim.Pit.Record.{new_entry}
use ccnpl_sim.Pit.Slots.{insert_at, remove}
use ccnpl_sim.Pit.Table.{insert_entry, upper_bound, chunk_name, equal_range}
use ccnpl_sim.Pit.Clean.{IsTable}
use ccnpl_sim.Socket.Window.{Window, icp, new_window}
use ccnpl_sim.Socket.Manager.{Manager, new_manager, received_chunk}
use ccnpl_sim.Node.Balance.{PrefixTable, fwd_interest, choose, pending, rnd}
use ccnpl_sim.Node.State.{
  Node, Env, interest, data_packet, Effect, queued, no_cache, lru, socket_address, find_socket,
}
use ccnpl_sim.Cache.Lru.{CacheLru}
use ccnpl_sim.Cache.Store.{new_store}
use ccnpl_sim.Cache.Nodes.{lookup}
use ccnpl_sim.Cache.Insert.{new_store-IsLinked}
use ccnpl_sim.Cache.Again.{Holds, IsAddable}
use ccnpl_sim.Node.Forward.{process_interest}
use ccnpl_sim.Node.Answer.{Recorded, InOrder, process_interest-reaction}
use ccnpl_sim.Node.Arrival.{data_arrived, process_data}
use ccnpl_sim.Node.Transit.{process_data-remote}
use ccnpl_sim.Socket.Chunks.{new_socket}
use ccnpl_sim.Socket.Within.{Below, icp-IsWithin}
use ccnpl_sim.Node.Managed.{IsReadyDownload}
use ccnpl_sim.Node.Reception.{IsClosed, GoesOn, process_data-AllReceived}
use ccnpl_sim.Node.Download.{open_socket}
use ccnpl_sim.Node.Ports.{is_used, open_socket-port}
use ccnpl_sim.Tests.Tables.{film, answer, empty, one, two, two-IsTable}
use ccnpl_sim.Tests.Downloads.{film_info, options, download, download-IsSound}

abbrev routes : PrefixTable
routes name =
    some (record { ifid = 1; pending_count = 0 } ∷ record { ifid = 3; pending_count = 2 } ∷ [])

abbrev node : Node ℕ Window
node = record {
  id = 8;
  options = record { to_limit = 5; cbr_control = false };
  served = λ name. none;
  store = no_cache;
  pit = two;
  balance = routes;
  sockets =
      (
        socket_address (codes "film") 0,
        new_manager icp (new_window options) 8 film_info 0 (3 ∷ []) 2,
      )
      ∷ [];
}

abbrev env : Env ℕ
env = record {
  now = 4;
  slot = λ address. 0;
  rands = λ nth. [];
  pick = λ left. 0;
  choice = rnd 7;
  matches = λ msg. 1 ∷ 3 ∷ [];
  match_len = λ msg. 1;
  values = λ msg. codes "film" ∷ [];
}

abbrev second_chunk : Interest ℕ
second_chunk = record (film 4 0) { packet = record ((film 4 0).packet) { chunk_id = 2 } }

process_interest-reaction_example :
    (n : Node ℕ Window) × (value : ℕ) × (process_interest 5 env second_chunk node
      ≡ some (n, queued 3 (interest (forward_interest 8 second_chunk)) ∷ [], value))
    × Recorded node 5 env second_chunk n.pit
    × InOrder n.store
    × IsTable n.pit
    × (n.sockets ≡ node.sockets)
unfolding insert_entry insert_at upper_bound chunk_name equal_range text_eq decimal digits
    fwd_interest choose
process_interest-reaction_example =
    process_interest-reaction node 5 env second_chunk (pending node.balance (codes "/film") 3 true)
      3 tt two-IsTable refl (omega arith) (omega arith) refl refl

-- The node with an empty cache of 3 units.
abbrev cached : Node ℕ Window
cached = record node { store = lru (new_store 7 3) }

answer-IsAddable : IsAddable (new_store 7 3) (answer 7)
unfolding new_store lookup
answer-IsAddable = record {
  linked = new_store-IsLinked 7 3 (omega arith);
  room = omega arith;
  known = record { in_bitmap = λ r e. ground arith; same_room = λ a n e x y. ground arith };
  numbered = record { chunk_in = omega arith; content_word = omega arith };
  small = record { alone = omega arith; sum = omega arith; few = omega arith };
}

process_data-remote_example :
    (n : Node ℕ Window) × (c : CacheLru ℕ) × (process_data icp
        (new_window options)
        env
        5
        (data_arrived (answer 7))
        cached
      ≡ some (n, queued 2 (data_packet (forward_data 8 (answer 7) 0 (codes "8"))) ∷ [], 1))
    × (n.pit.by_name ≡ new_entry empty 0 10 (film 0 9) ∷ [])
    × IsTable n.pit
    × (n.store ≡ lru c)
    × Holds c (answer 7)
    × (c.cache_limit ≡ 3)
    × (n.sockets ≡ node.sockets)
unfolding insert_entry insert_at upper_bound chunk_name equal_range text_eq decimal digits remove
    new_store
process_data-remote_example =
    process_data-remote icp (new_window options) env 5 (data_arrived (answer 7)) cached
      (new_store 7 3) (new_entry one 2 13 (film 3 0)) [] two-IsTable refl refl answer-IsAddable
      (omega arith) refl refl

open_socket-port_example :
    (n : Node ℕ Window) × (port : ℕ) × (opened : List (Effect ℕ)) × (open_socket icp
        (new_window options)
        env
        film_info
        (3 ∷ [])
        node
      ≡ some (n, port, opened))
    × (find_socket (socket_address (codes "film") port) node.sockets ≡ none)
    × ((q : ℕ) → q < port → is_used (socket_address (codes "film") q) node.sockets ≡ true)
    × (find_socket (socket_address (codes "film") port) n.sockets
        ≡ some (new_manager icp (new_window options) 8 film_info port (3 ∷ []) 4))
    × ((a : Text)
        → text_eq (socket_address (codes "film") port) a ≡ false
        → find_socket a n.sockets ≡ find_socket a node.sockets)
open_socket-port_example = open_socket-port icp (new_window options) env film_info (3 ∷ []) node

-- The node with a download at port 9.
abbrev loading : Node ℕ Window
loading = record node { sockets = (socket_address (codes "film") 9, download 9) ∷ [] }

abbrev Low : Window → Type 0
Low w = Below 4 w.reissuing_chunks

download-IsReadyDownload : IsReadyDownload icp Low 4 (download 9)
unfolding new_socket new_window
download-IsReadyDownload = record { sound = download-IsSound 9; entries = refl; kept = (tt, tt) }

process_data-AllReceived_example :
    (m : Manager ℕ Window) × (received_chunk icp (download 9) 1 2000 5 [] 4 ≡ some m)
    × (IsClosed icp (new_window options) env 5 (answer 9) loading m
        ⊎ GoesOn icp (new_window options) Low 4 env 5 (answer 9) loading m)
unfolding insert_entry insert_at upper_bound chunk_name equal_range text_eq decimal digits remove
    find_socket new_socket
process_data-AllReceived_example =
    process_data-AllReceived icp (new_window options) Low 4 env (answer 9) 5 1 (3 ∷ []) loading
      (download 9) (new_entry empty 0 10 (film 0 9)) (new_entry one 2 13 (film 3 0) ∷ [])
      (icp-IsWithin 4) two-IsTable refl refl refl refl download-IsReadyDownload (omega arith) refl
      (omega arith) (omega arith) refl (omega arith) refl
