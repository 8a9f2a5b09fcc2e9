-- ===== src/Tests/Downloads.antt =====
-- The downloads of SocketManager.cc and the windows of ICP.cc on a content of three chunks.
use ccnpl_sim.Prelude.{
  ℕ, zero, suc, ◌<◌, ◌+◌, ◌≤◌, ◌≡◌, refl, true, false, [], ◌∷◌, some, codes, List, arith,
}
use ccnpl_sim.Packets.{Info}
use ccnpl_sim.Socket.Window.{Options, Window, icp, new_window}
use ccnpl_sim.Socket.Pacing.{
  IsPaced, Event, arrival, expiry, request, reissue, handle_all, handle_all-IsPaced,
}
use ccnpl_sim.Socket.Chunks.{new_socket}
use ccnpl_sim.Socket.Manager.{Manager, completed, received_chunk, serves}
use ccnpl_sim.Socket.Progress.{IsSound}
use ccnpl_sim.Socket.Receipt.{received_chunk-IsSound}
use ccnpl_sim.Socket.Start.{new_socket-IsSound, icp-IsFixed}
use ccnpl_sim.Socket.Completion.{Arriving, arrives, arrive_all, arrive_all-completed}

abbrev pub film_info : Info ℕ
film_info = record {
  base = record {
    packet = record {
      sender = 4;
      chunk_id = 0;
      content_name = codes "film";
      size = 0;
      msg = 0;
      port = 0;
      popularity_class = 0;
      content_size = 3;
      source = [];
    };
    interest_issue_time = 0;
  };
  receiver_win = 2;
  data_chunk_size = 2000;
  fec_perc = 0;
}

abbrev pub options : Options
options = record { aimd = true; to_v = true; rbfcp_win = 2; to_sender_time = 100 }

abbrev pub download : ℕ → Manager ℕ Window
download port = record {
  socket = new_socket 8 film_info port 5;
  window_controllers = new_window options 3 ∷ [];
  aborted = false;
}

pub download-IsSound : (port : ℕ) → IsSound (download port).socket
download-IsSound port = new_socket-IsSound 8 film_info port 5 (ground arith) (ground arith)

received_chunk-IsSound_example :
    (m : Manager ℕ Window) × (received_chunk icp (download 0) 2 2000 3 (codes "4") 9 ≡ some m)
    × IsSound m.socket
    × (m.socket.received_count ≡ 1)
unfolding new_socket icp new_window serves
received_chunk-IsSound_example =
    received_chunk-IsSound icp (download 0) 2 2000 3 (codes "4") 9 (download-IsSound 0)
      (omega arith) refl

abbrev events : List (Event × ℕ)
events =
    (request 1 5, 5)
    ∷ (request 2 5, 5)
    ∷ (arrival 1 false, 30)
    ∷ (expiry 2, 105)
    ∷ (reissue, 106)
    ∷ (request 2 5, 106)
    ∷ (arrival 2 true, 130)
    ∷ []

first-IsPaced : IsPaced (new_window options 3)
unfolding new_window
first-IsPaced = record { positive = omega arith; counting = omega arith; step = refl; once = tt }

handle_all-IsPaced_example :
    IsPaced (handle_all (new_window options 3) events)
    × ((handle_all (new_window options 3) events).interest_win_size ≤ 2 + 7)
unfolding new_window
handle_all-IsPaced_example =
    handle_all-IsPaced (new_window options 3) events first-IsPaced (omega arith)

abbrev arriving : ℕ → Arriving
arriving chunk = record { chunk = chunk; ifid = 3; source = codes "4"; now = 9 }

-- The second chunk twice, and the first last.
abbrev arrivals : List Arriving
arrivals = arriving 2 ∷ arriving 3 ∷ arriving 2 ∷ arriving 1 ∷ []

arrivals_all : (i : ℕ) → i < 3 → arrives (suc i) arrivals ≡ true
arrivals_all zero h = refl
arrivals_all (suc zero) h = refl
arrivals_all (suc (suc zero)) h = refl
arrivals_all (suc (suc (suc i))) h = absurd (omega arith)

arrive_all-completed_example :
    (m : Manager ℕ Window) × (arrive_all icp arrivals (download 0) ≡ some m)
    × (completed icp m ≡ true)
unfolding new_socket new_window icp serves
arrive_all-completed_example =
    arrive_all-completed icp (download 0) arrivals icp-IsFixed (download-IsSound 0) (omega arith)
      (omega arith, refl, (omega arith, refl, (omega arith, refl, (omega arith, refl, tt))))
      arrivals_all
