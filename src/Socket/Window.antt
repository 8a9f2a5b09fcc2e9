-- ===== src/Socket/Window.antt =====
-- `ICP` over `FlowControllerAIMD` (tags/cbcbsim-1.0.2/src/ICP.cc, FlowControllerAIMD.cc and their
-- headers): the window of interests of a download on one interface; and `CBR` of CBR.cc.
--
-- The window is an association list by chunk id, the map of chunks to ask for again one in order.
use ccnpl_sim.Prelude.{
  ℕ, ◌-◌, ◌/◌, ◌==◌, leb, ltb, not, if◌then◌else◌, Bool, ◌&&◌, List, [], ◌∷◌, Option, none, some,
  length, add32,
}
use ccnpl_sim.Socket.Rtt.{RttStats, new_rtt_stats, samples_update}
use ccnpl_sim.Socket.Controller.{Controller}

-- The options of the protocol that a window reads.
pub record Options : Type 0 where
  -- `RBFCP_AIMD`: the window's size varies.
  pub aimd : Bool
  -- `TO_V`: the round-trip times are sampled.
  pub to_v : Bool
  pub rbfcp_win : ℕ
  pub to_sender_time : ℕ

pub record Window : Type 0 where
  pub ifid : ℕ
  pub options : Options
  pub interest_win_size : ℕ
  pub interest_win : List (ℕ × ℕ)
  pub received : ℕ
  pub cumul_win : ℕ
  pub timer : ℕ
  pub reissuing_chunks : List (ℕ × ℕ)
  pub win_inc : ℕ
  pub win_received : ℕ
  pub decrease_time : ℕ
  pub rtt_stats : RttStats

-- `ICP::init`. The window's statistics keep 30 samples.
unfoldable pub new_window : Options → ℕ → Window
new_window o ifid = record {
  ifid = ifid;
  options = o;
  interest_win_size = o.rbfcp_win;
  interest_win = [];
  received = 0;
  cumul_win = 0;
  timer = o.to_sender_time;
  reissuing_chunks = [];
  win_inc = 1;
  win_received = 0;
  decrease_time = 0;
  rtt_stats = new_rtt_stats 30;
}

unfoldable pub find : ℕ → List (ℕ × ℕ) → Option ℕ
find k [] = none
find k ((i, t) ∷ l) = if i == k then some t else find k l

unfoldable pub erase : ℕ → List (ℕ × ℕ) → List (ℕ × ℕ)
erase k [] = []
erase k ((i, t) ∷ l) = if i == k then l else (i, t) ∷ erase k l

-- `insert`, which leaves an entry that is there as it is: of the unordered map at some place, and of
-- the ordered map.
unfoldable pub insert : ℕ → ℕ → List (ℕ × ℕ) → List (ℕ × ℕ)
unfolding find
insert k t l = elim (find k l) [ none ↦ (k, t) ∷ l | some _ ↦ l ]

unfoldable pub insert_ordered : ℕ → ℕ → List (ℕ × ℕ) → List (ℕ × ℕ)
insert_ordered k t [] = (k, t) ∷ []
insert_ordered k t ((i, u) ∷ l) =
    if i == k
    then (i, u) ∷ l
    else if ltb k i
    then (k, t) ∷ (i, u) ∷ l
    else (i, u) ∷ insert_ordered k t l

-- `free_slot_win`, a count below 0 as 0.
unfoldable pub free_slot_win : Window → ℕ
free_slot_win w = w.interest_win_size - length w.interest_win

-- `ICP::increase_win`.
unfoldable pub increase_win : Window → Window
increase_win w =
    let n = add32 w.win_received 1 in
    if n == w.interest_win_size
    then record w { interest_win_size = add32 w.interest_win_size w.win_inc; win_received = 0 }
    else record w { win_received = n }

-- `ICP::decrease_win`.
unfoldable pub decrease_win : Window → ℕ → Window
decrease_win w now =
    if leb 1 (w.interest_win_size / 2) && ltb w.timer (now - w.decrease_time)
    then if ltb (length w.rtt_stats.samples) w.rtt_stats.estimation_length && w.options.to_v
      then w
      else record w {
        decrease_time = now;
        interest_win_size = w.interest_win_size / 2;
        win_received = 0;
      }
    else w

-- The branches of `ICP::received_chunk`: the window and the round-trip time.
unfoldable pub settle : Window → ℕ → ℕ → Window × ℕ
unfolding find erase increase_win
settle w chunk now = elim (find chunk w.reissuing_chunks) [
  | some t ↦ (record w { reissuing_chunks = erase chunk w.reissuing_chunks }, now - t)
  | none ↦ (elim (find chunk w.interest_win) [
    | some t ↦
        let w' = record w { interest_win = erase chunk w.interest_win } in
        (if w.options.aimd then increase_win w' else w', now - t)
    | none ↦ (w, 0)
  ])
]

-- `ICP::received_chunk`.
unfoldable pub received_chunk : Window → ℕ → Bool → ℕ → Window
unfolding settle samples_update
received_chunk w chunk retransmitted now =
    let w₁ = record w {
      cumul_win = add32 w.cumul_win w.interest_win_size;
      received = add32 w.received 1;
    } in
    let (w₂, rtt) = settle w₁ chunk now in
    if w.options.to_v && not retransmitted
    then record w₂ { rtt_stats = samples_update w₂.rtt_stats rtt }
    else w₂

-- `FlowControllerAIMD::receiver_TO`: the chunk is to be asked for again.
unfoldable pub receiver_to : Window → ℕ → ℕ → Window
unfolding find erase insert_ordered decrease_win
receiver_to w chunk now = elim (find chunk w.interest_win) [
  | none ↦ w
  | some t ↦
      let w' = record w {
        reissuing_chunks = insert_ordered chunk t w.reissuing_chunks;
        interest_win = erase chunk w.interest_win;
      } in
      if w.options.aimd then decrease_win w' now else w'
]

-- `FlowControllerAIMD::request_chunk`, with the time of the `ReceiverTO` event that it signals.
unfoldable pub request_chunk : Window → ℕ → ℕ → Window × Option ℕ
unfolding insert
request_chunk w chunk time =
    (record w { interest_win = insert chunk time w.interest_win }, some (w.timer))

-- `timed_out_chunk` and `pop_timed_out`; `none` is an erasure at the end of an empty map.
unfoldable pub timed_out_chunk : Window → Option (ℕ × ℕ)
timed_out_chunk w = elim w.reissuing_chunks [ [] ↦ none | e ∷ _ ↦ some e ]

unfoldable pub pop_timed_out : Window → Option Window
pop_timed_out w = elim w.reissuing_chunks [
  | [] ↦ none
  | _ ∷ l ↦ some (record w { reissuing_chunks = l })
]

unfoldable pub icp : Controller Window
icp = record {
  ifid = λ w. w.ifid;
  free_slot_win = free_slot_win;
  received_chunk = λ w chunk again source now. received_chunk w chunk again now;
  receiver_to = receiver_to;
  request_chunk = request_chunk;
  timed_out_chunk = timed_out_chunk;
  pop_timed_out = pop_timed_out;
}

-- `CBR`: a constant window, and no chunk asked for again.
pub record Cbr : Type 0 where
  pub cbr_ifid : ℕ
  pub win : ℕ

unfoldable pub cbr : Controller Cbr
cbr = record {
  ifid = λ c. c.cbr_ifid;
  free_slot_win = λ c. c.win;
  received_chunk = λ c chunk again source now. c;
  receiver_to = λ c chunk now. c;
  request_chunk = λ c chunk time. (c, none);
  timed_out_chunk = λ c. none;
  pop_timed_out = λ c. some c;
}
