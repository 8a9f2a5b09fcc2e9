-- ===== src/Socket/Start.antt =====
-- A new download (Socket.cc, SocketManager.cc), and the controllers of ICP.cc and CBR.cc.
use ccnpl_sim.Prelude.{
  ℕ, zero, suc, ◌+◌, ◌*◌, ◌<◌, ◌≡◌, refl, Option-cases, inl, inr, Bool, add32, true, List, [], ◌∷◌,
  replicate, length-replicate, u32_mod, arith, some,
}
use ccnpl_sim.Packets.{Info}
use ccnpl_sim.Socket.Controller.{IsFixed}
use ccnpl_sim.Socket.Window.{
  Window, icp, cbr, find, erase, insert_ordered, settle, increase_win, decrease_win, received_chunk,
  receiver_to, request_chunk, pop_timed_out,
}
use ccnpl_sim.Socket.Chunks.{new_chunk, new_socket, ids_from}
use ccnpl_sim.Socket.Choice.{has_id}
use ccnpl_sim.Socket.Progress.{IsSound}
use ccnpl_sim.Socket.Flags.{flags}

flags-replicate : (n : ℕ) → flags (replicate n new_chunk) ≡ 0
flags-replicate zero = refl
flags-replicate (suc n) = omega (arith, flags-replicate n)

has_id-ids_from : (start n a : ℕ) → has_id a (ids_from start n) ≡ true → a < start + n
unfolding ids_from
has_id-ids_from start zero a h = ground arith
has_id-ids_from start (suc n) a h = ground (arith, has_id-ids_from (suc start) n a)

module _ {M : Type 0} where
  -- A new download of chunks whose bits are within 32-bit words is sound.
  pub new_socket-IsSound :
      (id : ℕ) (info : Info M) (port now : ℕ)
      → info.data_chunk_size * info.content_size < u32_mod
      → info.content_size + 1 < u32_mod
      → IsSound (new_socket id info port now)
  unfolding new_socket
  new_socket-IsSound id info port now h n = record {
    sized = length-replicate (suc (info.content_size)) new_chunk;
    counted = ground (arith, flags-replicate info.content_size);
    bits = grind arith;
    word = h;
    total_word = n;
    in_range = λ a left. ground (
      arith,
      has_id-ids_from 0 (suc (info.content_size)) a left,
      length-replicate (suc (info.content_size)) new_chunk,
    );
  }

increase_win_ifid : (w : Window) → (increase_win w).ifid ≡ w.ifid
unfolding increase_win
increase_win_ifid w = ground arith

decrease_win_ifid : (w : Window) (now : ℕ) → (decrease_win w now).ifid ≡ w.ifid
unfolding decrease_win
decrease_win_ifid w now = ground arith

settle_ifid : (w : Window) (chunk now : ℕ) → (settle w chunk now).0.ifid ≡ w.ifid
unfolding settle
settle_ifid w chunk now = elim (Option-cases (find chunk w.reissuing_chunks)) [
  | inr (t, late) ↦ ground arith
  | inl not_late ↦ elim (Option-cases (find chunk w.interest_win)) [
    | inl unasked ↦ ground arith
    | inr (t, asked) ↦
        ground (arith, increase_win_ifid (record w { interest_win = erase chunk w.interest_win }))
  ]
]

received_chunk_ifid :
    (w : Window) (chunk : ℕ) (again : Bool) (now : ℕ)
    → (received_chunk w chunk again now).ifid ≡ w.ifid
unfolding received_chunk
received_chunk_ifid w chunk again now =
    let w₁ : Window = record w {
      cumul_win = add32 w.cumul_win w.interest_win_size;
      received = add32 w.received 1;
    } in
    ground (arith, settle_ifid w₁ chunk now)

receiver_to_ifid : (w : Window) (chunk now : ℕ) → (receiver_to w chunk now).ifid ≡ w.ifid
unfolding receiver_to
receiver_to_ifid w chunk now = elim (Option-cases (find chunk w.interest_win)) [
  | inl unasked ↦ ground arith
  | inr (t, asked) ↦
      let w' : Window = record w {
        reissuing_chunks = insert_ordered chunk t w.reissuing_chunks;
        interest_win = erase chunk w.interest_win;
      } in
      ground (arith, decrease_win_ifid w' now)
]

-- The controllers of both kinds stay those of their interfaces.
pub icp-IsFixed : IsFixed icp
unfolding icp received_chunk receiver_to request_chunk pop_timed_out
icp-IsFixed = record {
  received = λ w chunk again source now. received_chunk_ifid w chunk again now;
  timed_out = λ w chunk now. receiver_to_ifid w chunk now;
  requested = λ w chunk time. refl;
  popped = λ w w' e. popped w w' w.reissuing_chunks refl e;
}
  where
    popped :
        (w w' : Window) (l : List (ℕ × ℕ))
        → w.reissuing_chunks ≡ l
        → pop_timed_out w ≡ some w'
        → w'.ifid ≡ w.ifid
    popped w w' [] e h = ground arith
    popped w w' (c ∷ cs) e h = ground arith

pub cbr-IsFixed : IsFixed cbr
unfolding cbr
cbr-IsFixed = record {
  received = λ c chunk again source now. refl;
  timed_out = λ c chunk now. refl;
  requested = λ c chunk time. refl;
  popped = λ c c' e. ground arith;
}
