-- ===== src/Socket/Within.antt =====
-- The chunks that the controllers of ICP.cc and CBR.cc ask for again.
use ccnpl_sim.Prelude.{
  ℕ, ◌<◌, ◌≡◌, refl, Bool, Option-cases, inl, inr, List, [], ◌∷◌, some, add32, arith,
}
use ccnpl_sim.Socket.Controller.{IsWithin}
use ccnpl_sim.Socket.Window.{
  Window, icp, cbr, find, erase, insert_ordered, settle, increase_win, decrease_win, received_chunk,
  receiver_to, request_chunk, timed_out_chunk, pop_timed_out,
}

-- The ids of a map are below a bound.
abbrev pub Below : ℕ → List (ℕ × ℕ) → Type 0
Below n [] = Unit {0}
Below n ((i, t) ∷ l) = (i < n) × Below n l

Below-erase : (n k : ℕ) (l : List (ℕ × ℕ)) → Below n l → Below n (erase k l)
unfolding erase
Below-erase n k [] b = tt
Below-erase n k ((i, t) ∷ l) b = ground (arith, Below-erase n k l b.1)

Below-insert_ordered :
    (n k t : ℕ) (l : List (ℕ × ℕ)) → k < n → Below n l → Below n (insert_ordered k t l)
unfolding insert_ordered
Below-insert_ordered n k t [] h b = (h, tt)
Below-insert_ordered n k t ((i, u) ∷ l) h b = ground (arith, Below-insert_ordered n k t l h b.1)

increase_win-same : (w : Window) → (increase_win w).reissuing_chunks ≡ w.reissuing_chunks
unfolding increase_win
increase_win-same w = ground arith

decrease_win-same :
    (w : Window) (now : ℕ) → (decrease_win w now).reissuing_chunks ≡ w.reissuing_chunks
unfolding decrease_win
decrease_win-same w now = ground arith

settle-Below :
    (n : ℕ) (w : Window) (chunk now : ℕ)
    → Below n w.reissuing_chunks
    → Below n (settle w chunk now).0.reissuing_chunks
unfolding settle
settle-Below n w chunk now b = elim (Option-cases (find chunk w.reissuing_chunks)) [
  | inr (t, late) ↦ ground (arith, Below-erase n chunk w.reissuing_chunks b)
  | inl not_late ↦ elim (Option-cases (find chunk w.interest_win)) [
    | inl unasked ↦ ground arith
    | inr (t, asked) ↦
        ground (arith, increase_win-same (record w { interest_win = erase chunk w.interest_win }))
  ]
]

timed_out_chunk-Below :
    (n : ℕ) (w : Window) (l : List (ℕ × ℕ)) (chunk t : ℕ)
    → w.reissuing_chunks ≡ l
    → Below n l
    → timed_out_chunk w ≡ some (chunk, t)
    → chunk < n
unfolding timed_out_chunk
timed_out_chunk-Below n w [] chunk t e b h = ground (arith, e)
timed_out_chunk-Below n w ((i, u) ∷ l) chunk t e b h = ground (arith, e)

pop_timed_out-Below :
    (n : ℕ) (w : Window) (chunk t : ℕ) (l : List (ℕ × ℕ))
    → w.reissuing_chunks ≡ l
    → Below n l
    → timed_out_chunk w ≡ some (chunk, t)
    → (w' : Window) × (pop_timed_out w ≡ some w') × Below n w'.reissuing_chunks
unfolding pop_timed_out timed_out_chunk
pop_timed_out-Below n w chunk t [] e b h = ground (arith, e)
pop_timed_out-Below n w chunk t ((i, u) ∷ l) e b h =
    (record w { reissuing_chunks = l }, ground (arith, e), ground arith)

receiver_to-Below :
    (n : ℕ) (w : Window) (chunk now : ℕ)
    → chunk < n
    → Below n w.reissuing_chunks
    → Below n (receiver_to w chunk now).reissuing_chunks
unfolding receiver_to
receiver_to-Below n w chunk now h b = elim (Option-cases (find chunk w.interest_win)) [
  | inl unasked ↦ ground arith
  | inr (t, asked) ↦
      let w' : Window = record w {
        reissuing_chunks = insert_ordered chunk t w.reissuing_chunks;
        interest_win = erase chunk w.interest_win;
      } in
      ground
        (arith, decrease_win-same w' now, Below-insert_ordered n chunk t w.reissuing_chunks h b)
]

received_chunk-Below :
    (n : ℕ) (w : Window) (chunk : ℕ) (again : Bool) (now : ℕ)
    → Below n w.reissuing_chunks
    → Below n (received_chunk w chunk again now).reissuing_chunks
unfolding received_chunk
received_chunk-Below n w chunk again now b =
    let w₁ : Window = record w {
      cumul_win = add32 w.cumul_win w.interest_win_size;
      received = add32 w.received 1;
    } in
    ground (arith, settle-Below n w₁ chunk now b)

-- A window that is to ask again for chunks below a bound only keeps to it.
pub icp-IsWithin : (n : ℕ) → IsWithin icp n (λ w. Below n w.reissuing_chunks)
unfolding icp request_chunk
icp-IsWithin n = record {
  asks_again = λ w chunk t b e. timed_out_chunk-Below n w w.reissuing_chunks chunk t refl b e;
  after_arrival = λ w chunk again source now b. received_chunk-Below n w chunk again now b;
  after_expiry = λ w chunk now h b. receiver_to-Below n w chunk now h b;
  after_request = λ w chunk time h b. b;
  after_pop = λ w chunk t b e. pop_timed_out-Below n w chunk t w.reissuing_chunks refl b e;
}

pub cbr-IsWithin : (n : ℕ) → IsWithin cbr n (λ c. Unit {0})
unfolding cbr
cbr-IsWithin n = record {
  asks_again = λ c chunk t i e. cc;
  after_arrival = λ c chunk again source now i. tt;
  after_expiry = λ c chunk now h i. tt;
  after_request = λ c chunk time h i. tt;
  after_pop = λ c chunk t i e. cc;
}
