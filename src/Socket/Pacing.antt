-- ===== src/Socket/Pacing.antt =====
-- The window of `ICP` (ICP.cc, FlowControllerAIMD.cc) over a download.
use ccnpl_sim.Prelude.{
  ℕ, suc, ◌+◌, ◌≤◌, ◌<◌, ◌≡◌, refl, ◌==◌, ◌&&◌, not, if◌then◌else◌, Bool, Bool-cases, Option-cases,
  inl, inr, List, [], ◌∷◌, none, some, length, add32, u32_mod, arith,
}
use ccnpl_sim.Socket.Window.{
  Window, find, erase, insert, insert_ordered, increase_win, decrease_win, settle, received_chunk,
  receiver_to, request_chunk, timed_out_chunk, pop_timed_out,
}
use mathlib.Core.Option

-- No chunk stands twice in a window.
abbrev pub Distinct : List (ℕ × ℕ) → Type 0
Distinct [] = Unit {0}
Distinct ((k, t) ∷ l) = (find k l ≡ none) × Distinct l

find-erase :
    (k j : ℕ) (l : List (ℕ × ℕ))
    → Distinct l
    → find j (erase k l) ≡ (if j == k then none else find j l)
unfolding find erase
find-erase k j [] d = ground arith
find-erase k j ((i, t) ∷ l) d = ground (arith, find-erase k j l d.1, d.0)

Distinct-erase : (k : ℕ) (l : List (ℕ × ℕ)) → Distinct l → Distinct (erase k l)
unfolding erase
Distinct-erase k [] d = tt
Distinct-erase k ((i, t) ∷ l) d = ground (arith, Distinct-erase k l d.1, find-erase k i l d.1)

length-erase :
    (k t : ℕ) (l : List (ℕ × ℕ)) → find k l ≡ some t → suc (length (erase k l)) ≡ length l
unfolding find erase
length-erase k t [] e = ground arith
length-erase k t ((i, u) ∷ l) e = ground (arith, length-erase k t l)

Distinct-insert : (k t : ℕ) (l : List (ℕ × ℕ)) → Distinct l → Distinct (insert k t l)
unfolding insert
Distinct-insert k t l d = ground (arith, Option-cases (find k l))

find-insert_ordered :
    (k t j : ℕ) (l : List (ℕ × ℕ))
    → find k l ≡ none
    → find j (insert_ordered k t l) ≡ (if j == k then some t else find j l)
unfolding find insert_ordered
find-insert_ordered k t j [] e = ground arith
find-insert_ordered k t j ((i, u) ∷ l) e = ground (arith, find-insert_ordered k t j l)

-- The window has room for an interest, its counter is below it, it grows by one, and no chunk stands
-- in it twice.
pub record IsPaced (w : Window) : Type 0 where
  pub positive : 1 ≤ w.interest_win_size
  pub counting : w.win_received < w.interest_win_size
  pub step : w.win_inc ≡ 1
  pub once : Distinct w.interest_win

-- What happens to a window. For a reissue the download asks for `timed_out_chunk`, and pops it only where
-- there is one.
pub data Event : Type 0 where
  arrival : ℕ → Bool → Event
  expiry : ℕ → Event
  request : ℕ → ℕ → Event
  reissue : Event

unfoldable pub handle : Window → Event → ℕ → Window
handle w (arrival chunk again) now = received_chunk w chunk again now
handle w (expiry chunk) now = receiver_to w chunk now
handle w (request chunk time) now = (request_chunk w chunk time).0
handle w reissue now = elim (timed_out_chunk w) [
  | none ↦ w
  | some _ ↦ Option.get_or (pop_timed_out w) w
]

unfoldable pub handle_all : Window → List (Event × ℕ) → Window
handle_all w [] = w
handle_all w ((e, now) ∷ es) = handle_all (handle w e now) es

increase_win-IsPaced :
    (w : Window)
    → IsPaced w
    → w.interest_win_size + 1 < u32_mod
    → IsPaced (increase_win w) × ((increase_win w).interest_win_size ≤ w.interest_win_size + 1)
unfolding increase_win
increase_win-IsPaced w v h = ground (arith, v.once)

decrease_win-IsPaced :
    (w : Window) (now : ℕ)
    → IsPaced w
    → IsPaced (decrease_win w now) × ((decrease_win w now).interest_win_size ≤ w.interest_win_size)
unfolding decrease_win
decrease_win-IsPaced w now v = ground (arith, v.once)

settle-IsPaced :
    (w : Window) (chunk now : ℕ)
    → IsPaced w
    → w.interest_win_size + 1 < u32_mod
    → IsPaced (settle w chunk now).0
      × ((settle w chunk now).0.interest_win_size ≤ w.interest_win_size + 1)
unfolding settle
settle-IsPaced w chunk now v h = elim (Option-cases (find chunk w.reissuing_chunks)) [
  | inr (t, late) ↦ ground (arith, v.once)
  | inl not_late ↦ elim (Option-cases (find chunk w.interest_win)) [
    | inl unasked ↦ ground (arith, v.once)
    | inr (t, asked) ↦
        let w' : Window = record w { interest_win = erase chunk w.interest_win } in
        let v' : IsPaced w' = record {
          positive = v.positive;
          counting = v.counting;
          step = v.step;
          once = Distinct-erase chunk w.interest_win v.once;
        } in
        ground (arith, increase_win-IsPaced w' v' h, v'.once)
  ]
]

handle-IsPaced :
    (w : Window) (e : Event) (now : ℕ)
    → IsPaced w
    → w.interest_win_size + 1 < u32_mod
    → IsPaced (handle w e now) × ((handle w e now).interest_win_size ≤ w.interest_win_size + 1)
unfolding handle received_chunk receiver_to request_chunk pop_timed_out timed_out_chunk
handle-IsPaced w (arrival chunk again) now v h =
    let w₁ : Window = record w {
      cumul_win = add32 w.cumul_win w.interest_win_size;
      received = add32 w.received 1;
    } in
    let v₁ : IsPaced w₁ = record {
      positive = v.positive;
      counting = v.counting;
      step = v.step;
      once = v.once;
    } in
    let (v₂, grown) = settle-IsPaced w₁ chunk now v₁ h in
    elim (Bool-cases (w.options.to_v && not again)) [
      | inl sampled ↦ rw sampled (
        record { positive = v₂.positive; counting = v₂.counting; step = v₂.step; once = v₂.once },
        grown,
      )
      | inr unsampled ↦ rw unsampled (v₂, grown)
    ]
handle-IsPaced w (expiry chunk) now v h = elim (Option-cases (find chunk w.interest_win)) [
  | inl unasked ↦ ground (arith, v.once)
  | inr (t, asked) ↦
      let w' : Window = record w {
        reissuing_chunks = insert_ordered chunk t w.reissuing_chunks;
        interest_win = erase chunk w.interest_win;
      } in
      let v' : IsPaced w' = record {
        positive = v.positive;
        counting = v.counting;
        step = v.step;
        once = Distinct-erase chunk w.interest_win v.once;
      } in
      ground (arith, decrease_win-IsPaced w' now v', v'.once)
]
handle-IsPaced w (request chunk time) now v h = (
  record {
    positive = v.positive;
    counting = v.counting;
    step = v.step;
    once = Distinct-insert chunk time w.interest_win v.once;
  },
  omega arith,
)
handle-IsPaced w reissue now v h = popped w.reissuing_chunks refl
  where
    popped :
        (l : List (ℕ × ℕ))
        → w.reissuing_chunks ≡ l
        → IsPaced (handle w reissue now)
          × ((handle w reissue now).interest_win_size ≤ w.interest_win_size + 1)
    popped [] e = ground (arith, v.once)
    popped (c ∷ cs) e = ground (arith, v.once)

-- Through any events, in any order and at any times, the window keeps a size of at least 1, its
-- counter below its size, and each chunk at most once; and it grows by at most one for each event.
-- The sizes stay within 32-bit words.
pub handle_all-IsPaced :
    (w : Window) (es : List (Event × ℕ))
    → IsPaced w
    → w.interest_win_size + length es < u32_mod
    → IsPaced (handle_all w es)
      × ((handle_all w es).interest_win_size ≤ w.interest_win_size + length es)
unfolding handle_all
handle_all-IsPaced w [] v h = (v, omega arith)
handle_all-IsPaced w ((e, now) ∷ es) v h =
    let (v', grown) = handle-IsPaced w e now v (omega arith) in
    let (v'', all) = handle_all-IsPaced (handle w e now) es v' (omega arith) in (v'', omega arith)

-- A timer that expires for a chunk in the window, which is not yet to be asked for again, takes the
-- chunk out of the window, so that a slot is freed, and puts it among those to be asked for again,
-- with the time of its first interest; no other chunk moves.
pub receiver_to-find :
    (w : Window) (chunk t now j : ℕ)
    → IsPaced w
    → find chunk w.interest_win ≡ some t
    → find chunk w.reissuing_chunks ≡ none
    → let w' = receiver_to w chunk now in
      (suc (length w'.interest_win) ≡ length w.interest_win)
      × (find j w'.interest_win ≡ (if j == chunk then none else find j w.interest_win))
      × (find j w'.reissuing_chunks ≡ (if j == chunk then some t else find j w.reissuing_chunks))
unfolding receiver_to decrease_win
receiver_to-find w chunk t now j v asked e = ground (
  arith,
  length-erase chunk t w.interest_win asked,
  find-erase chunk j w.interest_win v.once,
  find-insert_ordered chunk t j w.reissuing_chunks e,
)
