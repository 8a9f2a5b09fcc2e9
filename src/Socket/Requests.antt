-- ===== src/Socket/Requests.antt =====
-- What a download asks for (`get_interested_chunk` of SocketManager.cc), and its timers.
use ccnpl_sim.Prelude.{
  ℕ, zero, suc, ◌+◌, ◌≤◌, ◌<◌, ◌≡◌, refl, subst, inl, inr, ltb, if◌then◌else◌, true, Option-cases,
  List, [], ◌∷◌, ◌++◌, some, length, length-append, arith,
}
use ccnpl_sim.Socket.Controller.{Controller, IsWithin}
use ccnpl_sim.Socket.Flags.{get_elem?-lt}
use ccnpl_sim.Socket.Chunks.{Socket, remove_notreq}
use ccnpl_sim.Socket.Choice.{InRange, IsChoice, select_chunk-Selected, has_id, has_id_erased}
use ccnpl_sim.Socket.Manager.{
  Manager, RequestingChunk, Timer, timers, push, fill_window, fill_windows, get_interested_chunk,
}
use ccnpl_sim.Socket.Progress.{IsSound}
use ccnpl_sim.Socket.Receipt.{Every}

module _ {C : Type 0} (k : Controller C) where
  -- The free slots of all controllers.
  abbrev pub free_slots : List C → ℕ
  free_slots [] = 0
  free_slots (w ∷ ws) = k.free_slot_win w + free_slots ws

module _ {M : Type 0} where
  -- A socket after another that lost only chunks that are left.
  pub record IsReduced (s s' : Socket M) : Type 0 where
    pub only_left : s' ≡ record s { notreq_chunks = s'.notreq_chunks }
    pub no_more : (a : ℕ) → has_id a s'.notreq_chunks ≡ true → has_id a s.notreq_chunks ≡ true

  IsReduced-refl : (s : Socket M) → IsReduced s s
  IsReduced-refl s = record { only_left = refl; no_more = λ a h. h }

  IsReduced-trans : (s t u : Socket M) → IsReduced s t → IsReduced t u → IsReduced s u
  IsReduced-trans s t u p q = record {
    only_left = ground (arith, p.only_left, q.only_left);
    no_more = λ a h. p.no_more a (q.no_more a h);
  }

  IsReduced-remove : (s : Socket M) (a : ℕ) → IsReduced s (remove_notreq s a)
  unfolding remove_notreq
  IsReduced-remove s a = record {
    only_left = refl;
    no_more = λ b h. has_id_erased b a s.notreq_chunks h;
  }

  InRange-IsReduced : (s t : Socket M) → IsReduced s t → InRange s → InRange t
  InRange-IsReduced s t p r a h = ground (arith, p.only_left, r a (p.no_more a h))

  IsSound-IsReduced : (s t : Socket M) → IsReduced s t → IsSound s → IsSound t
  IsSound-IsReduced s t p v = record {
    sized = ground (arith, p.only_left, v.sized);
    counted = ground (arith, p.only_left, v.counted);
    bits = ground (arith, p.only_left, v.bits);
    word = ground (arith, p.only_left, v.word);
    total_word = ground (arith, p.only_left, v.total_word);
    in_range = InRange-IsReduced s t p v.in_range;
  }

-- The chunks asked for are below a bound.
abbrev pub AllBelow : ℕ → List RequestingChunk → Type 0
AllBelow n [] = Unit {0}
AllBelow n (r ∷ rs) = (r.chunk_id < n) × AllBelow n rs

AllBelow-append :
    (n : ℕ) (l more : List RequestingChunk)
    → AllBelow n l
    → AllBelow n more
    → AllBelow n (l ++ more)
AllBelow-append n [] more b b₂ = b₂
AllBelow-append n (r ∷ rs) more b b₂ = (b.0, AllBelow-append n rs more b.1 b₂)

module _ {M C : Type 0} (k : Controller C) (n : ℕ) (P : C → Type 0) (law : IsWithin k n P)
    (pick : ℕ → ℕ) (to_limit now : ℕ) where
  Fills : ℕ → Socket M → C → Type 0
  Fills rounds s w =
      (s' : Socket M) × (w' : C) × (asked : List RequestingChunk) × (set_off : List Timer)
      × (fill_window k rounds pick to_limit now s w ≡ some (s', w', asked, set_off))
      × IsReduced s s'
      × (length asked ≤ rounds)
      × AllBelow n asked
      × P w'

  fill_window-Fills :
      (rounds : ℕ) (s : Socket M) (w : C)
      → InRange s
      → length s.file_chunks ≡ n
      → P w
      → Fills rounds s w
  unfolding fill_window push Fills remove_notreq
  fill_window-Fills zero s w r z i = (s, w, [], [], refl, IsReduced-refl s, omega arith, tt, i)
  fill_window-Fills (suc rounds) s w r z i = elim (Option-cases (k.timed_out_chunk w)) [
    | inr ((chunk, first), again) ↦
        let (w₀, popped, i₀) = law.after_pop w chunk first i again in
        let (w₁, timer) = k.request_chunk w₀ chunk (if ltb 0 first then first else now) in
        let low = law.asks_again w chunk first i again in
        let i₁ = law.after_request w₀ chunk (if ltb 0 first then first else now) low i₀ in
        let (s', w', asked, set_off, e, p, few, below, i') = fill_window-Fills rounds s w₁ r z i₁ in
        (
          s',
          w',
          record { ifid = k.ifid w; chunk_id = chunk } ∷ asked,
          timers (k.ifid w) chunk timer ++ set_off,
          ground (arith, again, popped, e),
          p,
          omega (arith, few),
          (low, below),
          i',
        )
    | inl fresh ↦
        let (s₁, choice, e₁, sel) = select_chunk-Selected pick to_limit s r in
        let p₁ : IsReduced s s₁ = record { only_left = sel.only_left; no_more = sel.no_more } in
        let r₁ = InRange-IsReduced s s₁ p₁ r in
        let z₁ : length s₁.file_chunks ≡ n = ground (arith, sel.only_left) in
        elim (Option-cases choice) [
          | inl nothing ↦
              let (s', w', asked, set_off, e, p, few, below, i') =
                fill_window-Fills rounds s₁ w r₁ z₁ i in
              (
                s',
                w',
                asked,
                set_off,
                ground (arith, fresh, e₁, nothing, e),
                IsReduced-trans s s₁ s' p₁ p,
                omega (arith, few),
                below,
                i',
              )
          | inr (chunk, chosen) ↦
              let s₂ = remove_notreq s₁ chunk in
              let p₂ = IsReduced-trans s s₁ s₂ p₁ (IsReduced-remove s₁ chunk) in
              let (w₁, timer) = k.request_chunk w chunk now in
              let (_, (c, entry, _, _)) = subst (λ x. IsChoice to_limit s₁ x) chosen sel.chosen in
              let low : chunk < n = omega (arith, get_elem?-lt s₁.file_chunks chunk c entry) in
              let (s', w', asked, set_off, e, p, few, below, i') =
                fill_window-Fills rounds s₂ w₁ (InRange-IsReduced s s₂ p₂ r) z₁
                  (law.after_request w chunk now low i) in
              (
                s',
                w',
                record { ifid = k.ifid w; chunk_id = chunk } ∷ asked,
                timers (k.ifid w) chunk timer ++ set_off,
                ground (arith, fresh, e₁, chosen, e),
                IsReduced-trans s s₂ s' p₂ p,
                omega (arith, few),
                (low, below),
                i',
              )
        ]
  ]

  FillsAll : Socket M → List C → Type 0
  FillsAll s ws =
      (s' : Socket M) × (ws' : List C) × (asked : List RequestingChunk) × (set_off : List Timer)
      × (fill_windows k pick to_limit now s ws ≡ some (s', ws', asked, set_off))
      × IsReduced s s'
      × (length asked ≤ free_slots k ws)
      × AllBelow n asked
      × Every P ws'

  fill_windows-FillsAll :
      (s : Socket M) (ws : List C)
      → InRange s
      → length s.file_chunks ≡ n
      → Every P ws
      → FillsAll s ws
  unfolding fill_windows FillsAll Fills
  fill_windows-FillsAll s [] r z all = (s, [], [], [], refl, IsReduced-refl s, omega arith, tt, tt)
  fill_windows-FillsAll s (w ∷ ws) r z all =
      let (s₁, w₁, asked, set_off, e, p, few, below, i) =
        fill_window-Fills (k.free_slot_win w) s w r z all.0 in
      let (s₂, ws₂, more, later, e₂, p₂, few₂, below₂, all₂) =
        fill_windows-FillsAll s₁ ws (InRange-IsReduced s s₁ p r) (ground (arith, p.only_left))
          all.1 in
      (
        s₂,
        w₁ ∷ ws₂,
        asked ++ more,
        set_off ++ later,
        ground (arith, e, e₂),
        IsReduced-trans s s₁ s₂ p p₂,
        omega (arith, few, few₂, length-append asked more),
        AllBelow-append n asked more below below₂,
        (i, all₂),
      )

  -- A sound download answers what it is interested in without a fault: with at most one chunk for
  -- each free slot of its controllers. It stays sound, and changes nothing in its socket but the
  -- chunks that are left, which only lose some; every chunk asked for has its entry.
  pub get_interested_chunk-IsSound :
      (m : Manager M C)
      → IsSound m.socket
      → length m.socket.file_chunks ≡ n
      → Every P m.window_controllers
      → (m' : Manager M C) × (asked : List RequestingChunk) × (set_off : List Timer)
        × (get_interested_chunk k pick to_limit now m ≡ some (m', asked, set_off))
        × IsSound m'.socket
        × IsReduced m.socket m'.socket
        × (length asked ≤ free_slots k m.window_controllers)
        × AllBelow n asked
        × Every P m'.window_controllers
  unfolding get_interested_chunk FillsAll
  get_interested_chunk-IsSound m v z all =
      let (s, ws, asked, set_off, e, p, few, below, every) =
        fill_windows-FillsAll m.socket m.window_controllers v.in_range z all in
      (
        record m { socket = s; window_controllers = ws },
        asked,
        set_off,
        ground (arith, e),
        IsSound-IsReduced m.socket s p v,
        p,
        few,
        below,
        every,
      )
