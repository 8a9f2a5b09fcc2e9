-- ===== src/Pit/Clean.antt =====
-- `PITable::PIT_clean` and `lookup` (PITable.cc).
use ccnpl_sim.Prelude.{
  ℕ, ◌≤◌, ◌<◌, ◌≡◌, refl, ltb, leb, if◌then◌else◌, Bool-cases, inl, inr, List, [], ◌∷◌, none, some,
  arith,
}
use ccnpl_sim.Pit.Slots.{Slot, remove, erase, Distinct, lookup_address, lookup-remove}
use ccnpl_sim.Pit.Slots
use ccnpl_sim.Pit.Table.{PitTable, Named, Timed, clean_loop, pit_clean}
use ccnpl_sim.Pit.Invariant.{
  IsPaired, Sorted, Sorted-tail, Sorted-bound, removed-IsPaired, erase_name,
}

module _ {M : Type 0} where
  -- The entries that have not expired.
  abbrev pub live : ℕ → List (Slot (Named M)) → List (Slot (Named M))
  live now [] = []
  live now (n ∷ ns) = if ltb now n.value.entry.time then n ∷ live now ns else live now ns

  live-remove :
      (now a : ℕ) (names : List (Slot (Named M))) (n : Slot (Named M))
      → Slots.lookup a names ≡ some n
      → n.value.entry.time ≤ now
      → live now (remove a names) ≡ live now names
  unfolding Slots.lookup remove
  live-remove now a [] n e h = refl
  live-remove now a (m ∷ ms) n e h = ground (arith, live-remove now a ms n)

  live_all :
      (now : ℕ) (names : List (Slot (Named M)))
      → Distinct names
      → ((a : ℕ) (n : Slot (Named M)) → Slots.lookup a names ≡ some n → now < n.value.entry.time)
      → live now names ≡ names
  unfolding Slots.lookup
  live_all now [] d h = refl
  live_all now (n ∷ ns) d h =
      let h' : (a : ℕ) (m : Slot (Named M))
          → Slots.lookup a ns ≡ some m
          → now < m.value.entry.time =
        λ a m e. h a m (ground (arith, d.0)) in
      ground (arith, h n.address n, live_all now ns d.1 h')

  -- What the loop of `PIT_clean` yields.
  abbrev Cleaned : ℕ → List (Slot (Named M)) → List (Slot Timed) → Type 0
  Cleaned now names times =
      (times' : List (Slot Timed)) × (clean_loop now times names ≡ some (times', live now names))
      × IsPaired (live now names) times'
      × Sorted times'
      × ((b : ℕ) → Slots.lookup b times ≡ none → Slots.lookup b times' ≡ none)

  clean_loop-Cleaned :
      (now : ℕ) (times : List (Slot Timed)) (names : List (Slot (Named M)))
      → IsPaired names times
      → Sorted times
      → Cleaned now names times
  unfolding clean_loop
  clean_loop-Cleaned now [] names v s =
      let all : live now names ≡ names =
        live_all now names v.distinct_names
          (λ a n e. let (t, et, _, _) = v.timed a n e in absurd (unfold Slots.lookup in cc)) in
      ([], ground arith, rw all v, tt, λ b e. e)
  clean_loop-Cleaned now (t ∷ ts) names v s = elim (Bool-cases (leb t.value.until now)) [
    | inr later ↦
        let all : live now names ≡ names = live_all now names v.distinct_names (λ a n e.
          let (u, eu, _, same) = v.timed a n e in
          let after = Sorted-bound t ts n.value.entry.store_by_time_it u s eu in ground arith) in
        (t ∷ ts, ground arith, rw all v, s, λ b e. e)
    | inl over ↦
        let front : Slots.lookup t.address (t ∷ ts) ≡ some t =
          unfold Slots.lookup in ground arith in
        let (n, en, back) = v.named t.address t front in
        let (u, eu, _, time) = v.timed t.value.name_it n en in
        let tail : remove n.value.entry.store_by_time_it (t ∷ ts) ≡ ts =
          unfold remove in ground arith in
        let v' : IsPaired (remove t.value.name_it names) ts =
          rw tail at (removed-IsPaired names (t ∷ ts) v t.value.name_it n en) in
        let gone = live-remove now t.value.name_it names n en (ground arith) in
        let (times', e', p', s', f') =
          clean_loop-Cleaned now ts (remove t.value.name_it names) v' (Sorted-tail t ts s) in
        (
          times',
          ground (arith, erase_name names (t ∷ ts) v t.value.name_it n en),
          rw gone at p',
          s',
          λ b h. f' b (unfold Slots.lookup in ground arith),
        )
  ]

  lookup-live :
      (now a : ℕ) (names : List (Slot (Named M)))
      → Slots.lookup a names ≡ none
      → Slots.lookup a (live now names) ≡ none
  unfolding Slots.lookup
  lookup-live now a [] e = refl
  lookup-live now a (n ∷ ns) e = ground (arith, lookup-live now a ns)

  -- The table is in order: the stores are paired, the times sorted, and the addresses to come unused.
  pub record IsTable (p : PitTable M) : Type 0 where
    pub paired : IsPaired p.by_name p.by_time
    pub sorted : Sorted p.by_time
    pub fresh_name : (a : ℕ) → p.next_name ≤ a → Slots.lookup a p.by_name ≡ none
    pub fresh_time : (b : ℕ) → p.next_time ≤ b → Slots.lookup b p.by_time ≡ none

  -- Two tables with the same parameters and addresses to come.
  abbrev pub SameSetup : PitTable M → PitTable M → Type 0
  SameSetup p q =
      (p.timer ≡ q.timer)
      × (p.filtering ≡ q.filtering)
      × (p.next_name ≡ q.next_name)
      × (p.next_time ≡ q.next_time)

  -- In a table in order, `PIT_clean` does not fault: it takes out the expired entries and no other,
  -- keeps the order of those that stay, and leaves the table in order.
  pub pit_clean-live :
      (p : PitTable M) (now : ℕ)
      → IsTable p
      → (p' : PitTable M) × (pit_clean p now ≡ some p')
        × IsTable p'
        × (p'.by_name ≡ live now p.by_name)
        × SameSetup p' p
  unfolding pit_clean
  pit_clean-live p now v =
      let (times', e, paired', sorted', unused) =
        clean_loop-Cleaned now p.by_time p.by_name v.paired v.sorted in
      (
        record p { by_time = times'; by_name = live now p.by_name },
        rw (e, pit_clean),
        record {
          paired = paired';
          sorted = sorted';
          fresh_name = λ a h. lookup-live now a p.by_name (v.fresh_name a h);
          fresh_time = λ b h. unused b (v.fresh_time b h);
        },
        refl,
        (refl, refl, refl, refl),
      )
