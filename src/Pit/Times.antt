-- ===== src/Pit/Times.antt =====
-- `PITable::registration_time` (PITable.cc).
use ccnpl_sim.Prelude.{
  ℕ, ◌≤◌, ◌≡◌, ◌≢◌, refl, ◌⊎◌, inl, inr, ◌==◌, ltb, ◌||◌, if◌then◌else◌, Bool-cases, List, [], ◌∷◌,
  some, arith,
}
use ccnpl_sim.Packets.{Data}
use ccnpl_sim.Pit.Slots.{Slot}
use ccnpl_sim.Pit.Table.{PitTable, Named, oldest, lookup, registration_time}
use ccnpl_sim.Pit.Clean.{IsTable, live, pit_clean-live}
use ccnpl_sim.Pit.Out.{waiting_for}

module _ {M : Type 0} where
  -- An entry of the list that came from another node than the one behind the interface.
  abbrev pub Elsewhere : ℕ → Slot (Named M) → List (Slot (Named M)) → Type 0
  Elsewhere ifid n [] = ⊥
  Elsewhere ifid n (m ∷ ms) =
      ((m ≡ n) × (n.value.entry.ifid ≢ ifid) × (n.value.entry.ifid ≢ 0)) ⊎ Elsewhere ifid n ms

  -- The earliest of a time and the issue times of these entries.
  pub record IsEarliest (ifid start t : ℕ) (l : List (Slot (Named M))) : Type 0 where
    pub not_late : t ≤ start
    pub least : (n : Slot (Named M)) → Elsewhere ifid n l → t ≤ n.value.entry.interest_issue_time
    pub attained :
        (t ≡ start)
        ⊎ ((n : Slot (Named M)) × Elsewhere ifid n l × (t ≡ n.value.entry.interest_issue_time))

  later : ℕ → Slot (Named M) → ℕ → ℕ
  later ifid n reg =
      let e = n.value.entry in
      if (e.ifid == ifid) || (e.ifid == 0)
      then reg
      else if ltb e.interest_issue_time reg
      then e.interest_issue_time
      else reg

  oldest-IsEarliest :
      (ifid : ℕ) (l : List (Slot (Named M))) (reg : ℕ) → IsEarliest ifid reg (oldest ifid l reg) l
  unfolding oldest later
  oldest-IsEarliest ifid [] reg = record {
    not_late = omega arith;
    least = λ n e. absurd e;
    attained = inl refl;
  }
  oldest-IsEarliest ifid (m ∷ ms) reg =
      let rest = oldest-IsEarliest ifid ms (later ifid m reg) in
      record {
        not_late = ground (arith, rest.not_late);
        least = λ n e. elim e [
          | inl (same, other, distant) ↦ ground (arith, rest.not_late)
          | inr below ↦ rest.least n below
        ];
        attained = elim rest.attained [
          | inr (n, below, e) ↦ inr (n, inr below, e)
          | inl e ↦ elim (Bool-cases ((m.value.entry.ifid == ifid) || (m.value.entry.ifid == 0))) [
            | inl skipped ↦ inl (ground arith)
            | inr used ↦ elim (Bool-cases (ltb m.value.entry.interest_issue_time reg)) [
              | inl earlier ↦ inr (m, inl (refl, ground arith, ground arith), ground arith)
              | inr not_earlier ↦ inl (ground arith)
            ]
          ]
        ];
      }

  -- In a table in order, `registration_time` does not fault. It is the earliest of the clock and the
  -- issue times of the entries that wait for the chunk on other interfaces, those of local sockets
  -- left out; only the expired entries go, and the table stays in order.
  pub registration_time-IsEarliest :
      (p : PitTable M) (ifid : ℕ) (d : Data M) (now : ℕ)
      → IsTable p
      → (q : PitTable M) × (t : ℕ) × (registration_time p ifid d now ≡ some (q, t))
        × IsTable q
        × (q.by_name ≡ live now p.by_name)
        × IsEarliest ifid now t (waiting_for p d now)
  unfolding registration_time lookup
  registration_time-IsEarliest p ifid d now v =
      let (q, e, v', names, _) = pit_clean-live p now v in
      (
        q,
        oldest ifid (waiting_for p d now) now,
        ground (arith, e, names),
        v',
        names,
        oldest-IsEarliest ifid (waiting_for p d now) now,
      )
