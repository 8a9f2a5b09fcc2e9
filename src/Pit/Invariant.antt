-- ===== src/Pit/Invariant.antt =====
-- The two stores of the table of pending interests point into each other, and every operation of
-- PITable.cc keeps it so.
use ccnpl_sim.Prelude.{ℕ, ◌≤◌, ◌≡◌, ◌≢◌, List, [], ◌∷◌, some, arith}
use ccnpl_sim.Pit.Slots.{Slot, lookup, remove, erase, Distinct, lookup-remove, Distinct-remove}
use ccnpl_sim.Pit.Table.{Named, Timed}

-- The times of the store by time never fall.
abbrev pub Sorted : List (Slot Timed) → Type 0
Sorted [] = Unit {0}
Sorted (n ∷ []) = Unit {0}
Sorted (n ∷ m ∷ ns) = (n.value.until ≤ m.value.until) × Sorted (m ∷ ns)

pub Sorted-tail : (t : Slot Timed) (ts : List (Slot Timed)) → Sorted (t ∷ ts) → Sorted ts
Sorted-tail t [] s = tt
Sorted-tail t (u ∷ us) s = s.1

-- From a time on, all times of the store are at least as late.
pub Sorted-bound :
    (t : Slot Timed) (ts : List (Slot Timed)) (b : ℕ) (u : Slot Timed)
    → Sorted (t ∷ ts)
    → lookup b (t ∷ ts) ≡ some u
    → t.value.until ≤ u.value.until
unfolding lookup
Sorted-bound t [] b u s e = ground arith
Sorted-bound t (r ∷ rs) b u s e = ground (arith, Sorted-bound r rs b u s.1)

module _ {M : Type 0} where
  pub record IsPaired (names : List (Slot (Named M))) (times : List (Slot Timed)) : Type 0 where
    pub distinct_names : Distinct names
    pub distinct_times : Distinct times
    -- The iterator of an entry is to the node that holds its time and points back.
    pub timed :
        (a : ℕ) (n : Slot (Named M))
        → lookup a names ≡ some n
        → (t : Slot Timed) × (lookup n.value.entry.store_by_time_it times ≡ some t)
          × (t.value.name_it ≡ a)
          × (t.value.until ≡ n.value.entry.time)
    -- The iterator of a time is to an entry that points back.
    pub named :
        (b : ℕ) (t : Slot Timed)
        → lookup b times ≡ some t
        → (n : Slot (Named M)) × (lookup t.value.name_it names ≡ some n)
          × (n.value.entry.store_by_time_it ≡ b)

  -- A node taken out of one store together with the node that it points to in the other.
  module _ (names : List (Slot (Named M))) (times : List (Slot Timed)) (v : IsPaired names times)
      (a : ℕ) (n : Slot (Named M)) (at : lookup a names ≡ some n) where
    abbrev it : ℕ
    it = n.value.entry.store_by_time_it

    timed_removed :
        (b : ℕ) (m : Slot (Named M))
        → lookup b (remove a names) ≡ some m
        → (t : Slot Timed) × (lookup m.value.entry.store_by_time_it (remove it times) ≡ some t)
          × (t.value.name_it ≡ b)
          × (t.value.until ≡ m.value.entry.time)
    timed_removed b m e =
        let e' : lookup b names ≡ some m =
          ground (arith, lookup-remove a b names v.distinct_names) in
        let ne : b ≢ a = ground (arith, lookup-remove a b names v.distinct_names) in
        let (t, et, back, time) = v.timed b m e' in
        let (s, es, back', time') = v.timed a n at in
        let ne' : m.value.entry.store_by_time_it ≢ it = λ q. ground arith in
        (
          t,
          ground (arith, lookup-remove it m.value.entry.store_by_time_it times v.distinct_times),
          back,
          time,
        )

    named_removed :
        (b : ℕ) (t : Slot Timed)
        → lookup b (remove it times) ≡ some t
        → (m : Slot (Named M)) × (lookup t.value.name_it (remove a names) ≡ some m)
          × (m.value.entry.store_by_time_it ≡ b)
    named_removed b t e =
        let e' : lookup b times ≡ some t =
          ground (arith, lookup-remove it b times v.distinct_times) in
        let ne : b ≢ it = ground (arith, lookup-remove it b times v.distinct_times) in
        let (m, em, back) = v.named b t e' in
        let ne' : t.value.name_it ≢ a = λ q. ground arith in
        (m, ground (arith, lookup-remove a t.value.name_it names v.distinct_names), back)

    pub removed-IsPaired : IsPaired (remove a names) (remove it times)
    removed-IsPaired = record {
      distinct_names = Distinct-remove a names v.distinct_names;
      distinct_times = Distinct-remove it times v.distinct_times;
      timed = timed_removed;
      named = named_removed;
    }

    pub erase_name : erase a names ≡ some (remove a names)
    unfolding erase
    erase_name = ground arith

    pub erase_time : erase it times ≡ some (remove it times)
    unfolding erase
    erase_time = let (t, et, _, _) = v.timed a n at in ground arith
