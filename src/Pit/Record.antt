-- ===== src/Pit/Record.antt =====
-- `PITable::record_interest` (PITable.cc).
use ccnpl_sim.Prelude.{
  ℕ, ◌+◌, ◌<◌, ◌≡◌, refl, ◌==◌, not, if◌then◌else◌, Bool, Bool-cases, true, false, inl, inr, ◌&&◌,
  ◌||◌, List, [], ◌∷◌, Option, none, some, arith,
}
use ccnpl_sim.Packets.{Interest}
use ccnpl_sim.Pit.Slots.{Slot, insert_at, Distinct-insert_at, lookup-insert_at}
use ccnpl_sim.Pit.Slots
use ccnpl_sim.Pit.Table.{
  PitTable, PitEntry, Named, Timed, upper_bound, insert_entry, equal_range, chunk_name, scan,
  lookup, record_interest,
}
use ccnpl_sim.Pit.Invariant.{Sorted}
use ccnpl_sim.Pit.Clean.{IsTable, live, pit_clean-live}

timed_slot : ℕ → ℕ → ℕ → Slot Timed
timed_slot address until name = record {
  address = address;
  value = record { until = until; name_it = name };
}

Sorted-insert_at :
    (until : ℕ) (n : Slot Timed) (l : List (Slot Timed))
    → n.value.until ≡ until
    → Sorted l
    → Sorted (insert_at (upper_bound until l) n l)
unfolding insert_at upper_bound
Sorted-insert_at until n [] e s = tt
Sorted-insert_at until n (m ∷ []) e s = ground arith
Sorted-insert_at until n (m ∷ r ∷ rs) e s = ground (arith, Sorted-insert_at until n (r ∷ rs) e s.1)

module _ {M : Type 0} where
  -- What the new entry holds.
  abbrev pub new_entry : PitTable M → ℕ → ℕ → Interest M → Slot (Named M)
  new_entry p ifid until i = record {
    address = p.next_name;
    value = record {
      key = chunk_name i.content_name i.chunk_id;
      entry = record {
        ifid = ifid;
        time = until;
        chunk_id = i.chunk_id;
        interest_issue_time = i.issue_time;
        msg = i.msg;
        data_size = i.data_size;
        port = i.port;
        content_name = i.content_name;
        store_by_time_it = p.next_time;
      };
    };
  }

  module _ (p : PitTable M) (v : IsTable p) (slot ifid until : ℕ) (i : Interest M) where
    abbrev p' : PitTable M
    unfolding insert_entry
    p' = insert_entry p slot ifid until i

    new_time : Slot Timed
    new_time = record {
      address = p.next_time;
      value = record { until = until; name_it = p.next_name };
    }

    name_at :
        (a : ℕ)
        → Slots.lookup a p'.by_name
          ≡ (if a == p.next_name then some (new_entry p ifid until i) else Slots.lookup a p.by_name)
    unfolding insert_entry
    name_at a =
        lookup-insert_at slot (new_entry p ifid until i) a p.by_name
          (v.fresh_name p.next_name (omega arith))

    time_at :
        (b : ℕ)
        → Slots.lookup b p'.by_time
          ≡ (if b == p.next_time then some new_time else Slots.lookup b p.by_time)
    unfolding insert_entry new_time
    time_at b =
        lookup-insert_at (upper_bound until p.by_time) new_time b p.by_time
          (v.fresh_time p.next_time (omega arith))

    timed_inserted :
        (a : ℕ) (n : Slot (Named M))
        → Slots.lookup a p'.by_name ≡ some n
        → (t : Slot Timed) × (Slots.lookup n.value.entry.store_by_time_it p'.by_time ≡ some t)
          × (t.value.name_it ≡ a)
          × (t.value.until ≡ n.value.entry.time)
    unfolding new_time
    timed_inserted a n e = elim (Bool-cases (a == p.next_name)) [
      | inl new ↦ (
        new_time,
        ground (arith, name_at a, time_at p.next_time),
        ground (arith, name_at a),
        ground (arith, name_at a),
      )
      | inr old ↦
          let (t, et, back, time) = v.paired.timed a n (ground (arith, name_at a)) in
          (
            t,
            ground (
              arith,
              time_at n.value.entry.store_by_time_it,
              v.fresh_time n.value.entry.store_by_time_it,
            ),
            back,
            time,
          )
    ]

    named_inserted :
        (b : ℕ) (t : Slot Timed)
        → Slots.lookup b p'.by_time ≡ some t
        → (n : Slot (Named M)) × (Slots.lookup t.value.name_it p'.by_name ≡ some n)
          × (n.value.entry.store_by_time_it ≡ b)
    unfolding new_time
    named_inserted b t e = elim (Bool-cases (b == p.next_time)) [
      | inl new ↦
          (new_entry p ifid until i, ground (arith, time_at b, name_at p.next_name), ground arith)
      | inr old ↦
          let (n, en, back) = v.paired.named b t (ground (arith, time_at b)) in
          (n, ground (arith, name_at t.value.name_it, v.fresh_name t.value.name_it), back)
    ]

    pub insert_entry-IsTable : IsTable (insert_entry p slot ifid until i)
    unfolding insert_entry new_time
    insert_entry-IsTable = record {
      paired = record {
        distinct_names =
            Distinct-insert_at slot (new_entry p ifid until i) p.by_name
              (v.fresh_name p.next_name (omega arith)) v.paired.distinct_names;
        distinct_times =
            Distinct-insert_at (upper_bound until p.by_time) new_time p.by_time
              (v.fresh_time p.next_time (omega arith)) v.paired.distinct_times;
        timed = timed_inserted;
        named = named_inserted;
      };
      sorted = Sorted-insert_at until new_time p.by_time refl v.sorted;
      fresh_name = λ a h. ground (arith, name_at a, v.fresh_name a);
      fresh_time = λ b h. ground (arith, time_at b, v.fresh_time b);
    }

  -- The first entry of a chunk other than 0.
  abbrev pub first_chunk : List (Slot (Named M)) → Option (PitEntry M)
  first_chunk [] = none
  first_chunk (n ∷ ns) =
      if n.value.entry.chunk_id == 0 then first_chunk ns else some (n.value.entry)

  abbrev pub any_port : ℕ → List (Slot (Named M)) → Bool
  any_port port [] = false
  any_port port (n ∷ ns) = (n.value.entry.port == port) || any_port port ns

  -- A filtered interest of another node: the first pending chunk decides.
  scan-remote :
      (ifid : ℕ) (range : List (Slot (Named M))) (until : ℕ)
      → 0 < ifid
      → scan true ifid none range false true until
        ≡ elim (first_chunk range) [ none ↦ (false, true, until) | some e ↦ (true, true, e.time) ]
  unfolding scan
  scan-remote ifid [] until h = refl
  scan-remote ifid (n ∷ ns) until h = ground (arith, scan-remote ifid ns until h)

  -- An interest of a local socket: an entry of the same port decides.
  scan-local :
      (filtering : Bool) (port : ℕ) (range : List (Slot (Named M))) (matched record' : Bool)
      (until : ℕ)
      → scan filtering 0 (some port) range matched record' until
        ≡ (any_port port range || matched, not (any_port port range) && record', until)
  unfolding scan
  scan-local filtering port [] matched record' until = refl
  scan-local filtering port (n ∷ ns) matched record' until =
      let own = n.value.entry.port == port in
      ground (arith, scan-local filtering port ns (own || matched) (not own && record') until)

  -- The entries of a chunk that are alive.
  abbrev pub pending_for : PitTable M → Interest M → ℕ → List (Slot (Named M))
  pending_for p i now = equal_range (chunk_name i.content_name i.chunk_id) (live now p.by_name)

  -- Until when a filtered interest of another node stays in the table.
  abbrev pub remote_until : PitTable M → Interest M → ℕ → ℕ
  remote_until p i now = elim (first_chunk (pending_for p i now)) [
    | none ↦ now + p.timer
    | some e ↦ e.time
  ]

  inserted :
      (p p₁ : PitTable M) (slot ifid until : ℕ) (i : Interest M) (names : List (Slot (Named M)))
      → p₁.by_name ≡ names
      → p₁.next_name ≡ p.next_name
      → p₁.next_time ≡ p.next_time
      → (insert_entry p₁ slot ifid until i).by_name
        ≡ insert_at slot (new_entry p ifid until i) names
  unfolding insert_entry
  inserted p p₁ slot ifid until i names e n m = cc

  -- In a table in order with filtering on, an interest of another node, with no local socket, is
  -- recorded without a fault in every case, beside the entries that are alive; it is filtered
  -- exactly if a chunk other than 0 is pending, and then expires with the first such entry. The
  -- table stays in order.
  pub record_interest-remote :
      (p : PitTable M) (ifid : ℕ) (i : Interest M) (now slot : ℕ)
      → IsTable p
      → p.filtering ≡ true
      → 0 < ifid
      → (q : PitTable M) × (record_interest p ifid i none now slot
          ≡ some (q, (elim (first_chunk (pending_for p i now)) [ none ↦ false | some _ ↦ true ])))
        × IsTable q
        × (q.by_name
            ≡ insert_at slot (new_entry p ifid (remote_until p i now) i) (live now p.by_name))
  unfolding record_interest lookup
  record_interest-remote p ifid i now slot v on h =
      let (p₁, e₁, v₁, live₁, (t₁, f₁, n₁, m₁)) = pit_clean-live p now v in
      (
        insert_entry p₁ slot ifid (remote_until p i now) i,
        ground (arith, scan-remote ifid (pending_for p i now) (now + p.timer) h),
        insert_entry-IsTable p₁ v₁ slot ifid (remote_until p i now) i,
        inserted p p₁ slot ifid (remote_until p i now) i (live now p.by_name) live₁ n₁ m₁,
      )

  -- In a table in order, an interest of a local socket is recorded, for the table's time, exactly
  -- if no entry of the chunk that is alive has the socket's port, and is filtered exactly if one
  -- has. Nothing faults, and the table stays in order.
  pub record_interest-local :
      (p : PitTable M) (port : ℕ) (i : Interest M) (now slot : ℕ)
      → IsTable p
      → (q : PitTable M) × (record_interest p 0 i (some port) now slot
          ≡ some (q, any_port port (pending_for p i now)))
        × IsTable q
        × (q.by_name ≡ (
            if any_port port (pending_for p i now)
            then live now p.by_name
            else insert_at slot (new_entry p 0 (now + p.timer) i) (live now p.by_name)))
  unfolding record_interest lookup
  record_interest-local p port i now slot v =
      let (p₁, e₁, v₁, live₁, (t₁, f₁, n₁, m₁)) = pit_clean-live p now v in
      let scanned = scan-local p.filtering port (pending_for p i now) false true (now + p.timer) in
      elim (Bool-cases (any_port port (pending_for p i now))) [
        | inl own ↦ (p₁, ground (arith, scanned), v₁, ground arith)
        | inr new ↦ (
          insert_entry p₁ slot 0 (now + p.timer) i,
          ground (arith, scanned),
          insert_entry-IsTable p₁ v₁ slot 0 (now + p.timer) i,
          rw new (inserted p p₁ slot 0 (now + p.timer) i (live now p.by_name) live₁ n₁ m₁),
        )
      ]
