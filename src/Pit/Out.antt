-- ===== src/Pit/Out.antt =====
-- `PITable::process_out` and `consume_PIT_entry` (PITable.cc).
use ccnpl_sim.Prelude.{
  ℕ, ◌<◌, ◌≡◌, refl, ◌==◌, if◌then◌else◌, Bool, true, false, not, Bool-cases, ◌∙◌, inl, inr, ◌&&◌,
  ◌||◌, List, [], ◌∷◌, ◌++◌, none, some, Text, map, append_assoc, append-nil, arith,
}
use ccnpl_sim.Packets.{Data}
use ccnpl_sim.Pit.Slots.{Slot, remove, erase, Distinct, lookup-remove, lookup_address}
use ccnpl_sim.Pit.Slots
use ccnpl_sim.Pit.Table.{
  PitTable, PitEntry, Named, Timed, MatchingIf, skip, take_on, take_last, verdict, consume,
  out_loop, process_out, equal_range, chunk_name, lookup,
}
use ccnpl_sim.Pit.Invariant.{Sorted, removed-IsPaired, erase_name, erase_time}
use ccnpl_sim.Pit.Clean.{IsTable, live, pit_clean-live, SameSetup}

Sorted-remove : (b : ℕ) (l : List (Slot Timed)) → Sorted l → Sorted (remove b l)
unfolding remove
Sorted-remove b [] s = tt
Sorted-remove b (n ∷ []) s = ground arith
Sorted-remove b (n ∷ m ∷ []) s = ground arith
Sorted-remove b (n ∷ m ∷ r ∷ rs) s = ground (arith, Sorted-remove b (m ∷ r ∷ rs) s.1)

module _ {M : Type 0} where
  abbrev pub matching : Slot (Named M) → MatchingIf
  matching n = record { ifid = n.value.entry.ifid; port = n.value.entry.port }

  -- Chunks other than 0 are shared with filtering on: one data packet answers the interests of several.
  abbrev pub shared : Bool → Data M → Bool
  shared filtering d = filtering && not (d.chunk_id == 0)

  -- An entry waits for data that comes from `ifid`: it is of another interface, and, where the chunk is
  -- shared, of another node or of the local socket of the packet; where it is not, of the very socket
  -- and the issue time of the packet.
  abbrev pub waits : Bool → ℕ → Data M → PitEntry M → Bool
  waits filtering ifid d e =
      not (e.ifid == ifid)
      && ((shared filtering d && (not (e.ifid == 0) || (e.port == d.port)))
          || (not (shared filtering d)
              && ((e.port == d.port) && (e.interest_issue_time == d.interest_issue_time))))

  -- An entry that is served ends the service, unless it is that of another node for a shared chunk.
  abbrev pub alone : Bool → Data M → PitEntry M → Bool
  alone filtering d e = not (shared filtering d && not (e.ifid == 0))

  -- The entries that a data packet is for, among those of its chunk: those that wait for it, up to the
  -- first that is served alone.
  abbrev pub taken : Bool → ℕ → Data M → List (Slot (Named M)) → List (Slot (Named M))
  taken filtering ifid d [] = []
  taken filtering ifid d (n ∷ ns) =
      if waits filtering ifid d n.value.entry
      then n ∷ (if alone filtering d n.value.entry then [] else taken filtering ifid d ns)
      else taken filtering ifid d ns

  verdict_lem :
      (filtering : Bool) (ifid : ℕ) (d : Data M) (e : PitEntry M)
      → verdict filtering ifid d e ≡ (
          if waits filtering ifid d e
          then if alone filtering d e then take_last else take_on
          else skip)
  unfolding verdict
  verdict_lem filtering ifid d e = ground arith

  abbrev pub remove_all : List (Slot (Named M)) → List (Slot (Named M)) → List (Slot (Named M))
  remove_all [] l = l
  remove_all (n ∷ ns) l = remove_all ns (remove n.address l)

  -- The nodes of a range are different nodes of the table.
  abbrev Within : List (Slot (Named M)) → List (Slot (Named M)) → Type 0
  Within names [] = Unit {0}
  Within names (n ∷ ns) =
      (Slots.lookup n.address names ≡ some n) × (Slots.lookup n.address ns ≡ none) × Within names ns

  Within-remove :
      (names : List (Slot (Named M))) (a : ℕ) (ns : List (Slot (Named M)))
      → Distinct names
      → Slots.lookup a ns ≡ none
      → Within names ns
      → Within (remove a names) ns
  unfolding Slots.lookup
  Within-remove names a [] d h w = tt
  Within-remove names a (n ∷ ns) d h w = (
    ground (arith, lookup-remove a n.address names d),
    w.1,
    Within-remove names a ns d (ground arith) w.2,
  )

  -- An entry of the table is consumed: it goes from both stores, and the table stays in order.
  consume_lem :
      (p : PitTable M) (n : Slot (Named M))
      → IsTable p
      → Slots.lookup n.address p.by_name ≡ some n
      → (q : PitTable M) × (consume p n ≡ some (q, matching n))
        × IsTable q
        × (q.by_name ≡ remove n.address p.by_name)
        × SameSetup q p
  unfolding consume
  consume_lem p n v at =
      let it = n.value.entry.store_by_time_it in
      (
        record p { by_time = remove it p.by_time; by_name = remove n.address p.by_name },
        ground (
          arith,
          erase_name p.by_name p.by_time v.paired n.address n at,
          erase_time p.by_name p.by_time v.paired n.address n at,
        ),
        record {
          paired = removed-IsPaired p.by_name p.by_time v.paired n.address n at;
          sorted = Sorted-remove it p.by_time v.sorted;
          fresh_name = λ a h. ground (
            arith,
            lookup-remove n.address a p.by_name v.paired.distinct_names,
            v.fresh_name a h,
          );
          fresh_time = λ b h.
              ground
                (arith, lookup-remove it b p.by_time v.paired.distinct_times, v.fresh_time b h);
        },
        refl,
        (refl, refl, refl, refl),
      )

  out_loop_lem :
      (p : PitTable M) (ifid : ℕ) (d : Data M) (range : List (Slot (Named M)))
      (out : List MatchingIf)
      → IsTable p
      → Within p.by_name range
      → (q : PitTable M) × (out_loop p ifid d range out
          ≡ some (q, out ++ map matching (taken p.filtering ifid d range)))
        × IsTable q
        × (q.by_name ≡ remove_all (taken p.filtering ifid d range) p.by_name)
  unfolding out_loop
  out_loop_lem p ifid d [] out v w = (p, rw append-nil, v, refl)
  out_loop_lem p ifid d (n ∷ ns) out v w =
      let e = n.value.entry in
      let step = verdict_lem p.filtering ifid d e in
      elim (Bool-cases (waits p.filtering ifid d e)) [
        | inr past ↦
            let skipped : verdict p.filtering ifid d e ≡ skip = step ∙ rw past refl in
            let (q, eq, vq, nq) = out_loop_lem p ifid d ns out v w.2 in
            (q, rw (out_loop, skipped, past) eq, vq, rw past nq)
        | inl mine ↦
            let (p₁, e₁, v₁, n₁, (_, f₁, _, _)) = consume_lem p n v w.0 in
            elim (Bool-cases (alone p.filtering d e)) [
              | inl last ↦
                  let served : verdict p.filtering ifid d e ≡ take_last =
                    step ∙ rw (mine, last) refl in
                  (p₁, rw (out_loop, served, e₁, mine, last) refl, v₁, rw (mine, last) n₁)
              | inr on ↦
                  let served : verdict p.filtering ifid d e ≡ take_on = step ∙ rw (mine, on) refl in
                  let w₁ : Within p₁.by_name ns =
                    rw n₁ (Within-remove p.by_name n.address ns v.paired.distinct_names w.1 w.2) in
                  let (q, eq, vq, nq) = out_loop_lem p₁ ifid d ns (out ++ matching n ∷ []) v₁ w₁ in
                  (
                    q,
                    rw (out_loop, served, e₁, mine, on)
                        (rw
                          (
                            f₁,
                            append_assoc out (matching n ∷ [])
                                (map matching (taken p.filtering ifid d ns)),
                          )
                          at eq),
                    vq,
                    rw (mine, on) (rw (f₁, n₁) at nq),
                  )
            ]
      ]

  lookup-equal_range :
      (k : Text) (a : ℕ) (names : List (Slot (Named M)))
      → Slots.lookup a names ≡ none
      → Slots.lookup a (equal_range k names) ≡ none
  unfolding Slots.lookup equal_range
  lookup-equal_range k a [] h = refl
  lookup-equal_range k a (n ∷ ns) h = ground (arith, lookup-equal_range k a ns)

  Within-cons :
      (n : Slot (Named M)) (names ns : List (Slot (Named M)))
      → Slots.lookup n.address names ≡ none
      → Within names ns
      → Within (n ∷ names) ns
  unfolding Slots.lookup
  Within-cons n names [] h w = tt
  Within-cons n names (m ∷ ms) h w = (ground arith, w.1, Within-cons n names ms h w.2)

  Within-equal_range :
      (k : Text) (names : List (Slot (Named M)))
      → Distinct names
      → Within names (equal_range k names)
  unfolding equal_range
  Within-equal_range k [] d = tt
  Within-equal_range k (n ∷ ns) d =
      let rest = Within-cons n ns (equal_range k ns) d.0 (Within-equal_range k ns d.1) in
      let front : Slots.lookup n.address (n ∷ ns) ≡ some n = unfold Slots.lookup in ground arith in
      ground (arith, lookup-equal_range k n.address ns d.0)

  -- The entries of a data packet's chunk that are alive.
  abbrev pub waiting_for : PitTable M → Data M → ℕ → List (Slot (Named M))
  waiting_for p d now = equal_range (chunk_name d.content_name d.chunk_id) (live now p.by_name)

  -- In a table in order, `process_out` does not fault: it hands out the interfaces and ports of the
  -- entries alive of the chunk that wait for the packet, up to the first that is served alone, in the
  -- order of the table, takes just these out of the entries that are alive, and leaves the table in order.
  pub process_out-taken :
      (p : PitTable M) (ifid : ℕ) (d : Data M) (now : ℕ)
      → IsTable p
      → (q : PitTable M) × (process_out p ifid d now
          ≡ some (q, map matching (taken p.filtering ifid d (waiting_for p d now))))
        × IsTable q
        × (q.by_name
            ≡ remove_all (taken p.filtering ifid d (waiting_for p d now)) (live now p.by_name))
  unfolding process_out lookup
  process_out-taken p ifid d now v =
      let (p₁, e₁, v₁, live₁, (_, f₁, _, _)) = pit_clean-live p now v in
      let w =
        Within-equal_range (chunk_name d.content_name d.chunk_id) p₁.by_name
          v₁.paired.distinct_names in
      let (q, e, vq, nq) =
        out_loop_lem p₁ ifid d (equal_range (chunk_name d.content_name d.chunk_id) p₁.by_name) [] v₁
          w in
      (q, ground arith, vq, ground arith)

  -- The entries of other interfaces than the one that the packet came from, and of no local socket.
  abbrev pub remote : ℕ → List (Slot (Named M)) → List (Slot (Named M))
  remote ifid [] = []
  remote ifid (n ∷ ns) =
      if (n.value.entry.ifid == ifid) || (n.value.entry.ifid == 0)
      then remote ifid ns
      else n ∷ remote ifid ns

  -- An entry of the local socket that the packet is for.
  abbrev pub own : Data M → Slot (Named M) → Bool
  own d n = (n.value.entry.ifid == 0) && (n.value.entry.port == d.port)

  abbrev pub any_own : Data M → List (Slot (Named M)) → Bool
  any_own d [] = false
  any_own d (n ∷ ns) = own d n || any_own d ns

  pub taken-remote :
      (ifid : ℕ) (d : Data M) (range : List (Slot (Named M)))
      → 0 < d.chunk_id
      → any_own d range ≡ false
      → taken true ifid d range ≡ remote ifid range
  unfolding verdict
  taken-remote ifid d [] h o = refl
  taken-remote ifid d (n ∷ ns) h o = ground (arith, taken-remote ifid d ns h)

  pub taken-own :
      (ifid : ℕ) (d : Data M) (n : Slot (Named M)) (ns : List (Slot (Named M)))
      → 0 < d.chunk_id
      → 0 < ifid
      → own d n ≡ true
      → taken true ifid d (n ∷ ns) ≡ n ∷ []
  unfolding verdict
  taken-own ifid d n ns h k o = ground arith

  -- In a table in order with filtering on, the data of a chunk other than 0 that no entry of the
  -- packet's own local socket waits for goes to every other interface that waits for it, and the
  -- entries of these are all that goes from those alive.
  pub process_out-remote :
      (p : PitTable M) (ifid : ℕ) (d : Data M) (now : ℕ)
      → IsTable p
      → p.filtering ≡ true
      → 0 < d.chunk_id
      → any_own d (waiting_for p d now) ≡ false
      → (q : PitTable M) × (process_out p ifid d now
          ≡ some (q, map matching (remote ifid (waiting_for p d now))))
        × (q.by_name ≡ remove_all (remote ifid (waiting_for p d now)) (live now p.by_name))
  process_out-remote p ifid d now v on h o =
      let (q, e, _, n) = process_out-taken p ifid d now v in
      let same = taken-remote ifid d (waiting_for p d now) h o in (q, ground arith, ground arith)

  -- In a table in order with filtering on, take the data of a chunk other than 0 that comes from
  -- another node. Where the first entry alive for the chunk is that of the packet's local socket,
  -- it is served alone: every other entry that waits for the chunk stays.
  pub process_out-own :
      (p : PitTable M) (ifid : ℕ) (d : Data M) (now : ℕ) (n : Slot (Named M))
      (ns : List (Slot (Named M)))
      → IsTable p
      → p.filtering ≡ true
      → 0 < d.chunk_id
      → 0 < ifid
      → waiting_for p d now ≡ n ∷ ns
      → own d n ≡ true
      → (q : PitTable M) × (process_out p ifid d now ≡ some (q, matching n ∷ []))
        × (q.by_name ≡ remove n.address (live now p.by_name))
  process_out-own p ifid d now n ns v on h k w o =
      let (q, e, _, r) = process_out-taken p ifid d now v in
      let same = taken-own ifid d n ns h k o in (q, ground arith, ground arith)
