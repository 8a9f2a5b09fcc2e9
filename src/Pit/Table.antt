-- ===== src/Pit/Table.antt =====
-- `PITable` of tags/cbcbsim-1.0.2/src/PITable.cc and include/cbcbsim/PITable.h.
--
-- The clock of the simulation is an argument `now`. The place where the hash table puts a new entry
-- among the others is an argument too. A fault (`none`) is an erasure at a dangling iterator.
use ccnpl_sim.Prelude.{
  ℕ, suc, ◌+◌, ◌==◌, leb, ltb, not, if◌then◌else◌, Bool, true, false, ◌&&◌, ◌||◌, List, [], ◌∷◌,
  ◌++◌, Option, none, some, Text, text_eq, codes, decimal,
}
use ccnpl_sim.Packets.{Interest, Data}
use ccnpl_sim.Pit.Slots.{Slot, erase, insert_at}

-- `PIT_entry`.
pub record PitEntry (M : Type 0) : Type 0 where
  pub ifid : ℕ
  pub time : ℕ
  pub chunk_id : ℕ
  pub interest_issue_time : ℕ
  pub msg : M
  pub data_size : ℕ
  pub port : ℕ
  pub content_name : Text
  -- The iterator into the store by time.
  pub store_by_time_it : ℕ

-- A node of `store_by_name_PIT`: its key and its entry.
pub record Named (M : Type 0) : Type 0 where
  pub key : Text
  pub entry : PitEntry M

-- A node of `store_by_time_PIT`: its time and its iterator into the store by name.
pub record Timed : Type 0 where
  pub until : ℕ
  pub name_it : ℕ

pub record PitTable (M : Type 0) : Type 0 where
  pub by_name : List (Slot (Named M))
  pub by_time : List (Slot Timed)
  pub timer : ℕ
  pub filtering : Bool
  pub next_name : ℕ
  pub next_time : ℕ

-- `matching_if`.
pub record MatchingIf : Type 0 where
  pub ifid : ℕ
  pub port : ℕ

-- The key of a chunk: the content's name, a slash and the chunk id in decimal.
unfoldable pub chunk_name : Text → ℕ → Text
chunk_name name chunk = name ++ (codes "/" ++ decimal chunk)

-- Where `multimap::insert` puts a time: after those that are not later.
unfoldable pub upper_bound : ℕ → List (Slot Timed) → ℕ
upper_bound t [] = 0
upper_bound t (n ∷ ns) = if leb n.value.until t then suc (upper_bound t ns) else 0

-- What the loop of `process_out` does at an entry.
pub data Verdict : Type 0 where
  skip take_on take_last : Verdict

module _ {M : Type 0} where
  -- The loop of `PIT_clean` over the store by time.
  unfoldable pub clean_loop :
      ℕ
      → List (Slot Timed)
      → List (Slot (Named M))
      → Option (List (Slot Timed) × List (Slot (Named M)))
  clean_loop now [] names = some ([], names)
  clean_loop now (t ∷ ts) names =
      if leb t.value.until now
      then (elim (erase t.value.name_it names) [
        | none ↦ none
        | some names' ↦ clean_loop now ts names'
      ])
      else some (t ∷ ts, names)

  unfoldable pub pit_clean : PitTable M → ℕ → Option (PitTable M)
  pit_clean p now = elim (clean_loop now p.by_time p.by_name) [
    | none ↦ none
    | some (times, names) ↦ some (record p { by_time = times; by_name = names })
  ]

  -- `equal_range`: the nodes of a key, in the order of the table.
  unfoldable pub equal_range : Text → List (Slot (Named M)) → List (Slot (Named M))
  equal_range k [] = []
  equal_range k (n ∷ ns) = if text_eq n.value.key k then n ∷ equal_range k ns else equal_range k ns

  -- `PITable::lookup`: the expired entries go first.
  unfoldable pub lookup : PitTable M → Text → ℕ → ℕ → Option (PitTable M × List (Slot (Named M)))
  lookup p name chunk now = elim (pit_clean p now) [
    | none ↦ none
    | some p' ↦ some (p', equal_range (chunk_name name chunk) p'.by_name)
  ]

  -- The loop of `record_interest` over the matching entries: whether one matches, whether to record
  -- the interest, and until when.
  unfoldable pub scan :
      Bool → ℕ → Option ℕ → List (Slot (Named M)) → Bool → Bool → ℕ → Bool × Bool × ℕ
  scan filtering ifid socket [] matched record' until = (matched, record', until)
  scan filtering ifid socket (n ∷ ns) matched record' until =
      let e = n.value.entry in
      if not (e.chunk_id == 0) && (filtering && not (ifid == 0))
      then (true, record', e.time)
      else (elim socket [
        | none ↦ scan filtering ifid socket ns matched record' until
        | some port ↦
            let own = (ifid == 0) && (e.port == port) in
            scan filtering ifid socket ns (own || matched) (not own && record') until
      ])

  -- The new entry in both stores, each with an iterator into the other.
  unfoldable pub insert_entry : PitTable M → ℕ → ℕ → ℕ → Interest M → PitTable M
  insert_entry p slot ifid until i = record p {
    by_name =
        insert_at slot
          (record {
            address = p.next_name;
            value = record {
              key = chunk_name i.content_name i.chunk_id;
              entry = record {
                ifid = ifid;
                time = until;
                chunk_id = i.chunk_id;
                interest_issue_time = i.issue_time;
                msg = i.msg;
                data_size = i.data_size;
                port = i.port;
                content_name = i.content_name;
                store_by_time_it = p.next_time;
              };
            };
          })
          p.by_name;
    by_time =
        insert_at (upper_bound until p.by_time)
          (record {
            address = p.next_time;
            value = record { until = until; name_it = p.next_name };
          })
          p.by_time;
    next_name = suc p.next_name;
    next_time = suc p.next_time;
  }

  -- `PITable::record_interest`; `socket` is the port of the local socket, if there is one.
  unfoldable pub record_interest :
      PitTable M → ℕ → Interest M → Option ℕ → ℕ → ℕ → Option (PitTable M × Bool)
  record_interest p ifid i socket now slot = elim (lookup p i.content_name i.chunk_id now) [
    | none ↦ none
    | some (p', range) ↦
        let (matched, record', until) =
          scan p'.filtering ifid socket range false true (now + p'.timer) in
        some (if record' then insert_entry p' slot ifid until i else p', matched)
  ]

  -- `consume_PIT_entry`: the interface and the port of the entry; the entry goes from both stores.
  unfoldable pub consume : PitTable M → Slot (Named M) → Option (PitTable M × MatchingIf)
  consume p n = elim (erase n.value.entry.store_by_time_it p.by_time) [
    | none ↦ none
    | some times ↦ (elim (erase n.address p.by_name) [
      | none ↦ none
      | some names ↦ some (
        record p { by_time = times; by_name = names },
        record { ifid = n.value.entry.ifid; port = n.value.entry.port },
      )
    ])
  ]

  unfoldable pub verdict : Bool → ℕ → Data M → PitEntry M → Verdict
  verdict filtering ifid d e =
      if e.ifid == ifid
      then skip
      else if (d.chunk_id == 0) || not filtering
      then if (e.interest_issue_time == d.interest_issue_time) && (d.port == e.port)
        then take_last
        else skip
      else if e.ifid == 0
      then if e.port == d.port then take_last else skip
      else take_on

  -- The loop of `process_out` over the matching entries.
  unfoldable pub out_loop :
      PitTable M
      → ℕ
      → Data M
      → List (Slot (Named M))
      → List MatchingIf
      → Option (PitTable M × List MatchingIf)
  out_loop p ifid d [] out = some (p, out)
  out_loop p ifid d (n ∷ ns) out = elim (verdict p.filtering ifid d n.value.entry) [
    | skip ↦ out_loop p ifid d ns out
    | take_on ↦ (elim (consume p n) [
      | none ↦ none
      | some (p', m) ↦ out_loop p' ifid d ns (out ++ m ∷ [])
    ])
    | take_last ↦ (elim (consume p n) [ none ↦ none | some (p', m) ↦ some (p', out ++ m ∷ []) ])
  ]

  -- `PITable::process_out`.
  unfoldable pub process_out : PitTable M → ℕ → Data M → ℕ → Option (PitTable M × List MatchingIf)
  process_out p ifid d now = elim (lookup p d.content_name d.chunk_id now) [
    | none ↦ none
    | some (p', range) ↦ out_loop p' ifid d range []
  ]

  -- The loop of `registration_time`.
  unfoldable pub oldest : ℕ → List (Slot (Named M)) → ℕ → ℕ
  oldest ifid [] reg = reg
  oldest ifid (n ∷ ns) reg =
      let e = n.value.entry in
      oldest ifid ns (
        if (e.ifid == ifid) || (e.ifid == 0)
        then reg
        else if ltb e.interest_issue_time reg
        then e.interest_issue_time
        else reg)

  -- `PITable::registration_time`.
  unfoldable pub registration_time : PitTable M → ℕ → Data M → ℕ → Option (PitTable M × ℕ)
  registration_time p ifid d now = elim (lookup p d.content_name d.chunk_id now) [
    | none ↦ none
    | some (p', range) ↦ some (p', oldest ifid range now)
  ]
