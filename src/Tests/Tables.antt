-- ===== src/Tests/Tables.antt =====
-- The table of PITable.cc with two interests in one chunk.
use ccnpl_sim.Prelude.{ℕ, ◌≡◌, refl, true, [], ◌∷◌, none, some, codes, arith}
use ccnpl_sim.Prelude.Texts.{text_eq, digits, decimal}
use ccnpl_sim.Packets.{Data, Interest}
use ccnpl_sim.Pit.Slots.{lookup, remove, insert_at}
use ccnpl_sim.Pit.Table.{
  registration_time, PitTable, pit_clean, record_interest, process_out, verdict, insert_entry,
  upper_bound, chunk_name, equal_range,
}
use ccnpl_sim.Pit.Clean.{IsTable, SameSetup, live, pit_clean-live}
use ccnpl_sim.Pit.Record.{
  new_entry, insert_entry-IsTable, record_interest-remote, record_interest-local,
}
use ccnpl_sim.Pit.Times.{IsEarliest, registration_time-IsEarliest}
use ccnpl_sim.Pit.Out.{waiting_for, process_out-taken, process_out-own}

abbrev pub film : ℕ → ℕ → Interest ℕ
film issued port = record {
  packet = record {
    sender = 8;
    chunk_id = 1;
    content_name = codes "film";
    size = 200;
    msg = 0;
    port = port;
    popularity_class = 0;
    content_size = 3;
    source = [];
  };
  issue_time = issued;
  data_size = 2000;
}

abbrev pub answer : ℕ → Data ℕ
answer port = record {
  packet = record {
    sender = 4;
    chunk_id = 1;
    content_name = codes "film";
    size = 2000;
    msg = 0;
    port = port;
    popularity_class = 0;
    content_size = 3;
    source = [];
  };
  interest_issue_time = 0;
}

abbrev pub empty : PitTable ℕ
empty = record {
  by_name = [];
  by_time = [];
  timer = 10;
  filtering = true;
  next_name = 0;
  next_time = 0;
}

empty-IsTable : IsTable empty
unfolding lookup
empty-IsTable = record {
  paired = record {
    distinct_names = tt;
    distinct_times = tt;
    timed = λ a n e. cc;
    named = λ b t e. cc;
  };
  sorted = tt;
  fresh_name = λ a h. refl;
  fresh_time = λ b h. refl;
}

-- The interest of the local socket of port 9, until the time 10, and that of interface 2, until 13.
abbrev pub one : PitTable ℕ
one = insert_entry empty 0 0 10 (film 0 9)

one-IsTable : IsTable one
one-IsTable = insert_entry-IsTable empty empty-IsTable 0 0 10 (film 0 9)

abbrev pub two : PitTable ℕ
two = insert_entry one 1 2 13 (film 3 0)

pub two-IsTable : IsTable two
two-IsTable = insert_entry-IsTable one one-IsTable 1 2 13 (film 3 0)

pit_clean-live_example :
    (p' : PitTable ℕ) × (pit_clean two 11 ≡ some p')
    × IsTable p'
    × (p'.by_name ≡ live 11 two.by_name)
    × SameSetup p' two
pit_clean-live_example = pit_clean-live two 11 two-IsTable

record_interest-remote_example :
    (q : PitTable ℕ) × (record_interest two 5 (film 4 0) none 4 0 ≡ some (q, true))
    × IsTable q
    × (q.by_name ≡ insert_at 0 (new_entry two 5 10 (film 4 0)) two.by_name)
unfolding insert_entry insert_at upper_bound chunk_name equal_range text_eq decimal digits
record_interest-remote_example =
    record_interest-remote two 5 (film 4 0) 4 0 two-IsTable refl (omega arith)

record_interest-local_example :
    (q : PitTable ℕ) × (record_interest two 0 (film 4 9) (some 9) 4 0 ≡ some (q, true))
    × IsTable q
    × (q.by_name ≡ two.by_name)
unfolding insert_entry insert_at upper_bound chunk_name equal_range text_eq decimal digits
record_interest-local_example = record_interest-local two 9 (film 4 9) 4 0 two-IsTable

process_out-taken_example :
    (q : PitTable ℕ) × (process_out two 5 (answer 9) 4
      ≡ some (q, record { ifid = 0; port = 9 } ∷ []))
    × IsTable q
    × (q.by_name ≡ new_entry one 2 13 (film 3 0) ∷ [])
unfolding insert_entry insert_at upper_bound chunk_name equal_range text_eq decimal digits remove
    verdict
process_out-taken_example = process_out-taken two 5 (answer 9) 4 two-IsTable

process_out-own_example :
    (q : PitTable ℕ) × (process_out two 5 (answer 9) 4
      ≡ some (q, record { ifid = 0; port = 9 } ∷ []))
    × (q.by_name ≡ new_entry one 2 13 (film 3 0) ∷ [])
unfolding insert_entry insert_at upper_bound chunk_name equal_range text_eq decimal digits remove
process_out-own_example =
    process_out-own two 5 (answer 9) 4 (new_entry empty 0 10 (film 0 9))
      (new_entry one 2 13 (film 3 0) ∷ []) two-IsTable refl (omega arith) (omega arith) refl refl

registration_time-IsEarliest_example :
    (q : PitTable ℕ) × (t : ℕ) × (registration_time two 5 (answer 9) 4 ≡ some (q, t))
    × IsTable q
    × (q.by_name ≡ live 4 two.by_name)
    × IsEarliest 5 4 t (waiting_for two (answer 9) 4)
registration_time-IsEarliest_example = registration_time-IsEarliest two 5 (answer 9) 4 two-IsTable
