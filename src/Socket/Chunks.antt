-- ===== src/Socket/Chunks.antt =====
-- `Socket` of tags/cbcbsim-1.0.2/src/Socket.cc and include/cbcbsim/Socket.h: the chunks of a download.
--
-- A set of chunk ids is a list in order. A fault (`none`) is an access outside of the vector of
-- chunks. The value of `rand()` when so many chunks are left is a function of their number, which
-- falls from one call to the next; `pick` is that function, and constantly 0 for requests in order.
use ccnpl_sim.Prelude.{
  ℕ, zero, suc, ◌+◌, ◌%◌, ◌==◌, ltb, not, if◌then◌else◌, Bool, false, ◌&&◌, List, [], ◌∷◌, Option,
  none, some, Text, get_elem?, set, length, replicate,
}
use ccnpl_sim.Packets.{Info}

-- `chunk_info`.
pub record ChunkInfo : Type 0 where
  pub received : Bool
  pub chunk_rtt : ℕ
  pub chunk_retrieving_time : ℕ
  pub chunk_request : ℕ
  pub chunk_timeout : ℕ

pub record Socket (M : Type 0) : Type 0 where
  pub id : ℕ
  pub content_name : Text
  pub msg : M
  pub tot_filesize : ℕ
  pub chunk_size : ℕ
  pub start_time : ℕ
  pub port : ℕ
  pub popularity_class : ℕ
  pub vrtt : ℕ
  pub delay : ℕ
  pub filesize : ℕ
  pub received_count : ℕ
  pub file_chunks : List ChunkInfo
  pub notreq_chunks : List ℕ
  pub missing_chunks : List ℕ

abbrev pub new_chunk : ChunkInfo
new_chunk = record {
  received = false;
  chunk_rtt = 0;
  chunk_retrieving_time = 0;
  chunk_request = 0;
  chunk_timeout = 0;
}

-- The ids from a number on.
unfoldable pub ids_from : ℕ → ℕ → List ℕ
ids_from start zero = []
ids_from start (suc n) = start ∷ ids_from (suc start) n

-- `set::erase` by value.
unfoldable pub erase_id : ℕ → List ℕ → List ℕ
erase_id a [] = []
erase_id a (b ∷ bs) = if b == a then bs else b ∷ erase_id a bs

module _ {M : Type 0} where
  -- `Socket::Socket`, with an entry for chunk 0 and one for each chunk of the content.
  unfoldable pub new_socket : ℕ → Info M → ℕ → ℕ → Socket M
  new_socket id info port now = record {
    id = id;
    content_name = info.content_name;
    msg = info.msg;
    tot_filesize = info.content_size;
    chunk_size = info.data_chunk_size;
    start_time = now;
    port = port;
    popularity_class = info.popularity_class;
    vrtt = 0;
    delay = 0;
    filesize = 0;
    received_count = 0;
    file_chunks = replicate (suc (info.content_size)) new_chunk;
    notreq_chunks = ids_from 0 (suc (info.content_size));
    missing_chunks = ids_from 0 (suc (info.content_size));
  }

  unfoldable pub remove_notreq : Socket M → ℕ → Socket M
  remove_notreq s chunk = record s { notreq_chunks = erase_id chunk s.notreq_chunks }

  -- `Socket::select_chunk`: chunks that cannot be asked for go until one can. The fuel is the number
  -- of chunks that are left.
  unfoldable pub select_loop : ℕ → (ℕ → ℕ) → ℕ → Socket M → Option (Socket M × Option ℕ)
  select_loop zero pick to_limit s = some (s, none)
  select_loop (suc fuel) pick to_limit s =
      let left = length s.notreq_chunks in
      (elim (get_elem? s.notreq_chunks (pick left % left)) [
        | none ↦ none
        | some chunk ↦ (elim (get_elem? s.file_chunks chunk) [
          | none ↦ none
          | some c ↦
              let on = select_loop fuel pick to_limit (remove_notreq s chunk) in
              if not (c.received) && ltb c.chunk_request to_limit then some (s, some chunk) else on
        ])
      ])

  unfoldable pub select_chunk : (ℕ → ℕ) → ℕ → Socket M → Option (Socket M × Option ℕ)
  unfolding select_loop
  select_chunk pick to_limit s = select_loop (length s.notreq_chunks) pick to_limit s

  -- `Socket::requested_chunk`.
  unfoldable pub requested_chunk : Socket M → ℕ → ℕ → Option (Socket M)
  requested_chunk s chunk now = elim (get_elem? s.file_chunks chunk) [
    | none ↦ none
    | some c ↦ some (record s {
      file_chunks = set s.file_chunks chunk (record c {
        chunk_retrieving_time = if c.chunk_request == 0 then now else c.chunk_retrieving_time;
        chunk_rtt = now;
        chunk_request = c.chunk_request + 1;
      });
    })
  ]

  -- `check_received`.
  unfoldable pub check_received : Socket M → ℕ → Option Bool
  check_received s chunk = elim (get_elem? s.file_chunks chunk) [
    | none ↦ none
    | some c ↦ some (c.received)
  ]
