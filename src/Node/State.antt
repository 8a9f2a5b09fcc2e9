-- ===== src/Node/State.antt =====
-- `CCNxNode` and the forwarding part of `CBCBNode` (tags/cbcbsim-1.0.2/src/CCNxNode.cc, CBCBNode.cc)
-- as a state, and what a handler of a packet does to the world.
--
-- What is handed to an output queue or signalled to a neighbour is a list of effects, in order: no
-- handler reads a queue. Hit and miss counts, averages and the text printed are left out. The
-- matching interfaces of a message, in order, with the length of the match, and the values of a
-- message's attributes come from the siena library: they are fields of the environment.
use ccnpl_sim.Prelude.{
  ℕ, zero, suc, ◌==◌, if◌then◌else◌, Bool, false, ◌||◌, List, [], ◌∷◌, ◌++◌, Option, none, some,
  Text, text_eq, codes, decimal, length,
}
use ccnpl_sim.Packets.{Interest, Data, Info, ServedContent, data_of_interest, info_of_served}
use ccnpl_sim.Cache.Lru.{CacheLru}
use ccnpl_sim.Cache.Rnd.{CacheRnd}
use ccnpl_sim.Cache.Lru
use ccnpl_sim.Cache.Rnd
use ccnpl_sim.Pit.Table.{PitTable}
use ccnpl_sim.Socket.Manager.{Manager, Timer}
use ccnpl_sim.Node.Balance.{PrefixTable, Choice}

pub data Packet (M : Type 0) : Type 0 where
  interest : Interest M → Packet M
  data_packet : Data M → Packet M
  info : Info M → Packet M

-- Handed to the output queue of an interface; signalled to its neighbour after the link's delay
-- alone; a `ReceiverTO` event of a download's address and start; or a `ReceiverCBR` event of an
-- interface, an address and a start, whose lag, the inverse of a rate, is left out.
pub data Effect (M : Type 0) : Type 0 where
  queued direct : ℕ → Packet M → Effect M
  timer : Text → ℕ → Timer → Effect M
  cbr_timer : ℕ → Text → ℕ → Effect M

-- The options of the replacement: none, `CacheLRU` or `CacheRND`.
pub data ContentStore (M : Type 0) : Type 0 where
  no_cache : ContentStore M
  lru : CacheLru M → ContentStore M
  rnd : CacheRnd M → ContentStore M

-- The options of the simulation that a node reads.
pub record NodeOptions : Type 0 where
  -- The limit of requests of a chunk, and whether flow control is `fc_CBR`.
  pub to_limit : ℕ
  pub cbr_control : Bool

pub record Node (M C : Type 0) : Type 0 where
  pub id : ℕ
  pub options : NodeOptions
  pub served : Text → Option ServedContent
  pub store : ContentStore M
  pub pit : PitTable M
  pub balance : PrefixTable
  pub sockets : List (Text × Manager M C)

-- What a handler takes from its surroundings: the clock, the place of a new entry in the table of
-- pending interests by its address, the values of `rand()` for each addition to the cache and for the
-- choice of a chunk, the choice of an interface, and the siena library.
pub record Env (M : Type 0) : Type 0 where
  pub now : ℕ
  pub slot : ℕ → ℕ
  pub rands : ℕ → List ℕ
  pub pick : ℕ → ℕ
  pub choice : Choice
  pub matches : M → List ℕ
  pub match_len : M → ℕ
  pub values : M → List Text

abbrev pub member : ℕ → List ℕ → Bool
member a [] = false
member a (b ∷ bs) = (b == a) || member a bs

-- `CCNxNode::content_name` of a message, with the values of its attributes in order: the first so
-- many, each behind a slash.
abbrev pub content_name : List Text → ℕ → Text
content_name [] an = []
content_name (v ∷ vs) zero = []
content_name (v ∷ vs) (suc an) = codes "/" ++ (v ++ content_name vs an)

-- The name of a download: the content's name and the port in decimal.
abbrev pub socket_address : Text → ℕ → Text
socket_address name port = name ++ (codes "/port:" ++ decimal port)

module _ {M : Type 0} where
  -- `CCNxNode::search_in_cache`.
  unfoldable pub search_in_cache :
      ContentStore M → Interest M → ℕ → Option (ContentStore M × Option (Data M))
  search_in_cache no_cache i now = some (no_cache, none)
  search_in_cache (lru c) i now = elim (Lru.search_by_name c i now) [
    | none ↦ none
    | some (c', answer) ↦ some (lru c', answer)
  ]
  search_in_cache (rnd c) i now = elim (Rnd.search_by_name c i) [
    | none ↦ none
    | some (c', answer) ↦ some (rnd c', answer)
  ]

  -- `CCNxNode::add_in_cache`. The fuel of the eviction loop is one more than there are chunks.
  unfoldable pub add_in_cache : ContentStore M → Data M → ℕ → List ℕ → Option (ContentStore M)
  add_in_cache no_cache d now rands = some no_cache
  add_in_cache (lru c) d now rands = elim (Lru.add_in_cache (suc (length c.by_time)) c d now) [
    | none ↦ none
    | some (c', _) ↦ some (lru c')
  ]
  add_in_cache (rnd c) d now rands = elim (Rnd.add_in_cache rands c d) [
    | none ↦ none
    | some (c', _) ↦ some (rnd c')
  ]

-- `set_source`.
abbrev pub with_source : {M : Type 0} → Data M → Text → Data M
with_source d source = record d { packet = record (d.packet) { source = source } }

module _ {M C : Type 0} where
  -- `CCNxNode::manage_interest`, with the source that `process_interest` sets: the `INFO` of a served
  -- content for chunk 0, nothing if it is not served, and the chunk itself for another.
  unfoldable pub manage_interest : Node M C → Interest M → Option (Packet M)
  unfolding info_of_served data_of_interest
  manage_interest n i =
      if i.chunk_id == 0
      then (elim (n.served i.content_name) [
        | none ↦ none
        | some content ↦
            let packet = info_of_served n.id i.content_name i.msg i.issue_time content in
            some (info (record packet { base = with_source (packet.base) (decimal n.id) }))
      ])
      else some (data_packet (with_source (data_of_interest n.id i) (decimal n.id)))

  -- The download of an address: the lookup, a write and `erase`.
  unfoldable pub find_socket : Text → List (Text × Manager M C) → Option (Manager M C)
  find_socket a [] = none
  find_socket a ((b, m) ∷ l) = if text_eq b a then some m else find_socket a l

  unfoldable pub put_socket :
      Text → Manager M C → List (Text × Manager M C) → List (Text × Manager M C)
  put_socket a m [] = []
  put_socket a m ((b, o) ∷ l) = if text_eq b a then (b, m) ∷ l else (b, o) ∷ put_socket a m l

  unfoldable pub erase_socket : Text → List (Text × Manager M C) → List (Text × Manager M C)
  erase_socket a [] = []
  erase_socket a ((b, o) ∷ l) = if text_eq b a then l else (b, o) ∷ erase_socket a l
