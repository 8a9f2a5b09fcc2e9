-- ===== src/Lib.antt =====
-- ccnpl-sim: a packet-level simulator of content-centric networks (tags/cbcbsim-1.0.2) over a
-- simulator of content-based networks (tags/cbnsim-1.1.3).
--
-- A node answers an interest in a chunk of a content from its cache, or records it in its table of
-- pending interests and forwards it. The data packet that comes back is put into the cache and goes
-- to the interfaces that the table names, each through an output queue on its link. Routes to the
-- publishers come from broadcast trees. A workload file says what the nodes do and when.
--
-- The files and the code they model, under tags/cbcbsim-1.0.2 where no other path is given:
--   Prelude     lists, Boolean tests, signed integers, 32-bit words (`unsigned int`) and texts
--               (`std::string`, compared as `==` does, and printed numbers).
--   Packets     include/cbcbsim/CCNxPackets.h: CCNxPacket, INTEREST, DATA, INFO and the
--               constructors that make one packet from another.
--   Queue       src/OutputQueue.cc, include/cbcbsim/OutputQueue.h. Fifo is FIFO (enqueue, transmit,
--               dequeue, drop) with the handler CBCBNode::dequeue_packet; FairQueue is FQ, and
--               VirtualQueue a flow of it; Turns and Departure are about FQ's departures and
--               overflow, Flow about a flow's length. Link runs a FIFO queue on arrivals and
--               departures, beside an abstract pipe.
--   Cache       src/CacheLRU.cc, src/CacheRND.cc. Store has the two stores of a cache and what both
--               classes share, Nodes the linked list, Lru and Rnd search_by_name and add_in_cache.
--               Invariant says that the stores point into each other; Recency is the abstract
--               cache, Again about the additions of one chunk for several entries.
--   Pit         src/PITable.cc. Slots has the containers, Table the operations record_interest,
--               lookup, PIT_clean, process_out, consume_PIT_entry and registration_time.
--   Mst         src/MSTBroadcastLayer.cc. Layer has addLink, addNode, the spanning tree of
--               computePaths and visit, Paths the rest of computePaths, getChildren, getParent and
--               getHopCount, about which Hops is.
--   Spt         src/SPTsBroadcastLayer.cc. Heap is min_ndescr_heap, Table NTable with its
--               descriptors, Dijkstra and Single the two functions dijkstra, Layer computePaths up to
--               its last loop with the functions that read the trees, Alternative that loop,
--               computeAlternativePaths and getNext. Order, Sink and Queue are about the heap, Graph
--               and Entered about the table, Relaxed and Shortest about the search, Loop, Rows, Links,
--               Parents, Pairs and Trees about the trees, Numbering and Disjoint about alternative
--               paths.
--   Routing     src/CBCBNode.cc: the predicates. Table has the state and update_route_table, Protocol
--               process_ra, process_sr, process_ur, set_predicate and set_multipath with what they
--               call, over the trees of Spt. Covers is about the route table.
--   Socket      src/Socket.cc, SocketManager.cc, ICP.cc, FlowControllerAIMD.cc, CBR.cc, RTTstats.cc
--               and their headers. Chunks is Socket, Manager SocketManager over the interface
--               Controller (FlowController), which Window fills with ICP and CBR; Rtt is RTTstats.
--               Choice is about select_chunk, Flags, Progress, Receipt and Completion about what is
--               received, Requests about get_interested_chunk, Expiry about receiver_TO, Pacing and
--               Within about the window, Start about a new download.
--   Node        src/CBCBNode.cc, CCNxNode.cc, LoadBalancing.cc. Balance is LoadBalancing, State a
--               node with its cache, its table and its downloads, Forward process_interest,
--               Download the operations of CCNxNode on downloads, Arrival process_data,
--               receiver_TO, receiver_CBR and download_content. Answer, Transit, Reception, Managed
--               and Ports put the theorems of the components together.
--   Random      tags/cbnsim-1.1.3/Crandom.cc: rnd32.
--   Workload    tags/cbnsim-1.1.3/WorkloadParser.cc. Lexer has the classes of words, Stream advance,
--               eat and the parsers of the times, Events next_event and the event parsers beside
--               it (SetPredicateParser.cc and the others); Words, Comments, Progress and Ending are
--               about how far they read.
--
-- How code is modelled. An `unsigned int` is a natural number below 2^32 with its wrap-around
-- written out. An iterator is the address of a node of a store, which is not used twice, or the
-- key of an entry of a map. An
-- access outside of a vector, through the end of a container or at a dangling iterator is a fault,
-- the value `none`. Hash tables are functions, or lists whose order a parameter chooses. The clock
-- and the values of `rand()` are arguments. Simulation times are ticks, natural numbers.
--
-- A handler of a node returns the new node and its effects in order: packets for the output queues,
-- packets signalled to neighbours and timers. What it takes from its surroundings is the record
-- `Env`: the clock, the place of a new entry in a hash table by its address, the values of `rand()`
-- (`pick` for the choice of a chunk, by the number of chunks left, which falls between two calls;
-- `rands` for each addition to the cache), and what the siena library answers for a message: the
-- interfaces that match, the length of the match, and the values of its attributes.
--
-- In Spt a length and a distance are natural numbers, exact where the code has a `double`, and `top`
-- is the infinite distance; a negative length and the rounding of sums are not modelled. In Routing
-- the operations on predicates are parameters; the laws that are assumed of them are that a sum
-- covers what was added and what was covered before. SR and UR packets are given to `issue_packet`,
-- whose body is empty, and so are not sent.
--
-- Fuel: the eviction loop of CacheLRU takes one unit for each round, and one more than there are
-- stored chunks is enough, since every round takes a chunk out. `advance` takes one for each
-- comment, and one more than there are bytes left is enough. `get_hop_count` takes one for each
-- call within a call, and one more than there are nodes is enough. `select_loop` takes as many
-- units as chunks are left, since every round but the last takes one out; `free_port` one more than
-- there are downloads, since different ports have different addresses. `fill_window` takes one for
-- each free slot, as the loop does. `visit` and the fair queue's `dequeue` take one for each call
-- within a call; what is said of them holds whatever the fuel. In Spt, `heapify` and `rise` take one
-- for each place that they pass, the searches one more than there are nodes, the last for the test
-- that ends the loop, `follow` as many as there are nodes, and
-- `compute_alternative_paths` one more than there are edges left, since every path takes one away.
-- The loops of the event parsers take two more than there are bytes left, since every round reads
-- on; `skip_event` and `next_event` take one for each round.
--
-- Not modelled: the messages and predicates of the siena library and the simulator's event loop,
-- which are code of others (`M` is the type of messages; events are returned as signals); averages
-- and rates in floating point, and with them RAQM and RAQMsource; output and logging; the packets
-- that carry messages by predicates (ME), and the nodes that code or differentiate; the delivery
-- oracle and the workload generator.
pub mod Prelude
pub mod Packets
pub mod Queue
pub mod Cache
pub mod Pit
pub mod Socket
pub mod Node
pub mod Random
pub mod Mst
pub mod Spt
pub mod Routing
pub mod Workload
mod Tests
