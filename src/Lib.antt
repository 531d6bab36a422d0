-- ===== src/Lib.antt =====
-- A verification library for the limit order book and exchange simulator.
--
-- The program keeps price-time ordered books (src/core/order_book.cpp), matches the commands of
-- clients against them (src/trading/engine.cpp), and sends events between processes in frames of
-- bytes (src/net/protocol.cpp, src/trading/messages.cpp); a client rebuilds the books from the
-- public updates (src/trading/replica.cpp). Paths are from the root of the repository.
--
-- Files:
--   Base, Map: numbers, lists, and the association lists that stand for the std::map and
--     std::unordered_map of the code. A map of the code is a list of pairs in the order of its keys.
--   Types: include/order_book/core/types.hpp and events.hpp. `Side.other` is a byte that no
--     enumerator names. Identifiers, prices and quantities are numbers; that a quantity has 32 bits is
--     a hypothesis where it counts, and sums of `std::uint64_t` wrap.
--   Book: src/core/order_book.cpp and its header. Book/State is the state, Book/Apply the three
--     events, Book/Replace the replacement, Book/Queries the queries, Book/Validate
--     `validate_invariants`. The iterator that the index keeps is the number of the list node,
--     given in the order of allocation. Whether a node of the level map, of the queue or of the
--     index can be allocated is an argument (`Allocation`), and the rollback of the code is
--     written out. Book/Spec is the abstract map of orders; Book/Consistent, Levels, Nodes and
--     Invariant the invariant; Book/Effects, Refine, Accepts, Reachable and Rollback the theorems.
--   Trading/Messages: include/order_book/trading/messages.hpp. Enumerations other than `Side` take
--     only their enumerators.
--   Trading/Engine: src/trading/engine.cpp. State is the state of `MatchingEngine` with
--     `report`, `update` and `reject`; Position is `Position::fill`; Risk the checks at the head
--     of `submit`; Plan the fills that `submit` plans; Submit the rest of it; Process `process`,
--     `cancel` and the constructor; Snapshot the snapshot; Validate `validate_invariants`;
--     Fingerprint `config_fingerprint`. `none` is an exception, after which the host stops and
--     uses no state. Numbering, Requests and Plan/* are the theorems. The counters of sequence,
--     response, order and trade numbers wrap at 64 bits.
--   Net: src/net/protocol.cpp. A frame is a function from the offset to the byte.
--   Registry: include/order_book/core/order_registry.hpp, without its logger. Laws are the theorems.
--   LfQueue: include/order_book/core/lfqueue.hpp. The calls as functions, and Steps their accesses to
--     shared memory, of one producer and one consumer that interleave; the memory orders are not
--     modelled, both threads see one memory. Indices wrap at 64 bits; `& MASK` is the remainder by
--     SIZE, a power of two. Slots, Fifo, Threads, Moves, Sound and Calls are the theorems.
--   SlotPool: include/order_book/memory/fixed_slot_pool.hpp, and Adaptor its allocator_adaptor.hpp.
--     `std::align` is the distance to the next multiple. Layout is the invariant; Counting, Allocate,
--     Outcome, First, Release, Reuse and Calls the theorems.
--   EventIo: src/io/event_io.cpp. A line is a list of bytes. Numbers, Decimal, Fields, RoundTrip
--     and Ranges are the theorems.
--   Feed: src/feed/. Keys are the keys of the maps, Books the books of a feed (books.cpp), Bytes the
--     readers of its messages (bytes.hpp), Pitch and Itch the decoders (pitch.cpp, itch.cpp); Valid,
--     Answers, Pitch/Packets, Itch/Ending and Itch/Session are the theorems. `none` of `apply_feed` is
--     an exception, and `left_behind` what the event has changed by then.
--   Trading/Replica: src/trading/replica.cpp. Laws and Restore are the theorems.
--   Trading/Codec: src/trading/messages.cpp. The words of a frame are a list; the helpers of Net/Frames
--     read and write them. Words and RoundTrip are the theorems.
--   Trading/Journal: src/trading/journal.cpp. A file is the list of its bytes; Bytes, Recovery and Whole
--     are the theorems.
--   Trading/Strategy: src/trading/strategy.cpp. Replays and Quotes are the theorems.
--   Trading/Server: the connections and routes of src/trading/server.cpp, with one definition for each
--     thing that its loop does to them; a turn of the loop is a step. Frames are received whole. Routes,
--     Moves and Sessions are the theorems.
--   Tests in each part: concrete runs.
--
-- All loops are structural on a list, or on a number of bytes or messages, but for the digits of a
-- number in EventIo, whose 20 rounds are enough for 64 bits, and the recovery of a journal, which has a
-- round for each byte and uses a hundred bytes in each.
--
-- Not modelled: the threads of the processes, sockets, the calls of the system on files, and the
-- logger; the average price and the realized profit of a position, which are floating point and which
-- the engine does not read, with the loss limit of a client and the features, which use them.
pub mod Base
pub mod Map
pub mod Types
pub mod Book
pub mod LfQueue
pub mod SlotPool
pub mod Registry
pub mod EventIo
pub mod Feed
pub mod Net
pub mod Trading
