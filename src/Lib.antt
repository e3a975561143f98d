-- ===== src/Lib.antt =====
-- A model of the SIMD NanoRing market data engine, and what holds of it.
--
-- The program decodes a binary ITCH feed, hands the decoded orders to threads through ring buffers,
-- and keeps an order book per symbol. Its parts, and the files that model them:
--
-- - include/itch_messages.h: Itch has the packed messages, their layout in bytes and `DecodedOrder`.
-- - include/simd_decoder.h: Decoder has the four handlers, the tables and `decode_stream`;
--   Decoder/Batch has `decode_add_orders_simd` and Decoder/Filter has `filter_tickers_simd`, each
--   with its NEON, AVX2 and scalar versions. Decoder/Stream and Decoder/Reads are about the stream.
-- - include/spsc_queue.h: SpscQueue has `try_push`, `try_pop`, `available` and `free_slots` as
--   functions on the queue, and `produce` and `consume`, which run `try_push`, `push` and `try_pop`
--   one atomic access at a time; SpscQueue/Threads is about their interleavings, and
--   SpscQueue/Calls about what a call that runs alone returns and leaves.
-- - include/broadcast_journal.h: Journal has its operations and sequences of them; Journal/Intact is
--   about what a reader finds, and Journal/Reports has the loop of `report_consumer_progress` as
--   several consumers run it, one access at a time. Ring has the slots that both rings share.
-- - include/order_book.h: Levels has one side of a book (`binary_find`, `add_to_levels`,
--   `remove_from_levels`), OrderMap has `FlatOrderMap`, OrderBook has the book and its handlers, and
--   BookManager has `ShardedBookManager`.
-- - include/pipeline.h and include/routed_pipeline.h: Pipelines has `get_shard`, the producer that
--   routes orders in batches, and what a thread of each pipeline applies. Pipelines/Broadcast has the
--   producer of `Pipeline::run` and a consumer of the journal, one access at a time;
--   Pipelines/Broadcast/Invariant, Safety and Live are about their interleavings, Books about the book
--   threads.
--   Pipelines/Routed has the producer and a book thread of `RoutedPipeline::run` on the model of the
--   queue, with the same children. Pipelines/Sharded compares the managers of the threads with one
--   manager. Pipelines/Latency has `LatencyTracker`.
-- - src/experiments.cpp, src/main.cpp and tools/generator.cpp: Workload has the market data that they
--   make up, and Experiments the scalar decoding, the scans and the partition of the experiments.
--
-- Common has the shared names, Boolean tests, arrays as functions, machine words, masks and the
-- pigeonhole principle; Tests has runs on concrete inputs.
--
-- How state is modelled. A C array or vector is a function of the index, and the length stays with
-- its owner. A pointer into the table of orders is the index of its slot. `char` is a byte.
-- Unsigned arithmetic that can wrap is written with its remainder (Common/Word); the index
-- arithmetic of loops whose bounds rule a wrap out is plain, and so is the offset of
-- `decode_stream`, which stays within 65,538 of the stream's length. A level's side is a Boolean,
-- `true` for the bids, which descend.
--
-- Specifications. Levels/View reads a side as a map from prices to levels; `lookup` in OrderMap reads
-- the table as a map from references to orders; OrderBook/Spec says what each message does to the
-- live orders; OrderBook/Core ties the two: the shares of a level are the sum of those of the live
-- orders at its price. `get_book` reads the manager as a map from symbols to books. Decoder/Wire says
-- what a feed is, byte by byte, and which orders it stands for.
--
-- Bounds and fuel. `find_loop` has as many rounds as the side has levels, the probing loops as many
-- as the table has slots, which is where the source bounds them or, in `insert` and `rehash`, what
-- the load factor makes enough. `decode_stream` has one round more than the stream has bytes, each
-- of which moves on by at least two. A book accepts an order (OrderBook/Valid, `Accepts`) when its
-- side is `B` or `S`, its price is not 0, its reference is not live, its level exists or the side has
-- fewer than 256, the level's shares stay below 2 ^ 32, and the table has at most 2 ^ 60 slots.
--
-- The interleavings of Pipelines/Broadcast are lists of turns of any length. `publish` does not wait
-- for a consumer: a book thread is only sure to read each order when the producer never writes a slot
-- that the thread has yet to read (`IsPaced`), which the code does not see to. A run of no more orders
-- than the ring has slots is such a run, whatever the interleaving. IsLap in
-- Pipelines/Broadcast/Safety is for the others.
-- Pipelines/Routed needs no such thing, since `push` waits. The random draws of the generators, the
-- clocks, and the index of a percentile, which is a floating-point product, are arguments; so is what
-- the routed pipeline finds in `publish_ts`. `std::sort` is an insertion sort.
--
-- Not modelled. Core pinning, the results of a run that are times, the command line and printing in
-- src/main.cpp and src/experiments.cpp, and the opening of files. The book threads write nothing that
-- another one reads, so Pipelines/Broadcast and Pipelines/Routed have one of them beside the producer;
-- the pushes to other queues are time that passes there. A prefetch has no effect on results. The
-- threads see each other's accesses in one order, which is what the acquire and release accesses of
-- the rings give to one producer and one consumer.
pub mod Common
pub mod Itch
pub mod Levels
pub mod OrderMap
pub mod OrderBook
pub mod BookManager
pub mod Ring
pub mod SpscQueue
pub mod Journal
pub mod Decoder
pub mod Pipelines
pub mod Workload
pub mod Experiments
pub mod Tests
