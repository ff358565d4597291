-- ===== src/Lib.antt =====
-- The matching core of the repository and the market ring, as functions that pass the state on,
-- with theorems that make them correct.
--
-- Slab (src/om_slab.c, include/openmatch/om_slab.h) is the dual slab allocator: slots are
-- indices, NULL is the index UINT32_MAX, slot memory is a set of arrays. Slab/FreeList is about
-- om_slab_init, om_slab_alloc and om_slab_free; Slab/Queue and its children are about the
-- intrusive queues om_queue_link_after, om_queue_link_before and om_queue_unlink.
--
-- Book (src/orderbook.c, include/openmatch/orderbook.h) is the order book over the slab: price
-- levels in queue 1, orders of a level in queue 2, orders of an org in queue 3, a search tree and
-- a hash map. Book/Init is om_orderbook_init, Book/Insert is om_orderbook_insert, Book/Remove
-- holds om_orderbook_cancel, om_orderbook_remove_slot, om_orderbook_unlink_slot and the calls
-- that cancel many, Book/Query the calls that read. Book/Keeps, Book/Walk, Book/Levels,
-- Book/Entering and Book/Leaving hold theorems. The hash map and the AVL tree are klib's,
-- third-party code that is not in the repository: their calls, and those of the write-ahead log,
-- are the record Deps, an argument of all that uses them, and what a map promises is HashLaws.
--
-- Engine (src/om_engine.c, include/openmatch/om_engine.h) is the matching engine over the book:
-- Engine is engine_match, Engine/Orders the calls on resting orders. The calls of the callbacks
-- are a list of events. Engine/Loops is the induction principle for the two loops of
-- engine_match, Engine/Balance, Engine/Deals and Engine/Outcome are its uses, and Engine/Resting
-- is about om_engine_deactivate.
--
-- Wal (src/om_wal.c, include/openmatch/om_wal.h) is the writer of the write-ahead log:
-- wal_append, om_wal_flush, om_wal_fsync, and the records built on them; Wal/Header is about the
-- packed header, Wal/Writer about append and flush. What the operating system answers is an
-- argument.
--
-- Replay (src/om_wal.c) is the reader of the log: its buffer, in Replay/Next om_wal_replay_next,
-- and in Replay/Open the scan for the last number and om_wal_init. How many bytes each read
-- delivers is an argument, and IsReading is what POSIX promises of it. Replay/Fill is about
-- replay_fill_buffer, Replay/Turn and Replay/Rounds about one round of the loop, Replay/Stream
-- says what a log is and Replay/Reading that its records are delivered; Replay/Writing says what
-- the writer leaves in the file, Replay/RoundTrip joins both, Replay/Continue opens the file
-- again. Replay/Ending, Replay/Damage, Replay/Codec and Replay/Layouts are about the end of the
-- loop, damaged files, the bytes of a record and the data of each type.
--
-- Recovery (src/orderbook.c) is om_orderbook_recover_from_wal over Replay and Book, with a file
-- that opens: the record of each type is a function, and the calls on the book write no log
-- meanwhile. Recovery/Loop is its loop over the records. Recovery/Ids is about what the calls on
-- the book leave of the next order id, Recovery/NextId and Recovery/Outcome about the ids behind
-- a record, Recovery/Restored about the insert record that the writer of the log made.
--
-- BusMp (src/om_bus_mp.c, include/ombus/om_bus_mp.h) is the bus of many producers: BusMp the
-- layout and the calls of the producers, BusMp/Consumer those of the consumer, BusMp/Steps their
-- interleaving. BusMp/Window says what holds of the slots, BusMp/Claiming, BusMp/Producing and
-- BusMp/Consuming that the steps keep it, BusMp/Delivery, BusMp/Batch and BusMp/Hazards what
-- follows. The atomic counters are natural numbers below 2 ^ 64, and loads and stores are taken
-- in program order.
--
-- Ring (src/om_worker.c, include/openmarket/om_worker.h) is the ring from the producer to the
-- consumers; Ring/Steps is the interleaving of its calls, Ring/Invariant, Ring/Delivery and
-- Ring/Progress the theorems.
--
-- Base holds what the modules share: Boolean tests, lists, memory as functions, machine words,
-- bit masks, results.
--
-- Bounds and fuel: numbers are natural numbers, and arithmetic of the code that may wrap is
-- written with its modulus; the exceptions are the sizes in bytes of whole memory blocks and the
-- number of records that a batch of the bus returns as an int, which are taken to fit. A loop
-- that follows links is a function on fuel. The loops of the matching engine stop with the state
-- they have reached, and the theorems about them hold of that state as well; the other loops on
-- links answer none. The loop that fills the read buffer has as much fuel as bytes are left in
-- the file; the fuel of om_wal_replay_next is an argument.
--
-- Not modelled: opening a log of several files, the other buses, over shared memory with one
-- producer and over TCP, the market data workers, the presets, the tools, and the release of
-- memory. Reads through a NULL pointer are not modelled.
pub mod Base
pub mod Book
pub mod BusMp
pub mod Engine
pub mod Recovery
pub mod Replay
pub mod Ring
pub mod Slab
pub mod Wal
