-- ===== src/Lib.antt =====
-- A model of the execution core: a price-time priority order book over a slab allocator, a
-- lock-free ring for one producer and one consumer, a vectorised price scan, and a latency harness.
--
-- Parts and files. Paths are those of the repository.
--   Types        include/exec_core/types.hpp, order.hpp, trade.hpp: Side, RestingOrder, Trade.
--   Slab         include/exec_core/slab_allocator.hpp: the free list as a map of links between
--                addresses, with the constructor, the destructor, allocate, deallocate, counters. Slab.Pool
--                has the invariant, Slab.Growth the chunks, Slab.Life the whole life of a pool,
--                Slab.Used the blocks in use in any order, Slab.Stride the block size.
--   Levels       the levels of include/exec_core/order_book.hpp: `std::map<Price, PriceLevel>` as
--                the list of its entries in the order of the map, a PriceLevel as the list of its
--                nodes, push_back, pop_front, erase, sum_quantity and collect_ids.
--   Nodes        the nodes with their prev and next pointers, as a map from addresses, and
--                push_back, pop_front, erase, sum_quantity, collect_ids and the destructor's loop on
--                them. Nodes.Linked says when they are the queue of a list of `Levels`;
--                Nodes.Writes, Nodes.Detach, Nodes.Queue, Nodes.Erase, Nodes.Push and Nodes.Reads compare the
--                operations with those of `Levels`.
--   Locations    the index `locations_`, as an association list; Locations.Keys has its laws.
--   Book         src/order_book.cpp: the two matching loops of add_limit_order, written once with
--                the side as an argument; cancel_order; the queries in Book.Queries. Book.Loops
--                has induction over the loops, Book.Valid and Book.Matching the well-formedness
--                of a side, Book.Invariant and Book.Removal that of the book, Book.Priority the
--                priority of matching, Book.Arrival the place of a new order, Book.Conservation
--                and Book.Lots the lots, Book.Sides and Book.Cancel what an operation leaves.
--                Book.Tracked says when the index and the pool are in step with the nodes;
--                Book.Index, Book.Agreement, Book.Resting and Book.Executed follow them through an
--                order, Book.Untracked and Book.Removable through a cancellation, Book.Consistent
--                joins them to the well-formed book, and Book.Reachable has the books that
--                operations reach. Book.Lookup, Book.Restored and Book.RoundTrip are about an
--                order and its cancellation, Book.While and Book.Termination about the two `while`
--                loops as they stand, Book.Queues and Book.Withdrawal about the queue that a cancellation
--                leaves, Book.Destroy about the destructor, Book.Numbers, Book.Seniority and Book.Ordered
--                about the numbers of trades and orders. Book.Checked has the loops, the sums and the
--                queries that take sums with the range of `std::int64_t`, Book.Overflow and Book.Depth
--                say when they leave it, and Book.Market is about the queries together.
--   LinkedBook   the same file with its pointers: a level is a head and a tail, all nodes stand in one
--                memory, and both operations, the loops, the queries and the destructor work on the
--                links. LinkedBook.Represents says when such a book is a book of `Book`:
--                LinkedBook.Stands and LinkedBook.Puts are about one side, LinkedBook.Inner and
--                LinkedBook.Outer about the loops, LinkedBook.Rests about the remainder that rests,
--                LinkedBook.Orders and LinkedBook.Cancels about the operations, LinkedBook.Reads about
--                LinkedBook.Queries, LinkedBook.Fuel about the rounds, and LinkedBook.Reachable about
--                sequences of operations.
--   Ring         include/exec_core/ring_buffer.hpp: emplace_impl and try_pop, cut at their accesses
--                to shared memory. Ring.System is the step relation of the two threads, and
--                Ring.Invariant to Ring.Safety what holds of the states that it reaches; Ring.Threads
--                and Ring.Progress are about one thread's steps in a run of both, Ring.RoundTrip about
--                one thread that does both, Ring.Capacity about the static assertion on the capacity.
--   PriceScan    include/exec_core/price_scan.hpp and src/price_scan.cpp: the scalar and the NEON
--                scan, and in PriceScan.Avx the AVX2 scan and the dispatcher; NeonUnit and AvxUnit
--                are the interfaces to the intrinsics.
--   Latency      include/exec_core/latency_harness.hpp and src/latency_harness.cpp: percentiles,
--                summary and timed loop; Doubles is the interface to `double`.
--   Affinity     include/exec_core/core_affinity.hpp and src/core_affinity.cpp, with the platform as
--                an argument and the calls of the operating system as parameters (Os).
--   Bench        src/bench_main.cpp: the workloads, each run by measure_latency_ns. Bench.Seeding and
--                Bench.Running follow a book as it is filled; Bench.Resting, Bench.Crossing,
--                Bench.Cancelling, Bench.RingRounds and Bench.Scans have one workload each, Bench.Program
--                the main function.
--   SmokeCheck   tools/avx2_smoke_check.cpp: the cases, the check of each, and the exit status.
--   Demo         src/main.cpp.
--   Common, Words, Masks are shared: lists, integers, 64-bit counters, bit masks.
--
-- How they interact. The book owns a pool of the layout of its nodes: a node's address is the block
-- that allocate gave, and a node that leaves its level is deallocated. The benchmark drives
-- the book, the ring and the scan through the timed loop of the harness. The other parts stand alone.
--
-- Numbers. Counters of 64 bits wrap, with the modulus written out. Prices and quantities are
-- integers; in the price scan an addition that leaves the range of `std::int64_t` is `none`, since
-- it is undefined in C++, and the lanes of the vector unit wrap. A dereference of `end()` or of a
-- node that its level does not hold is the result `fault`.
-- The quantities of `Book` and `LinkedBook` are integers without a range; Book.Checked has the
-- subtractions, the sums and the queries of `Book` with an overflow as `none`.
-- The matching loops of `Book` recurse on the levels and on their nodes, because a head that is not
-- used up has taken all that remained, and then the loop's test fails; Book.While has the loops
-- themselves, on fuel, of which two rounds for each level and one for each order are enough. The
-- loops over linked nodes are on fuel: for the walks one round more than there are nodes is enough, and
-- for the matching loops one more than three for each order of the book. All
-- other loops are structural recursion.
--
-- The memory of the ring. A counter has one writer; an acquire load gives a value that the counter
-- has had since the loading thread last looked, and orders the slots written before it.
--
-- Not modelled: the formatting of what is printed, and `double` itself. What `deallocate` writes
-- into a freed block is kept apart from the nodes. The addresses that `operator new` gives are
-- consecutive, and it does not fail.
mod Common
mod Words
mod Masks
pub mod Types
pub mod Slab
pub mod Levels
pub mod Nodes
pub mod Locations
pub mod Book
pub mod LinkedBook
pub mod Ring
pub mod PriceScan
pub mod Latency
pub mod Affinity
pub mod Bench
pub mod SmokeCheck
pub mod Demo
