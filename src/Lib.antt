-- ===== src/Lib.antt =====
-- OpenDataPlane, the linux-generic implementation: its queues, scheduler, timers, buffer pools,
-- packets, their parser and classification, packet interfaces, thread ids, CPU masks, locks,
-- barrier, shared memory blocks, and the checksums of its helper library.
--
-- How the parts interact. A thread calls `odp_queue_enq` and the like on a queue of the table in
-- platform/linux-generic/odp_queue.c; a queue is a chain of buffer headers. The first enqueue on an
-- idle scheduled queue hands its command event to the scheduler of odp_schedule.c, whose masks say
-- which priority queues have work. Buffers, packets and timeouts come from the pools of odp_pool.c;
-- a timer of odp_timer.c posts its timeout buffer to a queue when it expires.
--
-- Which file models which part:
--   Prelude    lists, words of 32 and 64 bits, bits, Boolean tests; no code.
--   Queue      odp_queue.c and include/odp_queue_internal.h. Queue.antt has one entry's operations,
--              Queue/Table the table's and the scheduler's share of create and destroy,
--              Queue/Params the calls that read or set an entry's parameters; Queue/Heap has all
--              queues over the headers that they share.
--   Schedule   the masks and counts of odp_schedule.c; Schedule/Protocol has the way of the command
--              events through priority queues and threads, Schedule/Loop the function `schedule`.
--   Timer      odp_timer.c. Timer.antt has the pool's operations, Timer/Api those on handles.
--   Pool       include/odp_pool_internal.h and buffer allocation and free of odp_pool.c;
--              Pool/Table has lookup and destroy.
--   Packet     push, pull, reset and the offsets of odp_packet.c and odp_packet_internal.h;
--              Packet/Copy has copies of bytes out and in, Packet/Edit those between packets and
--              the insertion and removal of bytes.
--   Parser     the parser of odp_packet.c and the calls of odp_packet_flags.c: Parser/Ip and
--              Parser/Frame have the code, Parser/Flags the calls.
--   Classify   odp_classification.c and its two headers: the tables in Classify.antt, the calls
--              on an interface in Classify/Interface, the rules in Classify/Verify and the choice
--              of a class of service in Classify/Select.
--   Pktio      odp_packet_io.c and include/odp_packet_io_internal.h: the table of interfaces in
--              Pktio.antt, the way of received packets to queues in Pktio/Receive.
--   Thread     odp_thread.c.
--   Sync       odp_ticketlock.c; Sync/Rwlock, Sync/Spinlock and Sync/Barrier have odp_rwlock.c,
--              odp_spinlock.c and odp_barrier.c.
--   Cpumask    odp_cpumask.c and odp_cpumask_task.c.
--   Shm        odp_shared_memory.c: the table of blocks; Shm/Reserve has its proofs.
--   Helper     the checksums of helper/include/odp/helper: chksum.h and ip.h in Helper.antt, udp.h
--              in Helper/Udp.
-- State is passed explicitly: an operation takes the records that stand for the C structures and
-- returns them after the call with its result. A null pointer, an invalid buffer and a failing
-- return are `none`, unless the operation says otherwise. Words keep their wrap-around.
--
-- Concurrency. A critical section is one step. Queue/Reach runs the sections of one queue entry in
-- any order; Schedule/Protocol runs those of all threads on all queues; Sync interleaves the atomic
-- accesses of all threads that use one lock or barrier.
--
-- Fuel. `get_blks` takes the size needed as fuel, since each round takes off a positive segment
-- size; `flush_from` takes a bound on the length of the cache. `clear_from`, `free_slot`,
-- `expire_from` and the list loops are structural. The copies of Packet/Copy and Packet/Edit take the
-- number of bytes as fuel, since each round copies at least one. `skip_ext` takes an eighth of the
-- frame's length and one, since each extension header has at least 8 bytes. `fold_all` takes three, which is
-- enough for 32 bits. `match_pmr_cos` takes
-- the length of the chain of classes and two.
--
-- What is not modelled: the waiting of `schedule_loop`, pool creation, the packet I/O on sockets
-- and devices, crypto, initialization, the examples and the tests. helper/ring.c is a copy of
-- another project's ring. Printing and the 128-bit atomic variant of the timer code are left
-- out; the variant with locks is modelled. What goes to `odp_event_free` is recorded; the
-- allocation of a command buffer or a packet, the result of `sched_getcpu`, the poll of a packet
-- interface and the packets it received, the acceptance of an event by a queue and the answers
-- of the operating system to Shm are arguments of the operations that call them.
pub mod Prelude
pub mod Queue
pub mod Schedule
pub mod Timer
pub mod Pool
pub mod Packet
pub mod Parser
pub mod Classify
pub mod Pktio
pub mod Thread
pub mod Sync
pub mod Cpumask
pub mod Shm
pub mod Helper
