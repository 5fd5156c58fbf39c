-- ===== src/Lib.antt =====
-- speutils: a library that hands tasks from a PowerPC host to the SPEs of a Cell processor. This
-- library models its C code and proves properties of it.
--
-- The program. For each SPE the host keeps a queue: a task memory and an acknowledgement memory of
-- the same number of slots, a line that both sides share, and a ring with the positions of the two
-- ends (shared/ring.c). src/spefifo.c selects a queue, writes a task into the slot at the front,
-- and stores the front into the shared line; a thread takes acknowledged slots back. On the SPE,
-- spu/src/spu_taskmanager.c reads the line and moves the tasks through a pipeline of four stages,
-- the last of which writes the acknowledgement. src/spethread.c runs the SPE programs on host
-- threads, src/spemessage.c passes single words, and shared/linkedlist.c holds the programs that an
-- SPE knows.
--
-- The files. Functions keep their names, in lower case with underscores.
-- - Base: shared names, Boolean tests, C arrays as lists, and Outcome, the ways in which a C
--   function can end: with a value, by undefined behaviour such as a null or dangling pointer
--   (fault), without fuel, or by the end of its process.
-- - Messages: include/speutils/messages.h and the constants of the queues.
-- - Ring: shared/ring.c on a record of three 32-bit words. Ring.Count measures the occupied slots,
--   Ring.Pending lists them, and Ring.Exercise is tst/ring_test.c.
-- - LinkedList: shared/linkedlist.c on a heap, a function from addresses to entries (Memory). Chain
--   says which cells a heap holds; Add, Find, Unlink, Remove and Walk treat the operations.
-- - Fifo: src/spefifo.c. Port has the state, Init fifoInit with allocate_fifo, Select selectfifo,
--   Submit the writing and kicking of tasks, Collect the thread fifothread, Drained fifoIsEmpty and
--   fifoWait, Queue one queue as a whole, Tasks all queues together.
-- - Spu: spu/src. State has the static variables, Stages the four stages and the loop around them.
--   Retire and Shift treat one round, Drain a whole batch of tasks, Series the arithmetic of a task
--   that adds, Programs the list of programs and the start, Main the loop of main. Transfers has
--   the DMA calls of the stages.
-- - System: one queue of src/spefifo.c and its SPE on the memory that they share. A step is a turn
--   of the host (a whole task, if a slot is free), of fifothread (one slot taken back) or of the
--   SPE (stage1, or the other stages of the round), in any order. Invariant says what holds between
--   two turns in terms of four numbers, of the tasks submitted, fetched, acknowledged and taken
--   back, and of the slots at which they stand (Place); Moves and Safety treat each turn
--   (Safety.Host those of the host and of fifothread, Safety.Spe those of the SPE), Start the first
--   state, Reachable, Drains and Transfers all states that are reached, and Abstract the history of
--   events that the turns make. Carries and Answers say which task an entry of the pipeline and an
--   acknowledgement stand for, and Results which result fifothread takes back.
-- - Cluster: all queues of src/spefifo.c with their SPEs; the host calls fifo_addition, which
--   selects a queue. Views shows the queues one by one as systems, Start is the first state behind
--   fifoInit, Loop follows the host through the loop of the interface test, and Drains empties all
--   queues.
-- - Dma: include/speutils/spu_dmalib.h as the calls of the MFC intrinsics; Wait has the interface
--   of the MFC.
-- - Mailbox: include/speutils/spu_message.h; Trip has the interface of the inbound mailbox.
-- - Interface: tst/task_iface.c, on Fifo.Tasks.Repeat and Fifo.Tasks.Even, which counts the tasks
--   of each queue. Fits fills the queues, and Ends, on Cluster, says how the program can end.
-- - Sample: the programs in example. Ends and Actions treat their loops, Mains the whole main
--   functions, and Wakeup the condition variable and the pipe between example2.c and its thread, as
--   a step relation.
-- - Thread: src/spethread.c; Serve treats the loop of the thread, Stop its end. Message:
--   src/spemessage.c.
-- Modules named Examples hold tests.
--
-- State is passed explicitly. A C int or uint32_t is a number below 2 ^ 32 with its wrap-around
-- written out; positions, which stay below the size of a queue, need none on the SPE. What the
-- hardware, libspe2, malloc and the operating system answer is an argument: whether a conditional
-- store succeeds, which waits report an event, which addresses and contents memory has.
--
-- Fuel. The loops of selectfifo and fifothread, the search in a linked list and the loops of the
-- ring test take fuel; the theorems that give a result say how much is enough: as many tests as
-- there are queues, one more than there are occupied slots, one more than there are cells before
-- the entry, one more than the size. Loops that wait for someone else run along a list of what they
-- see. The search of selectfifo in the loops of the interface test has as much fuel as there are
-- SPEs.
--
-- The system of a queue and its SPE begins behind fifoInit and the start of main, where the SPE has
-- got max_entries from the host. Two things of the memory that memalign returns are assumed, which
-- memalign does not promise, since the code depends on them: the last slot holds a task that adds,
-- because the SPE reads the slot before the one that the host has announced (stage1) and so starts
-- with a slot that nobody has written, and any other command is a fault (Spu.Programs); and the
-- local acknowledgements are not ACK_CLEAR, because nothing sets their task_id. The memory is
-- shared as a whole between two turns: the turns themselves are not interrupted, and a transfer is
-- done when it is issued. fifothread visits the queues in any order.
--
-- Not modelled: DMA transfers that are still under way, but for the waits in Dma.Wait, other
-- programs than the one that adds in the system of host and SPE, the endless loop of fifothread
-- around its body, spu_thread_allocate and spu_thread_free, the bits of MFC_PUTLLC_STATUS in the
-- result of atomicPutc, the frees of whole contexts, the data that the example programs pass to
-- their SPEs, wakeups of pthread_cond_wait without a broadcast, spu/src/pic_test.c and the build
-- files.
pub mod Base
pub mod Dma
pub mod Fifo
pub mod Interface
pub mod LinkedList
pub mod Mailbox
pub mod Message
pub mod Messages
pub mod Ring
pub mod Sample
pub mod Spu
pub mod System
pub mod Cluster
pub mod Thread
