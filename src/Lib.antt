-- ===== src/Lib.antt =====
-- The binder driver of Android's 4.4 kernels, which docker/android-4.4-p-binder/ builds as a module:
-- binder.c, the inter-process calls, and binder_alloc.c with binder_alloc.h, the memory that the
-- calls are copied into.
--
-- Each process that opens the driver has a `binder_alloc`: one mapped area, cut into buffers that a
-- list holds by address, a tree of free ones by size and a tree of allocated ones by address. The
-- driver hands out a buffer for each transaction into the process, moves objects and file
-- descriptors with it, and takes the buffer back when user space frees it. A `binder_node` is an
-- object that a process serves, a `binder_ref` is another process's handle on it; their counts keep
-- each other alive. Work for processes and threads is queued on lists, and threads are woken with a
-- priority that the transaction lends them.
--
-- Base: numbers, Booleans, lists and machine words. An `int` counter is its 32-bit pattern, a
--   `size_t` or a pointer a number below 2 ^ 64, with the wrap-around written out.
-- Kernel: error numbers, ERR_PTR, and `Run`, in which `bug` is BUG() or BUG_ON(); its children say what
--   runs give.
-- RbTree: the walks that both files make through red-black trees. The kernel's rebalancing and
--   erasure (lib/rbtree.c) are the parameter `RbLib`, which keeps the in-order sequence;
--   RbTree/Plain.antt is an instance. RbTree/Order, RbTree/Keys: trees whose keys ascend or rise.
-- Alloc: binder_alloc.c. Alloc/State is the structures, lists and trees and
--   binder_alloc_prepare_to_free; Alloc/Pages is binder_update_page_range in its two directions;
--   Alloc/NewBuf is binder_alloc_new_buf; Alloc/FreeBuf is binder_alloc_free_buf; Alloc/Mmap is the
--   life of the area and the shrinker's callback. A buffer is named by the address in its `data`.
--   What the kernel answers about memory is the argument `Memory`, and alloc->mutex makes each
--   operation one step. Alloc/Claim, Alloc/Async and the children of Alloc/Pages, Alloc/NewBuf,
--   Alloc/FreeBuf, Alloc/Mmap and Alloc/Async are proofs.
-- Driver: binder.c. Driver/State is its structures as one heap, in which an object's number stands
--   for its address and reading a freed object is `bug`; Driver/Work is the work lists and the
--   choice and waking of threads; Driver/Node is the counts of nodes; Driver/Ref is the references;
--   Driver/Create is new nodes and threads; Driver/Lifetime is the temporary references of threads
--   and processes; Driver/Transaction is the stacks of transactions, failed replies and the queueing
--   in the target; Driver/Translate is the objects and handles that they carry; Driver/FreeBuffer
--   is the release of their buffers and BC_FREE_BUFFER; Driver/Counting, Driver/Death and
--   Driver/Looper are the commands and returns for reference counts, death notifications and the
--   threads that serve; Driver/Release and Driver/Release/Process are what is done when a thread, a
--   node or a process goes away. The locks make each operation one step.
--   Driver/Send is binder_transaction: Driver/Send/Target finds whom it goes to, Driver/Send/Request
--   makes the transaction and its buffer, Driver/Send/Objects carries the objects,
--   Driver/Send/Deliver queues it, Driver/Send/Failure is the error labels, and Driver/Send/Whole
--   puts them together. What the kernel and user space answer is the argument `SendKernel`.
--   Driver/Write is binder_thread_write, with the commands' numbers in Driver/Write/Protocol, and
--   Driver/Read is binder_thread_read, with what it puts for each work in Driver/Read/Returns and
--   binder_wait_for_work in Driver/Read/Wait. A thread's buffers are answers by their offsets, and
--   the list of a thread's sleeps says what is done to the driver meanwhile. Driver/Ioctl is the
--   context manager, the list of nodes and polling, and Driver/Ioctl/Exchange is
--   BINDER_WRITE_READ, which writes and then reads.
--   The other children of these are proofs, and so is Driver/Heap.
-- Priority: binder_do_set_priority and binder_transaction_priority, with the scheduler's calls as
--   the values they return. Priority/Caps, Priority/Node: proofs.
-- Objects: the checks on the objects that a transaction carries, from binder_validate_object to
--   binder_fixup_parent; Objects/Files is binder_translate_fd and its array. Objects/Bounds,
--   Objects/Fixups, Objects/Files/Atomic: proofs.
-- TransactionLog: the ring of transactions for debugfs. TransactionLog/Shown: proofs.
-- A module called Tests runs the others on concrete data.
--
-- Fuel: `fixup_walk` takes fuel for its loop, and the index of the object that it starts from is
-- enough, since parents stand before their children; `free_allocated` takes one unit for each
-- allocated buffer, and the release of a process gives it one more than these. A failed reply takes
-- a unit for each transaction of its chain, and the loop over a released thread's stack one more
-- than the transactions name the thread. The search for a caller takes a unit for each transaction
-- on the thread's stack, and the fixups of a transaction one more than the object's index, which is
-- always enough. A command has at least four bytes, so that one more turn than there are bytes is
-- enough for binder_thread_write. A read that has had its turns, or whose thread has no sleep left,
-- is a result of its own. The loops that release lists, threads, nodes and references take fuel as
-- an argument. The loops over page ranges and lists recurse on their length.
--
-- Not modelled: opening and mapping the file, the dispatch of ioctls, deferred work, debugfs other
-- than the ring of the log and the page counts, locking as such, and the debug messages, statistics
-- and trace points, which change nothing that the driver reads. The two BUG_ONs of
-- binder_enqueue_work_ilocked, on a missing list and on work that is on a list already, are left
-- out. binder_transaction is modelled without its entry in the log, its debug ids and the bytes of
-- the security context.
-- The repository's backend, web page, scripts and Android helper are not part of the driver.
pub mod Base
pub mod Kernel
pub mod RbTree
pub mod Alloc
pub mod Driver
pub mod Priority
pub mod Objects
pub mod TransactionLog
