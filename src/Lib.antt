-- ===== src/Lib.antt =====
-- Verification of csc453: an allocator, a library of threads with its scheduler, a device driver with a
-- command that uses it, the dining philosophers and a pipeline of two commands, written in C for a
-- course on operating systems. The library of threads calls the scheduler through struct scheduler;
-- the command grant_secret calls the driver through the file system; Debug is about the prints of two
-- other parts; the rest stand alone.
--
-- Prelude: the names of the library that all files share, Boolean tests on the native numbers, lists,
-- equations between optional values.
--
-- Malloc: Asgn1/malloc.c. A heap is its list of block headers in address order (`Heap.blocks`, the chain
-- from heap_head), the program break, the bytes of memory by address, and whether errno is ENOMEM. The
-- headers are in the list and also in the bytes, where every call that changes them stores them. A
-- cursor is a place in the list, as a pointer to a block with the pointer to its predecessor is in C.
--   Malloc/Blocks   round_up_16, merge_free_nodes, splitblock, findblock and the search of malloc
--   Malloc/Headers  struct BlockHeader in memory
--   Malloc/Calls    malloc, free, calloc and realloc, cut at their branches; sbrk is a parameter, which
--                   from the break and an increment gives the start of the new memory and the new
--                   break, or fails
--   Malloc/Layout, Invariant, Regions, Memory   what a well-formed heap is, the regions it has handed out, and
--                   their bytes
--   Malloc/Merge, Split, Search, Scan, Allocate, Release, Resized, Resize, Zeroed, Refusal,
--   Overflow, History   the proofs
-- size_t is a number modulo 2 ^ 64, and the headers take 32 bytes, as on a 64-bit machine. What is asked
-- of sbrk is its documented behaviour: it fails, or it moves the break by the increment within the
-- lower half of the address space. No other code is taken to move the break. The theorems ask sizes
-- below 2 ^ 62 where they say so; Malloc/Overflow shows the topmost sizes. The debug output is in Debug.
--
-- Secret: Asgn4/secret.c and Asgn4/secret.h, the Minix driver of a device that holds one secret. Its state
-- is struct secret_state; the status of a call is OK or one of the errno values of the code.
--   Secret/Driver       the requests; the answers of getnucred, sys_safecopyfrom and sys_safecopyto are
--                       arguments
--   Secret/LiveUpdate   sef_cb_lu_state_save, lu_state_restore and sef_cb_init over a data store, a record
--                       of the six ds_ operations with their documented laws
--   Secret/Grant        main of Asgn4/grant_secret.c; its system calls are a record, and their laws say
--                       that they hand on what the driver answers
--   Secret/Access, Bytes, Survival, Confidential, Granting   the proofs; Confidential adds the open
--                       descriptors of the system and the users that the secret was granted to
-- secret_len - read_offset is taken modulo 2 ^ 32, as the comparison with an unsigned number has it.
--
-- Scheduler: Asgn2/scheduler.c. A thread is its address, NULL is 0; the two links of every thread are
-- functions from addresses, which the operations write one field at a time.
--   Scheduler/RoundRobin   rr_init, rr_shutdown, rr_admit, rr_remove, rr_next, rr_qlen
--   Scheduler/Links, Erasure, Queue, Rotation   the queue as a list of threads, and the proofs
-- The search of rr_remove runs on fuel, one round more than there are threads, which is enough for a
-- queue that is well formed.
--
-- Dine: Asgn3/dine.c and Asgn3/dine.h. A table has a value for every fork's semaphore and for the printing
-- lock, the fields of every philosopher with the statement it is at, and the rows printed, newest
-- first; a philosopher is its id. One step is one statement of one thread, so that a run is any
-- interleaving of the threads' statements; the print of a row, which no other thread can disturb as it
-- is under the lock that all writes are under, is one statement. A call of sem_wait or sem_post may
-- fail, which ends its thread. The number of philosophers and of cycles is arbitrary.
--   Dine/Printing      the labels and rows of the table
--   Dine/Philosopher   the statements of philosopher, and the table that main sets up
--   Dine/Argument      strtol of the C library, and the argument that main takes
--   Dine/Main          the argument of main, and its calls in order; what the system answers is a parameter
--   Dine/Ownership, Effects, Statements, Accounts   who has which fork, and the accounts of the semaphores
--   Dine/Sharing, Deadlock, Weight, Termination, Columns, Meals   the proofs
-- The random pauses of dawdle and the clock that seeds them only delay a thread, which any interleaving
-- allows for; they are left out.
--
-- Lwp: Asgn2/lwp.c, Asgn2/lwp.h and Asgn2/fp.h, the library of lightweight processes.
--   Lwp/ThreadQueue     the queues of live, waiting and zombie threads, which have the same code, on nodes
--                       with one link; Lwp/Chains and Lwp/Removal prove that they are lists. The searches
--                       run on fuel, which the theorems ask to exceed the length of the queue
--   Lwp/SetScheduler    struct scheduler as a record of operations, its laws, and lwp_set_scheduler;
--                       Lwp/Transfer has the proof, and Lwp/RoundRobinPool shows that the scheduler of
--                       Asgn2/scheduler.c fulfils the laws
--   Lwp/Library         lwp_yield, lwp_exit, lwp_wait, reap_and_remove and lwp_gettid on the static variables
--                       and the fields of all threads; a call that switches context ends with that, and
--                       what lwp_wait does when it is resumed is an operation of its own. The scheduler in
--                       use and the answers of malloc and munmap are arguments. Lwp/Waiting has the proofs
--   Lwp/Create          lwp_create, lwp_start, lwp_wrap and tid2thread, on the same state; the answers of
--                       malloc, getrlimit, sysconf and mmap are arguments. The links of the scheduler in
--                       the new thread are not fields here: admit sets them in the scheduler's state
--   Lwp/Registers       the registers that swap_rfiles saves, and FPU_INIT
--   Lwp/Consistent      the invariant: every thread is live, a zombie or unknown, every waiting thread is
--                       live, and the scheduler has the live threads that do not wait. Erased, Changes,
--                       Ending, Entering, Yielding, Calls, Waits and Creation prove that every call keeps
--                       it. Reachable has the calls as a step relation, and Switching adds the changes of
--                       scheduler, after which the state of the scheduler has another type
--   Lwp/Lookup, Created, Handover, Serving   what tid2thread, lwp_create, lwp_exit and lwp_wait give
--   Lwp/Words, Stacks   the status words, the sizes of stacks, and the first stack of a thread
-- The scheduler in use is a parameter, so that the choice of round robin, where none is set, is one of
-- its values. The bound on the searches is a field of the state, above all lengths of the queues; as it
-- is below 2 ^ 64, the ids of threads do not wrap around.
--
-- TrivialPt: Asgn3/trivial_pt.c, a parent that creates four threads and joins them. A state has the place of
-- main and of every child and the lines printed; any interleaving of their steps is a run. The end of
-- main is the end of all threads. Whether pthread_create and pthread_join succeed is an argument.
--   TrivialPt/Threads   the statements of main and child
--   TrivialPt/Lines, Joined, Printed   the proofs
--
-- Pipeit: Lab01/pipeit.c. A process is its table of descriptors; the answers of pipe, fork, open, execlp and
-- wait are arguments.
--   Pipeit/Processes   main, cut at its forks, and the code of the two children
--   Pipeit/Pipeline    the proofs
--
-- Debug: the debug output of Asgn1/malloc.c and Asgn2/lwp.c.
--   Debug/Output    print_debug_msg, print_custom_debug_msg and the texts; what snprintf makes of a format
--                   is an argument
--   Debug/Events, ReallocEvents   the statements of malloc, free, calloc and realloc that print or assign
--                   suppress_debug, in order on every branch, from the heap before the call
--   Debug/Written, Reported, Once, CallReports   the proofs
-- The models of the allocator's calls and of the library of threads leave out the calls of the debug
-- output, which change nothing but standard error and suppress_debug.
--
-- Not modelled: the registration of the callbacks, the name and the main loop of Asgn4/secret.c, which only
-- call Minix libraries; the context switch Asgn2/magic64.S, in assembly; the tests Asgn1/tests.c and
-- Asgn2/lwp_test.c.

pub mod Prelude
pub mod Malloc
pub mod Secret
pub mod Scheduler
pub mod Dine
pub mod Lwp
pub mod Pipeit
pub mod Debug
pub mod TrivialPt
