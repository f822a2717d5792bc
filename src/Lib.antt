-- ===== src/Lib.antt =====
-- Relaxed concurrent data structures in C: the 2D structures (include/2Dd-window.c with
-- src/2Dd-counter and src/2Dd-stack; include/2Dc-window.c with src/2Dc-counter and src/2Dc-stack),
-- whose operations spread over `width` sub-structures and are kept together by a window of `depth`;
-- the d-CBO queues (src/dcbo-ms/d-balanced-queue.c), which balance over partial queues by sampling
-- `d` of them; and Treiber's stack (src/stack-treiber) and the d-RA stack (src/stack-dra).
--
-- Prelude: the shared names, Boolean tests, and lists (Prelude/Lists: `update` is a store, `total` a
-- sum over sub-structures), and the wrapping of `uint64_t` (Prelude/Words).
--
-- Machine: threads over shared memory. A schedule is any list of turns, each of one thread, which
-- makes one shared access in it; `run` plays it. A random number or the choice of an operation is
-- the number drawn in a turn, so that a theorem about every schedule is about every interleaving
-- and every outcome of `my_random`. Memory is sequentially consistent; a descriptor of 16 bytes is
-- read in two loads, between which other threads may move, and compared and exchanged in one. What
-- is shown has no bound on the number of threads; a schedule's length is bounded by what 64-bit
-- counts allow.
--
-- TwoDd/Window: include/2Dd-window.c. `put_step` is one access of `put_window` and `get_step` one of
-- `get_window`; their program counters PutPc and GetPc name the places between accesses, and hold
-- the local variables that are live there. It is over any descriptor with a `put_count` and a
-- `get_count`. Bounds has the invariant of the two windows and the counts; Put, Get, Searching and
-- Stable show what each step does to it.
--
-- TwoDd/Counter: src/2Dd-counter/2Dd-counter.c. `step` is one access of `increment` or `decrement`,
-- which call the window; a thread that is idle begins either. `counter_size` is the sum that the
-- code takes. Invariant shows that a turn keeps the invariant of the acting thread and of every
-- other one; Spread, Taken and Count draw the conclusions for runs.
--
-- TwoDc/Window: include/2Dc-window.c, in the same manner: `put_step` and `get_step` on one window with
-- a version, which `read_window` reads in two loads. Moves shows how a step moves it, and Indices
-- that a thread's index stays in range. TwoDc/Counter: src/2Dc-counter/2Dc-counter.c over it; Balance
-- and Windows have its theorems.
--
-- Nodes: the nodes of the linked stacks. Heap has `create_node` and the writes of a thread to a node
-- of its own; `linked` is a history variable, written at a push that succeeds and read by nothing,
-- which says which nodes must no longer change. Stacks has what a push and a pop do to an array of
-- stacks, Threads the invariant that any such structure keeps in every interleaving: what the stacks
-- hold is what sequential stacks hold after the same Events (Replays). Size has `stack_size`, on
-- fuel; more than the longest stack is enough.
--
-- TwoDd/Stack: src/2Dd-stack/2Dd-stack.c; TwoDc/Stack: src/2Dc-stack/2Dc-stack.c; Treiber:
-- src/stack-treiber. Their `step` is one access of a push or a pop (`insert` or `delete`). The files
-- Refine show each to be such a structure on Nodes; TwoDd/Stack/Counts, Steps, Bounds and Taken join
-- the counts of the descriptors with the window's bounds, TwoDc/Stack/Counts and Size with the stacks'
-- sizes.
--
-- Dra: src/stack-dra/stack-dra.c, over the same Nodes. A draw of `random_index` is the number drawn in
-- a turn. Stamps, with its Steps and Height, is about the timestamps that the choice goes by.
--
-- Choices: src/multi-counter_random-relaxed, in the builds with NUM_CHOICES, with the loads of the version
-- and of the count of a sub-counter apart; Balance has its theorem.
--
-- Cas: src/counter-cas, the single counter; Refine compares it with a sequential one.
--
-- Relaxation: include/relaxation_analysis_queue.c, the list by which a benchmark measures how far out
-- of order each value comes out. Lists and Sound read the two linked lists off the memory, Add, Search,
-- First and Remove are about `add_linear` and `remove_linear`. The search is on fuel; the length of the list
-- is enough.
--
-- Config: the start of `create_counter`, `create_stack` and `create_queue` in src/2Dd-counter,
-- src/2Dd-stack, src/2Dd-queue, src/2Dc-counter and src/2Dc-stack, which chooses width and depth
-- from a relaxation bound. None is a division by zero. `relaxation` is that of the window, also where
-- it passes the bound. Config/Narrow: the same in the optimized and
-- elastic structures, with their 16-bit types; there None is also an overflow of an `int`.
--
-- Dcbo: src/dcbo-ms/d-balanced-queue.c, a copy of which is in src/dcbo-faaaq, src/dcbo-lcrq and
-- src/dcbo-wfqueue. One call is followed through a history `H`: `H k i` is partial queue `i` as the
-- call meets it at its `k`-th shared access, and between two accesses other threads may have
-- enqueued and dequeued anywhere (Partial, IsHistory). The partial queues are an interface, the
-- macros PARTIAL_*, with operations that are atomic; a tail version may come again after a cycle of
-- enqueues, fewer of which are in a history. The Michael-Scott queue fills it (Ms/Queue); the other
-- partial queues are not modelled. Collect has the two loops of `double_collect`
-- and Choice the sampling of `enqueue` and `dequeue`; the restart by `goto` is recursion on fuel,
-- and Progress shows how much fuel is enough.
--
-- Ms: src/dcbo-ms/partial-ms.c (and src/ms/ms.c, which has the same code), the partial queue of
-- src/dcbo-ms. `step` is one access of `ms_enqueue` or `ms_dequeue`; nodes are addresses in a memory
-- of `next` and `val`, of which `create_ms_node` takes the next one. A count is the position of its
-- descriptor's node in the list (Chain); Writes, Knows, Steps and Invariant show that this is kept,
-- with the nodes that threads have made and not linked apart (Machine/Pairs), and Refine and Takes
-- read the list as a queue; Values follows a value from the call that is given it to the one that
-- returns it, and Queue sets the queues under the d-CBO queue. An enqueue takes effect when the tail moves on, also if another thread
-- moves it.
--
-- Not modelled: reclamation (ssmem: a node is not handed out again; Treiber has the call of
-- ssmem_free, after which the code reads the node, and nothing is shown of that read), registration of
-- threads, statistics, the branches under RELAXATION_ANALYSIS and (but for Choices and Cas)
-- VALIDATESIZE, and the other structures of src/.
pub mod Prelude
pub mod Machine
pub mod Cas
pub mod Choices
pub mod Config
pub mod Nodes
pub mod Treiber
pub mod Dra
pub mod Relaxation
pub mod TwoDd
pub mod TwoDc
pub mod Dcbo
pub mod Ms
