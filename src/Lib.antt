-- ===== src/Lib.antt =====
-- A verification library for the C and C++ programs of this repository.
--
-- MiniOS/eOS_student is a small priority-based preemptive operating system. Its parts, below that
-- folder, and the modules that model them:
--   * core/common.c, the circular lists of nodes on which all queues stand. `Eos.Node` has
--     `_os_add_node_tail`, `_os_add_node_priority` and `_os_remove_node` on an explicit heap of
--     nodes; `Eos.Queue` has the sequences that the rings hold, which the modules above use.
--   * core/scheduler.c, the bitmap of ready priorities: `Eos.Bitmap`; the scheduler lock:
--     `Eos.Kernel.Lock`.
--   * core/task.c, core/timer.c: `Eos.Kernel` has the state (tasks, ready queues, alarms),
--     `Eos.Kernel.Task` the operations on tasks with `eos_schedule`, `Eos.Kernel.Timer` the alarms
--     and `Eos.Kernel.Tick` the timer interrupt.
--   * core/sync.c, semaphores, which call `eos_sleep` and `eos_schedule`: `Eos.Sync`.
--   * core/comm.c, message queues over two semaphores: `Eos.Message`.
--   * core/interrupt.c, hal/linux/interrupt.c, the registers of pending and masked interrupts and
--     the table of handlers: `Eos.Interrupt`.
--   * core/common.c, the conversion of numbers for `eos_printf`: `Eos.Format`. The loop over the
--     digits has fuel for the 32 digits that a word has at most; an `int` that overflows when a
--     number is read is `none`.
--   * hal/linux/context.c, the first context on the stack of a task: `Eos.Context`.
-- The kernel runs on one CPU and switches contexts inside `eos_schedule`. A function of the model is
-- the code up to the next switch, and what follows a switch is a function of its own; `saved` is what
-- `_os_save_context` returned. Reading or writing through `NULL` is `none` or `faulted`. Words of 32
-- bits wrap where the code computes on them. `find_node` has fuel, for which the number of nodes of
-- the ring is enough.
--
-- shlab/shlab/tsh.c is a shell with job control. `Shell.Jobs` has the job list, `Shell.Parse` the
-- parser of command lines, and `Shell.Command` the commands (`eval`, `builtin_cmd`, `do_bgfg`,
-- `waitfg`) and the signal handlers. What they print, send and wait for is a list of effects. The
-- parser's loop has fuel, for which the length of the line is enough. A write behind the array of
-- the line or of the arguments is `none`, and `overflows` for `eval`.
--
-- snudebugger/snudbg is a debugger on `ptrace`. `Debugger.Breakpoint` has its breakpoints and its
-- reads of memory (src/snudbg.c there), `Debugger.Write` its writes, with the
-- bounds of the arrays and addresses that wrap, `Debugger.Maps` the permissions of a map (src/procmaps.c).
-- What `ptrace` does is a parameter, with its documented behaviour as a hypothesis.
--
-- data-structure has containers in C++, here with numbers as keys, elements and values:
--   * 02-BST/include/BST.hpp: `Structures.Bst`; 03-rbtree/include/rbtree.hpp, a left-leaning
--     red-black tree: `Structures.RbTree` (insertion), `Structures.RbTree.Remove` (removal) and
--     `Structures.RbTree.Walk` (searches, depth, levels, leaves). `Structures.Keys` has the sorted
--     lists of keys that both trees stand for. An owning pointer is a tree, a read through a null
--     pointer is `none`. A removal that rotates before it goes down has fuel; the number of nodes
--     is enough.
--   * 04-btree/include/btree.hpp: `Structures.BTree` (walks and search), `Structures.BTree.Insert`
--     and `Structures.BTree.Remove`, for the type size_t of keys and any `B`. The arrays of a node
--     are functions of the index, and the slots past the `n` keys keep what the code leaves there.
--     `BTreeNode::insert` and `remove` have fuel; the depth of the tree plus one is enough.
--   * 01-deque/include/deque.hpp, the deque in an array that grows: `Structures.Deque.Array`.
--     `Structures.Palindrome` is 01-deque/palindrome/include/palindrome.hpp, over an interface of
--     deques that the array deque is shown to have. The loops that count with an `int` against a
--     `size_t` end where the `int` becomes negative.
--   * 05-hashtable/include, open addressing: `Structures.HashTable`, for any hash function and any
--     probing sequence. The count of the probing loop is what its bound `table_size` leaves; the
--     fuel of `put` bounds how often one call enlarges the table.
--
-- CPU-cache/WonhoLee_Lab4/cache_base is the set-associative cache of a simulator of memory
-- hierarchies: `Simulator.CacheBase`. The numbers of sets and of bytes in a line are powers of two;
-- a set's ways are a function of their numbers.
--
-- Not modelled: malloclab/mm.c; what `malloc` and `free` do; inline assembly, the emulated hardware
-- and `vsprintf`; functions without a body, and condition variables, which call such
-- functions; the command loop of the debugger and its registers but `rip`; the deque in
-- a linked list, the Fibonacci heap, the graph, and the queues between the
-- caches of the simulator; what prints a
-- container; programs in Verilog.
pub mod Base
pub mod Eos
pub mod Shell
pub mod Debugger
pub mod Structures
pub mod Simulator
