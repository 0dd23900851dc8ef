-- ===== src/Lib.antt =====
-- The Pintos kernel of mount/lab2/pintos/src, with the alarm clock that replaces busy waiting, and the
-- shell of lab1.
--
-- The parts and how they interact. The timer interrupt (devices/timer.c) counts ticks, wakes the
-- sleeping threads whose alarm has come and charges the running thread a tick; the interrupt handler
-- (threads/interrupt.c) lets that thread yield when its time slice is over. Threads
-- (threads/thread.c) are created on pages of the page allocator (threads/palloc.c), which keeps a
-- bitmap (lib/kernel/bitmap.c) of the pages in use for each of its two pools. Threads wait for one
-- another on semaphores, locks and condition variables (threads/synch.c), and for interrupt handlers
-- on interrupt queues (devices/intq.c). The free map of the file system (filesys/free-map.c) keeps a
-- bitmap of the sectors in use, from which inodes (filesys/inode.c) get the sectors of their files;
-- several open files (filesys/file.c) share one inode and count on it. The functions on blocks and
-- strings (lib/string.c) serve all of them.
--
-- The shell (lab1/lsh.c) strips a line of its spaces, parses it (lab1/parse.c) and starts a child for each
-- command of the pipeline, the last one first, each with a pipe to the one before.
--
-- Files:
--   Prelude    shared names, comparisons, bits of a number, lists of threads, results of operations
--   Bitmap     lib/kernel/bitmap.c; Bit, Ranges, Scan and Create hold its theorems
--   Vaddr      threads/vaddr.h: addresses and pages
--   Palloc     threads/palloc.c; State holds its invariant, Get, Free and Init its theorems
--   Thread     threads/thread.c and the interrupt state of threads/interrupt.c; Invariant holds the
--              invariant of the scheduler, Schedule, Switch, Create and Waiters its theorems
--   Timer      devices/timer.c; Wake, Sleepers, Tables, Interrupt and Sleep hold the
--              theorems on its operations, Steps, Safe and Runs those on sequences of them
--   Synch      threads/synch.c; Sema, Locks and Conditions hold its theorems
--   Intq       devices/intq.c; Queue and Waiting hold its theorems
--   FreeMap    filesys/free-map.c; Sectors holds its theorems
--   Strings    lib/string.c; Blocks and Text hold its theorems
--   KernelList lib/kernel/list.c; Ordered and Sort are its operations that compare. Linked and State say
--              what a list of the memory is; Insert, Remove, Ends, Deque, Size, Reverse, Sorted, Unique
--              and Extremes hold theorems, and so do Merge, Runs, Passes and Sorting, on the sort
--   Division   lib/arithmetic.c; Quotient holds its theorem
--   Random     lib/random.c; State holds its theorem
--   Sorting    lib/stdlib.c; Swap, Heap, Heapify and Sorted hold the theorems on the sort, Search that on
--              the search
--   Hash       lib/kernel/hash.c; Moves and Table hold the theorems on its buckets, Update those on its
--              operations
--   Inode      filesys/inode.c; Read, Write and RoundTrip hold the theorems on reading and writing, Table
--              those on the list of open inodes
--   File       filesys/file.c; Counts, Opened, Fresh, Opening, Flagged, Denying and Closing hold its theorems
--   Parse      lab1/parse.c; Lexer, Bounds, RoundTrip and Pipelines hold its theorems
--   Lsh        lab1/lsh.c; Strip, Wiring, Pipeline and Standard hold its theorems
--   Tests      runs at concrete inputs
--
-- How code becomes definitions. A C function is a function of the same name. The static variables and
-- the structures that it reaches are the record that it takes first and returns changed. A function
-- that can fail an assertion or reach PANIC returns a Result: `panic` for those, `fault` for an access
-- outside an object. Machine integers are numbers with their wrap-around written out: `size_t` and
-- pointers have 32 bits, as the kernel runs on the 80x86. A loop whose bound the code computes runs on
-- that bound, the number of iterations that are left, so that no fuel can run out. A loop over a string
-- runs on fuel, one unit for each byte; more fuel than the string has bytes is enough.
--
-- A call is one step of the state. A function that switches threads ends in the state in which the
-- next thread runs. Interrupts that arrive inside a call are outside the model: runs of the alarm
-- clock (Timer/Steps) take each call and each timer interrupt as one step, and leave out an
-- interrupt inside timer_sleep, which has interrupts on while it sets the alarm and changes the
-- list of sleepers. Outside the model are also stacks, names of threads, the code that a thread
-- runs, and the switch itself (threads/switch.S). The lists of the threads, semaphores and
-- sleepers are sequences here; lib/kernel/list.c itself is modelled apart, in KernelList, on
-- pointers. Mapped addresses are not checked. Of the kernel, the build without USERPROG is
-- modelled.
--
-- The loops of list.c run on fuel, one unit for each element and up to three more; an element is met
-- once by each loop, and a pass of the sort at least halves the runs.
--
-- Of the shell, what open, creat, pipe, fork and chdir return is an argument, and what the shell asks of
-- the system is the list of its calls; a fork does not fail. What a child has as its descriptors follows
-- from its calls of dup2 and close. The parser runs on fuel, one unit more than
-- the line has characters, which is enough for each line that its buffers hold. Signals, messages and
-- readline are left out.
--
-- Of the file system, the disk is a byte for each sector and offset, which block_read and block_write of
-- devices/block.c move by whole sectors; the PANIC for a sector past the end of the device, and the
-- assertion that it is not foreign, are left out; whether malloc and calloc give memory, and where, is an argument.
-- Arrays to sort give each byte of each element, and the comparison, like the hash and the order of a hash
-- table, is an argument with what it promises as a hypothesis.
--
-- Not modelled: the block allocator (threads/malloc.c), directories (filesys/directory.c), page directories
-- (userprog/pagedir.c), tar headers (lib/ustar.c) and the iterators of hash.c; formatted output, the other
-- device drivers, loading of user programs and the boot code, which are mostly access to hardware; the
-- batch scheduler, whose operations are stubs; test programs and utilities.
pub mod Prelude
pub mod Bitmap
pub mod Vaddr
pub mod Palloc
pub mod Thread
pub mod Timer
pub mod Synch
pub mod Intq
pub mod FreeMap
pub mod Strings
pub mod KernelList
pub mod Division
pub mod Random
pub mod Sorting
pub mod Hash
pub mod Inode
pub mod File
pub mod Parse
pub mod Lsh
mod Tests
