-- ===== src/Lib.antt =====
-- Models of the exercises of a course in systems programming: threads of Classes1, Linux drivers
-- of Classes3 and Classes5, system calls of Classes6, and an interrupt module of Classes7.
--
-- Files. Common has what the models share: tests, lists with native indices, the results of C
-- functions with undefined behaviour as a value and the allocator (Outcome), user memory with
-- the kernel's two copying functions (User), locks for one holder (Locks), the kernel's table of
-- processes (Processes) and sums over the threads (Family). Circular models
-- Classes3/Circular/circular.c: `Device` is its globals, `circular_write`, `circular_read`,
-- `circular_proc_write`, `circular_init` and `circular_exit` are the functions of those names;
-- Circular/Interleaved has calls of circular_write by several threads at once, a statement of
-- its loop a step. Linked models the four copies of Classes5/linked_buffer/*/linked_buffer.c:
-- Linked is their code over the interface `Locking`, and Linked/Mutex puts in the mutex of that
-- copy; Linked/Semaphore, Spinlock and Rcu have the read and the write of their copies, each
-- with its own calls of the locks, under the names of the C functions, and Copies and Agreement
-- compare them. Linked/Interleaved has the calls of several threads at once: `Step` is a step of
-- one call, for the locks of any copy (`Discipline`), and Run, Walks, Snapshot, Totals, Lost and
-- Clearing are about the runs of these steps. Simple models, as Linked does, the three copies of
-- Classes5/simple_sync/*/simple_module.c, over the interface `Guard`.
--
-- Monitor has threads round one buffer with a mutex and a condition variable: `Step` is a step
-- of one thread, `Protocol` what a program does with its buffer, `Laws` what the threads rely on
-- of it. The ring that Classes1/Task2.c and Task6.c have in common is Monitor/Ring; the tests,
-- broadcasts and `main` of Task2 are Monitor/Bounded, those of Task6 with its flag reading_time
-- are Monitor/Phased. Ring/Order is about the order of the ring, Monitor/Invariant, Safety,
-- Progress, Deadlock and Termination are about every interleaving, and Contract and Results of
-- each program put these together. The number of threads, of their calls and the size are
-- parameters, so that no bound is set; `main` of both programs has 250 readers of 4 calls and
-- 100 writers of 10, which is as many reads as writes, and of Task6 20 times the size of 50.
--
-- ReadersWriters has readers and writers of one object with two mutexes: `Step` is again a step
-- of one thread, and what a program does with its object is a `Protocol`. First is
-- Classes1/Task1.c, where a writer just writes; Barrier is Classes1/Task4.c, where writers and
-- the critic wait for each other on a condition variable. Tally and Invariant are about the two
-- mutexes, Waits and Deadlock about the condition variable, Reached about every interleaving,
-- Tasks and Termination about the calls left. Attempts models Classes1/Task5.c and Task3.c
-- together, where a thread tries to lock one of several objects and gives up if it cannot; an
-- object of Task3 has no limit of readers. Attempts/Unlimited has Task3 for itself, which
-- Simulation relates to the parent module. As in Monitor, all numbers of `main` are parameters:
-- of Task1 2 readers, 5 writers and 100 calls each, of Task4 100 writers of 11 calls and 200
-- readers of 14, of Task3 and Task5 500 of each, with 15 and 20 calls and 50 objects. What a
-- thread does between taking a mutex and the next call that may have to wait is one step, since
-- all that it touches is guarded by the mutex, and which thread locked a mutex is not recorded.
--
-- Advanced models Classes3/Advanced/advanced.c, with the kernel's table of processes as the
-- parameter `Processes`.
--
-- Interrupts models Classes7/interrupt_module.c: `Kernel` is the kernel's side, by what each
-- call does to what is registered, scheduled or allocated, and `Step` is an interrupt or the run
-- of something scheduled.
--
-- Users models the system calls of Classes6/labsyscalls, over lists of what stands in the
-- processes: Users is topuser.c, Users/Time is timeuser.c, Users/Listing is kernelps.c, and
-- Users/Names is pidtoname.c and freeblocks.c.
--
-- Code of the kernel is a parameter: `UserAccess` (copy_to_user, copy_from_user), `Allocator`
-- (kmalloc), kstrtol, and the locks, each with the documented contract that is relied on. Files
-- called Tests have instances of them, and each property at a concrete input. Numbers of type
-- size_t and loff_t are natural numbers taken modulo 2 ^ 64. The `int` that counts in
-- circular_write overflows at 2 ^ 31, which is undefined behaviour in the model; the kernel
-- passes no such counts. A handler is a function from its arguments and the globals to its
-- result and the new globals. The loop of linked_write takes fuel for a round for each four
-- bytes begun and two more, which is shown to be enough; the other loops recur on the list or on
-- the rounds left.
--
-- Not modelled: printk, delays, the tables of file operations, calls that interleave but for
-- those of Linked/Interleaved and Circular/Interleaved, what pthread_cancel does but for the
-- text that the critic prints, and the programs that try the system calls.
pub mod Common
pub mod Circular
pub mod Linked
pub mod Simple
pub mod Monitor
pub mod Users
pub mod ReadersWriters
pub mod Attempts
pub mod Advanced
pub mod Interrupts
