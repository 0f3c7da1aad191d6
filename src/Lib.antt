-- ===== src/Lib.antt =====
-- futextest: tests of the Linux futex system call, their headers and their locks.
--
-- The parts of the repository, and the files that model them:
--   include/atomic.h                 Futex/Atomic.antt: `atomic_t` is an integer that wraps as an int
--   include/futextest.h              Futex.antt: the operations on a futex word, a number below 2 ^ 32
--                                    Syscall.antt: the wrappers, as the arguments that they pass
--   include/logging.h                Logging.antt: the globals and what is printed, as a console
--   performance/futex_wait.c         Mutex.antt: the lock and the loop, as a program of accesses
--                                    Perf.antt: the options and main
--   performance/harness.h            Barrier.antt: one barrier, as a program of accesses
--                                    Locktest.antt: the threads of `locktest` over both barriers and
--                                    the lock; Locktest/Parts.antt says which words belong to which
--                                    Perf.antt: the course of `locktest` and what it prints
--   functional/*.c                   Functional.antt and a child for each test: WaitTimeout,
--                                    WaitWouldblock, MismatchedOps, UninitializedHeap, MappedFile
--   functional/futex_requeue_pi.c    Requeue.antt: Waker (the two wakers), Threads (waiter, blocker,
--                                    create_rt_thread), UnitTest and Options (main);
--                                    System: the waiters, either waker and the blocker as threads
--   functional/futex_requeue_pi_signal_restart.c
--                                    SignalRestart.antt, with the waiter in SignalRestart/Waiter.antt
--                                    and its creation in SignalRestart/Threads.antt;
--                                    System: `main` and the waiter as two threads
--   the option loops of the mains    Getopt.antt
-- Common.antt has the shared names, Word.antt the C integers, Tests.antt and the Tests.antt of a
-- component its runs.
--
-- Threads: Machine.antt interleaves programs, one access of a shared word or one futex call at a
-- time. `access` names the next access of a thread and `resume` takes its value through the C code up
-- to the next one. The scheduler is any order of steps. FUTEX_WAIT and FUTEX_WAKE are a parameter,
-- the record Kernel of Kernel.antt, with the laws of futex(2) as IsFutex; a wakeup by a signal, or for
-- no reason, is a step of the kernel. Kernel/Plain.antt is a kernel that meets the laws, and
-- Machine/Schedule.antt runs a given order of turns over it.
--
-- The two PI calls of functional/futex_requeue_pi.c are the record PiKernel of Pi/Kernel.antt, with the
-- documented behaviour of FUTEX_CMP_REQUEUE_PI and FUTEX_UNLOCK_PI as IsPi; Pi/Plain.antt is a kernel
-- that meets it. Requeue/System.antt is the program of the waiters, of the two wakers and of the
-- third-party owner of f2 over it, for any number of waiters below 2 ^ 31: the counters wrap as ints. A
-- requeue may fail at any time, and a wait on f1 with a timeout may end by it at any time. The word of f1
-- never changes and no signal is sent, so a wait on f1 ends in no other way. FUTEX_WAIT of wake_complete,
-- whose word never changes either, always sleeps; it returns 0, after a wakeup or for no reason.
--
-- SignalRestart/System.antt has a step for each access of the two threads of
-- functional/futex_requeue_pi_signal_restart.c and for the delivery of SIGUSR1, over the same record
-- PiKernel. As the comments of the test say, the kernel restarts a wait on f1 that a signal interrupts and
-- ends a wait for f2 with EWOULDBLOCK. A signal may be delivered at any time after it is sent; `prompt`
-- says that one of the loop is delivered before the requeue that follows, for which `main` pauses.
--
-- A program over several words is seen through its parts: a part (Machine/Project.antt) is a window on the
-- memory with a program that runs there, and each access of the whole is one of the part or is outside
-- its window. Machine/Refines.antt takes the runs of the whole to runs of the part.
--
-- Tests: a test is a function of what the system calls reply, and its outcome is the exit status with
-- the console. Addresses are numbers. A message stands for its format string: the values printed in
-- it are left out, and so is the newline. Pauses (sleep, usleep) do not appear.
--
-- In functional/futex_requeue_pi.c the other threads and the kernel are streams: the n-th value read of
-- waiters_blocked and of waiters_woken, the n-th reply to a requeue, and whether the n-th FUTEX_LOCK_PI of
-- the waker and the calls of each thread that is joined ever return. A function that waits for ever gives
-- `none`, and so does one whose fuel has run out. Its wakers take fuel, the same for
-- their two loops: 1011 is enough for the second, since they give up after MAX_WAKE_ITERS
-- (+ THREAD_MAX) rounds, and the number of reads until all waiters are blocked for the first. So too
-- for the loop of functional/futex_requeue_pi_signal_restart.c, whose fuel is more than the rounds up to
-- the first requeue that reports a task; without one it has no end. The messages of both on stderr are
-- left out.
--
-- The number of rounds of a thread in Mutex.antt is a natural number; Perf.antt gives a negative `loops`,
-- which would run until the counter overflows, no meaning. `solo` has fuel, and four accesses for each round are enough. `atoi` is exact for
-- a number that an int holds. The op codes of <linux/futex.h> are the parameter Uapi.
--
-- In Locktest.antt all workers are there from the start: a worker that is made later is one that takes
-- its first step later, and one that is never made takes none. The calling thread starts after its loop
-- over `pthread_create`: at its first `barrier_wait` with all threads made, or else at
-- `barrier_unblock` with -1. Perf.antt says which.
--
-- Not modelled: `handle_signal`, which only prints; the clock readings of `locktest`; the scripts
-- and Makefiles, which only build and start the programs; priorities and scheduling policies.
pub mod Common
pub mod Word
pub mod Futex
pub mod Kernel
pub mod Machine
pub mod Pi
pub mod Mutex
pub mod Barrier
pub mod Locktest
pub mod Logging
pub mod Syscall
pub mod Getopt
pub mod Functional
pub mod Requeue
pub mod SignalRestart
pub mod Perf
pub mod Tests
