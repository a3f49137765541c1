-- ===== src/Lib.antt =====
-- This library models the core of cnerium, the coroutine runtime of Vix.cpp: the scheduler on
-- which coroutines are resumed, and the services that hand coroutines back to it. All names are
-- those of the source unless a comment says otherwise, and paths are from the root of the
-- repository.
--
-- The parts and how they interact. A `scheduler` owns two queues, of coroutine handles and of
-- callables, that one thread drains in `run`. An `io_context` owns a scheduler and creates its
-- services on first use: the `thread_pool`, which runs callables on worker threads, the `timer`,
-- which keeps a queue of deadlines on a thread of its own, the `signal_set`, which waits for
-- signals on another, and the network service, which runs the event loop of Asio. Each service
-- ends an await by posting the waiting coroutine to the scheduler. A `task` owns the frame of a
-- coroutine and passes its result, or its exception, to the coroutine that awaits it;
-- `spawn_detached`, `when_all` and `when_any` are built on it. Cancellation is a flag that tokens
-- share with their source.
--
--   Prelude, Prelude/*             helpers that all parts share; a bag is a list up to order
--   Error, Error/Codes             include/vix/async/core/error.hpp
--   Cancel, Cancel/Observe         include/vix/async/core/cancel.hpp
--   Scheduler, Scheduler/*         include/vix/async/core/scheduler.hpp
--   ThreadPool, ThreadPool/*       include/vix/async/core/thread_pool.hpp, src/core/thread_pool.cpp
--   Timer, Timer/*                 include/vix/async/core/timer.hpp, src/core/timer.cpp
--   When, When/All, When/Any       include/vix/async/core/when.hpp, with the loop of scheduler.hpp
--                                  in When/Turns
--   Sleep, Sleep/*                 src/core/timer.cpp with the scheduler of its context
--   Offload, Offload/*             include/vix/async/core/thread_pool.hpp with its scheduler
--   Signal, Signal/*               include/vix/async/core/signal.hpp, src/core/signal.cpp
--   Task, Task/Await, Task/Owner   include/vix/async/core/task.hpp
--   Task/Spawn                     include/vix/async/core/spawn.hpp
--   IoContext, IoContext/*         include/vix/async/core/io_context.hpp, src/core/io_context.cpp
--   Net, Net/Await                 src/net/asio_await.hpp
--   Net/Tcp, Net/Udp, Net/Dns      include/vix/async/net and src/net/asio_tcp.cpp, asio_udp.cpp,
--                                  asio_dns.cpp, with their theorems in Net/Flow and Net/Setup
--   Net/Service                    src/net/asio_net_service.hpp, src/net/asio_net_service.cpp
--   Log, Log/*                     include/vix/async/detail/log.hpp
-- The files called Tests hold runs of the definitions and the theorems at concrete inputs.
--
-- How state and operations correspond. An object is a record of its fields and an operation a
-- function from the record to the record, with what it gives back. A section under a mutex is one
-- step (in the logger, one insertion into the stream is; a turn of the scheduler takes what
-- follows it along: the resumption or the call of what it took), and so is an atomic operation; a
-- thread is a place in its loop, and its moves, the calls of other threads and the passage of
-- time are events, of which `exec` runs any sequence: any interleaving of the sections. A wait on
-- a condition variable is its predicate: a thread whose predicate is false stays where it is. A
-- coroutine handle is a number, and 0 is null. An exception is a value of `Exception`, and a call
-- that can throw gives an `Outcome`. What the source does without a defined meaning, such as
-- reading an empty optional, is `none`.
--
-- Bounds. The counters of the source keep their width: the sequence number of the timer and the
-- counter of `when_all` wrap at 2^64, and `error_category::message` takes the low byte of its
-- argument. No definition needs fuel: all recursion is on lists.
--
-- Not modelled: memory orders weaker than the sequence of events, failures of allocation and of
-- thread creation, the reference counts of shared pointers, and the moves of values. Asio is a
-- parameter: an operation is given by how it refuses to start or by what it calls its handler
-- with, once, and its event loop by when it may return. The process signal mask, and the
-- configuration headers, which hold macros, type traits and version constants, are not modelled.
pub mod Prelude
pub mod Error
pub mod Cancel
pub mod Scheduler
pub mod Task
pub mod ThreadPool
pub mod Timer
pub mod When
pub mod Sleep
pub mod Offload
pub mod Signal
pub mod IoContext
pub mod Net
pub mod Log
