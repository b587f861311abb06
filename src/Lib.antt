-- ===== src/Lib.antt =====
-- MyNignx: a TCP server with one event loop, a worker thread pool, delayed recycling of connections,
-- a send queue and a heartbeat timer. This library models its core, class `CSocket` and what it
-- stands on, as functions on explicit states, and proves what makes them correct.
--
-- The parts and how they interact. `epoll` reports a connection that can be read:
-- `event_readable_request_handler` reads the packet header, then the body, and puts the whole message
-- into the queue of the thread pool. A worker handles a message and queues its reply; the send
-- thread writes replies out, and leaves what does not fit to `event_writable_request_handler`. The
-- timer thread looks at each client once in a waiting time and closes those that have not pinged.
-- A closed connection object waits in the recycling list until the recycling thread gives it back to
-- the pool. A message names its connection object together with the object's sequence number, which
-- `JudgeOutdate` compares. `main` reads the configuration, opens the listening sockets, becomes a daemon
-- and makes the worker processes, each of which starts these threads and enters its event loop.
--
-- Which file models which part:
--   Prelude       shared helpers: tests and lists over native numbers, integers, counting
--   Sys, Epoll    errno values; `epoll_oper_event` of net/c_socket.cxx
--   Conn          `connection_s` of _include/comm.h with the members of net/socket_conn.cxx
--   Recv          `recvproc`, `event_readable_request_handler` and the `pkg_*` functions of
--                 net/socket_request.cxx; Framing is the abstract decoder, Memory, State, Header, Body
--                 and Machine relate the machine to it, Stream and Faults are about whole runs
--   Pool          the pool functions of net/socket_conn.cxx and of net/c_socket.cxx `connectpool_init`,
--                 `connectpool_clean`, `InRecyConnQueue` and `RecyConnThreadFunc`
--   Send          `sendproc` and `event_writable_request_handler` of net/socket_request.cxx,
--                 `MsgSendInQueue` and `SendMsgThreadFunc` of net/c_socket.cxx; Order is about the
--                 queue, Writable and Packet about packets that go out in parts
--   Timer         net/socket_time.cxx
--   Accept        net/socket_accept.cxx
--   Events        `epoll_process_events` and `epoll_event_init` of net/c_socket.cxx: the handlers of the
--                 parts above over one set of connection objects
--   Text, Conf    `Ltrim` and `Rtrim` of app/func_string.cxx; `CConfig` of app/c_conf.cxx
--   Listen        `ReadConf`, `open_listen_sockets` and `Initialize` of net/c_socket.cxx
--   Fmt, Format   `ui64_string` and `frac_string`; `fmt_string` of app/func_string.cxx
--   Log           app/func_log.cxx: the lines of the log
--   Signals       signal/signal.cxx
--   Workers       threadpool/c_threadpool.cxx: the queue of messages and the worker threads; Handled is
--                 about what they handle, Stopping about `Create`, `StopAll` and the destructor
--   Crc           misc/c_crc32.cxx
--   Logic         socketlogic/c_socketlogic.cxx: `ThreadRecvProc` and the three handlers
--   Process       a worker process: event loop, pool threads, send thread, timer thread and recycling
--                 thread over one state, each step of one of them a move, in any order; a child module
--                 for each part that the moves touch, then Safety, Runs and Answer
--   SocketThreads `Initialize_SubProc`, `Shutdown_SubProc` and the loops of the three thread functions of
--                 net/c_socket.cxx and net/socket_time.cxx
--   Title         app/func_proctitle.cxx, and the title in `master_process_cycle`
--   Daemon        proc/proc_deamon.cxx
--   Cycle         proc/proc_cycle.cxx: the worker processes and `init_worker_process`
--   Startup       app/nginx.cxx: `main` and `freeresource`
--
-- State is a record with the fields of the class (or of the part of it that the functions use), and
-- an operation is a function with the name of the source's, in lower case. What a system call
-- returns is an argument. A result `none` is undefined behaviour in Recv, Conf, Listen, Format,
-- Log, Signals, Title and Startup, the end of the process in Cycle, Pool, Timer, Accept, Events and
-- Workers, a wait that never ends in Send and Logic, a thread joined twice where threads are
-- stopped, a read past the table of handlers in Logic, and too little fuel where a function has
-- fuel. A connection object is a number, its address.
--
-- Loops over lists are structural. The loop of the timer thread that collects what is due runs on
-- fuel; fuel above the number of due entries is proved to be enough. So do the loop that waits for
-- children and the waits for threads; those of `Create`, `StopAll` and `Shutdown_SubProc` end with
-- fuel above the number of rounds in which the thread waited for still runs, and the loop with fuel
-- above the number of calls that keep it going. Counters of the type `uint64_t` wrap at 2^64; `int`
-- counters are integers, as they stay small.
--
-- Not modelled: locks that are taken and given back within one function (such a function is one
-- step); the mutex that the timer thread holds over its whole round, so that Process allows more
-- orders than the program has; signal masks, umask and chdir, which are system calls with no effect
-- on what is modelled; the loop of the master process, which only waits for signals; `PrintInfo`
-- and `CConfig::Test`, which only print. The stop branches of the threads are in SocketThreads and
-- Workers, and not among the moves of Process, as its loop has no end. What is logged on the way is
-- left out of the other parts.
pub mod Prelude
pub mod Sys
pub mod Epoll
pub mod Conn
pub mod Recv
pub mod Pool
pub mod Send
pub mod Timer
pub mod Crc
pub mod Logic
pub mod Accept
pub mod Events
pub mod Text
pub mod Conf
pub mod Listen
pub mod Fmt
pub mod Format
pub mod Log
pub mod Signals
pub mod Workers
pub mod Process
pub mod Title
pub mod SocketThreads
pub mod Daemon
pub mod Cycle
pub mod Startup
