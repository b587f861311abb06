-- ===== src/Cycle.antt =====
-- Master and worker processes: proc/proc_cycle.cxx. A process is seen from the side on which `fork`
-- returns. The loops of the master process and of a worker process have no end: what a worker process
-- does in its loop is in Process.
pub mod Places
pub mod Settled
pub mod Ready
mod Tests
use my_nignx.Prelude.{
  ◌>>=◌, ℕ, zero, suc, ◌+◌, Bool, List, [], ◌∷◌, ◌++◌, Option, none, some, length, ℤ, pos, pos_part,
  codes,
}
use my_nignx.Conf.{ConfItem, get_int}
use my_nignx.Pool.{Pool}
use my_nignx.Accept.{Server}
use my_nignx.Daemon.{Fork, fork_failed, in_parent, in_child, Pids}
use my_nignx.Workers.Stopping.{create_loop, wait_running}
use my_nignx.SocketThreads.{ThreadFunc, InitCalls, initialize_sub_proc}
use my_nignx.Events.Start.{epoll_event_init}
use my_nignx.Workers.{thread_round}
use my_nignx.Process.{Process, with_workers, started}

-- Where a process is after `start_worker_process`: the master process, with the children it has made,
-- or in the loop of the worker process with this number, from which it never comes back.
pub data Place : Type 0 where
  as_master : List ℕ → Place
  as_worker : ℕ → Pids → Place

-- A child knows itself and its parent.
abbrev pub child_pids : ℕ → Pids → Pids
child_pids pid p = record p { cur_pid = pid; parent_pid = p.cur_pid }

-- `spawn_process`, and what comes after it.
abbrev pub spawn_process : Fork → ℕ → ℕ → Pids → List ℕ → (List ℕ → Place) → Place
spawn_process fork_failed pid proc_num p children later = later children
spawn_process (in_parent child) pid proc_num p children later = later (children ++ (child ∷ []))
spawn_process in_child pid proc_num p children later = as_worker proc_num (child_pids pid p)

-- The loop for `n` more processes, the next one being number `proc_num`.
unfoldable pub start_loop : (ℕ → Fork) → (ℕ → ℕ) → ℕ → ℕ → Pids → List ℕ → Place
start_loop forks getpid zero proc_num p children = as_master children
start_loop forks getpid (suc n) proc_num p children =
    spawn_process (forks proc_num) (getpid proc_num) proc_num p children
      (start_loop forks getpid n (proc_num + 1) p)

unfoldable pub start_worker_process : (ℕ → Fork) → (ℕ → ℕ) → ℤ → Pids → Place
unfolding start_loop
start_worker_process forks getpid process_count p =
    start_loop forks getpid (pos_part process_count) 0 p []

-- The number of worker processes, 2 if the configuration does not say; then they are made.
unfoldable pub master_process_cycle : List ConfItem → (ℕ → Fork) → (ℕ → ℕ) → Pids → Option Place
unfolding start_worker_process
master_process_cycle items forks getpid p = do
  count ← get_int items (codes "WorkProcesses") (pos 2)
  some (start_worker_process forks getpid count p)

-- What `init_worker_process` meets: whether each thread of the pool can be made, which run in a round
-- of the wait, the calls of the socket object, and those of epoll.
pub record WorkerCalls : Type 0 where
  pub creates : ℕ → Bool
  pub runs : ℕ → ℕ → Bool
  pub socket : InitCalls
  pub creates_epoll : Bool
  pub registers : ℕ → Bool

-- A worker process after `init_worker_process`: `m_threadvec` of the thread pool and `m_threadVector` of
-- the socket object, and the state that they share.
pub record Worker : Type 0 where
  pub process : Process
  pub pool_threads : List ℕ
  pub helpers : List ThreadFunc

-- When `Create` returns, each thread of the list has come to its first wait, which sets `running`.
abbrev pub settled : List ℕ → Process → Process
settled [] p = p
settled (t ∷ ts) p = settled ts (with_workers (thread_round t) p)

-- `listening` are the descriptors of the listening sockets, and `waittime` the time that the
-- configuration says.
unfoldable pub init_worker_process :
    WorkerCalls → ℕ → List ConfItem → List ℕ → ℕ → ℕ → Pool → Server → Option Worker
unfolding create_loop wait_running initialize_sub_proc epoll_event_init
init_worker_process e fuel items listening connections waittime blank s = do
  n ← get_int items (codes "ThreadNum") (pos 10)
  threads ← create_loop e.creates (pos_part n) 0 []
  round ← wait_running e.runs fuel 0 threads
  helpers ← initialize_sub_proc e.socket s.time_enable []
  r ← epoll_event_init e.creates_epoll e.registers connections listening blank
  some (record {
    process = settled threads (started (length threads) waittime r.1 s);
    pool_threads = threads;
    helpers = helpers;
  })
