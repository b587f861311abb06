-- ===== src/Cycle/Tests.antt =====
-- Worker processes from the side of the master process and of the second of them, and the start of one.
use my_nignx.Prelude.{ℕ, ◌+◌, ◌≡◌, refl, true, ltb, [], ◌∷◌, pos, if◌then◌else◌, ◌==◌, not}
use my_nignx.Pool.{Pool, new_connection}
use my_nignx.Accept.{Server}
use my_nignx.Timer.Lifetime.{empty_timer}
use my_nignx.Daemon.{Fork, fork_failed, in_parent, in_child, Pids}
use my_nignx.Cycle.{as_master, as_worker, start_loop, start_worker_process, WorkerCalls}
use my_nignx.Cycle.Places.{IsPlaced, start_worker_process-IsPlaced}

abbrev master : Pids
master = record { cur_pid = 301; parent_pid = 300; master_pid = 301 }

-- The second call of `fork` fails.
abbrev seen_by_master : ℕ → Fork
seen_by_master i = if i == 1 then fork_failed else in_parent (i + 400)

two_children :
    start_worker_process seen_by_master (λ i. i + 400) (pos 3) master ≡ as_master (400 ∷ 402 ∷ [])
unfolding start_worker_process start_loop
two_children = refl

abbrev seen_by_second : ℕ → Fork
seen_by_second i = if ltb i 1 then in_parent (i + 400) else in_child

start_worker_process-IsPlaced_example :
    IsPlaced seen_by_second
      (λ i. i + 400)
      3
      0
      master
      []
      (start_worker_process seen_by_second (λ i. i + 400) (pos 3) master)
start_worker_process-IsPlaced_example =
    start_worker_process-IsPlaced seen_by_second (λ i. i + 400) (pos 3) master

second :
    start_worker_process seen_by_second (λ i. i + 400) (pos 3) master
    ≡ as_worker 1 (record { cur_pid = 401; parent_pid = 301; master_pid = 301 })
unfolding start_worker_process start_loop
second = refl

abbrev calls : WorkerCalls
calls = record {
  creates = λ i. true;
  runs = λ i t. not (i == 0);
  socket = record {
    socketmutex = true;
    sendmutex = true;
    recymutex = true;
    timer_mutex = true;
    sendsem = true;
    creates = λ f. true;
  };
  creates_epoll = true;
  registers = λ i. true;
}

abbrev no_pool : Pool
no_pool = record {
  conn = λ c. new_connection;
  next = 0;
  connection_list = [];
  free_list = [];
  total_count = 0;
  free_count = 0;
  online_count = pos 0;
  recy_list = [];
  recy_count = 0;
  delay_time = 60;
}

abbrev server : Server
server = record {
  pool = no_pool;
  timer = empty_timer 20;
  worker_connections = 10;
  time_enable = true;
  use_accept4 = true;
}
