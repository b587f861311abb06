-- ===== src/SocketThreads/Tests.antt =====
-- Starting the threads, and shutdowns in which one of three threads runs for one round more.
use my_nignx.Prelude.{
  ℕ, ◌≡◌, ◌&&◌, ◌==◌, refl, arith, if◌then◌else◌, Bool, true, false, [], ◌∷◌, some, none, pos,
}
use my_nignx.Pool.{new_connection}
use my_nignx.SocketThreads.{
  recy_conn_thread_func, send_msg_thread_func, server_timer_queue_thread_func, InitCalls,
  initialize_sub_proc, SocketObject, shutdown_sub_proc,
}
use my_nignx.SocketThreads.Stopping.{IsShutDown, shutdown_sub_proc-IsShutDown}

abbrev calls : InitCalls
calls = record {
  socketmutex = true;
  sendmutex = true;
  recymutex = true;
  timer_mutex = true;
  sendsem = true;
  creates = λ f. true;
}

three_threads :
    initialize_sub_proc calls true []
    ≡ some (recy_conn_thread_func ∷ send_msg_thread_func ∷ server_timer_queue_thread_func ∷ [])
unfolding initialize_sub_proc
three_threads = refl

no_semaphore : initialize_sub_proc (record calls { sendsem = false }) true [] ≡ none
unfolding initialize_sub_proc
no_semaphore = refl

abbrev object : SocketObject
object = record {
  threads = 0 ∷ 1 ∷ 2 ∷ [];
  told = false;
  pool = record {
    conn = λ c. new_connection;
    next = 2;
    connection_list = 0 ∷ 1 ∷ [];
    free_list = 1 ∷ [];
    total_count = 2;
    free_count = 1;
    online_count = pos 0;
    recy_list = [];
    recy_count = 0;
    delay_time = 60;
  };
  sender = record {
    conn = λ c. new_connection;
    msg_list = [];
    msgtosend_count = pos 0;
    sendsem = 0;
    locked = false;
    wire = λ c. [];
  };
  timer = record {
    map = (9, record { lp_curconn = 0; msg_cursequence = 1 }) ∷ [];
    size = 1;
    value = 9;
    waittime = 10;
  };
  has_locks = true;
}

-- Told to end, thread 0 runs for one round more; otherwise all run for ever.
abbrev runs : Bool → ℕ → ℕ → Bool
runs told i t = if told then i == 0 && t == 0 else true

shutdown_sub_proc-IsShutDown_example :
    (s' : SocketObject) × (shutdown_sub_proc true runs 5 object ≡ some (0 ∷ 1 ∷ 2 ∷ [], s'))
    × (s'.told ≡ true)
    × IsShutDown s'
shutdown_sub_proc-IsShutDown_example =
    shutdown_sub_proc-IsShutDown runs 1 5 object (refl, (refl, (refl, tt))) (refl, tt) (λ t. refl)
      (omega arith)

-- Here it is thread 1.
abbrev second_runs : Bool → ℕ → ℕ → Bool
second_runs told i t = if told then i == 0 && t == 1 else true
