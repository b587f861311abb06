-- ===== src/SocketThreads.antt =====
-- The threads that the socket object starts in a worker process and stops with it:
-- `Initialize_SubProc`, `Shutdown_SubProc` and the loops of the thread functions, in
-- net/c_socket.cxx and net/socket_time.cxx. A result `none` ends the process, waits for ever,
-- joins a thread twice, or wants more fuel.
pub mod Stopping
mod Tests
use my_nignx.Prelude.{
  ◌>>=◌, ℕ, zero, suc, ◌+◌, ◌-◌, Bool, true, false, not, ◌&&◌, ◌||◌, List, [], ◌∷◌, ◌++◌, Option,
  none, some, ltb, ◌==◌, if◌then◌else◌, length,
}
use my_nignx.Pool.{Pool, recy_conn_round, connectpool_clean}
use my_nignx.Send.{Sender, SendOutcome, send_thread_round, sendmsglist_clean}
use my_nignx.Timer.{Timer, timer_round, timermap_clean}
use my_nignx.Workers.Stopping.{wait_stopped}

pub data ThreadFunc : Type 0 where
  recy_conn_thread_func send_msg_thread_func server_timer_queue_thread_func : ThreadFunc

-- What the calls of `Initialize_SubProc` return: whether each mutex and the semaphore can be made, and
-- each thread.
pub record InitCalls : Type 0 where
  pub socketmutex : Bool
  pub sendmutex : Bool
  pub recymutex : Bool
  pub timer_mutex : Bool
  pub sendsem : Bool
  pub creates : ThreadFunc → Bool

-- The thread item is in `m_threadVector` before the thread is made.
abbrev pub start_thread : InitCalls → ThreadFunc → List ThreadFunc → Option (List ThreadFunc)
start_thread e f threads = if e.creates f then some (threads ++ (f ∷ [])) else none

unfoldable pub initialize_sub_proc : InitCalls → Bool → List ThreadFunc → Option (List ThreadFunc)
initialize_sub_proc e time_enable threads =
    if e.socketmutex && (e.sendmutex && (e.recymutex && (e.timer_mutex && e.sendsem)))
    then (do
      recy ← start_thread e recy_conn_thread_func threads
      send ← start_thread e send_msg_thread_func recy
      if time_enable then start_thread e server_timer_queue_thread_func send else some send)
    else none

-- One turn of a thread's loop: `told_first` is what the test at its head reads, and `told` what the
-- test behind a wait or a lock reads. The first result says whether the loop goes on.
unfoldable pub recy_conn_turn : Bool → Bool → (ℕ → ℕ) → Pool → Bool × Pool
recy_conn_turn told_first told clock p =
    if told_first
    then (false, p)
    else (not (ltb 0 p.recy_count && told), recy_conn_round told clock p)

-- Behind `sem_wait`: the messages are sent unless the thread is told to end.
abbrev pub after_sem_wait : Bool → (ℕ → SendOutcome) → Sender → Option (Bool × Sender)
after_sem_wait told outs s = if told then some (false, s) else send_thread_round outs s

-- A semaphore at 0 is a wait: the turn is given with what it counts when the wait ends.
unfoldable pub send_msg_turn : Bool → Bool → (ℕ → SendOutcome) → Sender → Option (Bool × Sender)
send_msg_turn told_first told outs s =
    if told_first
    then some (false, s)
    else (if s.sendsem == 0
        then none
        else after_sem_wait told outs (record s { sendsem = s.sendsem - 1 }))

abbrev pub goes_on : Option (Timer × Pool) → Option (Bool × Timer × Pool)
goes_on none = none
goes_on (some (t, p)) = some (true, t, p)

unfoldable pub server_timer_turn :
    Bool → Bool → ℕ → Bool → ℕ → ℕ → Timer → Pool → Option (Bool × Timer × Pool)
server_timer_turn told_first time_enable fuel closed now cur_time t p =
    if told_first || not time_enable
    then some (false, t, p)
    else goes_on (timer_round fuel closed now cur_time t p)

-- The socket object at the end of a worker process.
pub record SocketObject : Type 0 where
  pub threads : List ℕ
  pub told : Bool
  pub pool : Pool
  pub sender : Sender
  pub timer : Timer
  pub has_locks : Bool

-- The three lists are emptied, and the mutexes and the semaphore given up.
abbrev pub cleaned : SocketObject → SocketObject
cleaned s = record s {
  threads = [];
  pool = connectpool_clean s.pool;
  sender = sendmsglist_clean s.sender;
  timer = timermap_clean s.timer;
  has_locks = false;
}

abbrev pub if_joined : SocketObject → Option (Bool × List ℕ) → Option (List ℕ × SocketObject)
if_joined s none = none
if_joined s (some (b, joined)) = some (joined, cleaned s)

-- `posts` says whether the wake-up of the send thread succeeds; `runs b i` which threads run in round
-- `i` of the wait, if `b` says whether they have been told to end. The first result is the threads joined, in their order.
unfoldable pub shutdown_sub_proc :
    Bool → (Bool → ℕ → ℕ → Bool) → ℕ → SocketObject → Option (List ℕ × SocketObject)
unfolding wait_stopped
shutdown_sub_proc posts runs fuel s =
    let s' : SocketObject = record s { told = true } in
    if posts
    then if_joined s' (wait_stopped (λ i. true) (runs s'.told) fuel 0 s'.threads [])
    else some ([], s')
