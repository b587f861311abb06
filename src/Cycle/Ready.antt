-- ===== src/Cycle/Ready.antt =====
-- A worker process after `init_worker_process`.
use my_nignx.Prelude.{ℕ, ◌≡◌, Bool, true, false, ◌&&◌, List, [], ◌∷◌}
use my_nignx.Pool.{Pool}
use my_nignx.SocketThreads.{
  recy_conn_thread_func, send_msg_thread_func, server_timer_queue_thread_func, ThreadFunc,
}
use my_nignx.Cycle.{WorkerCalls}

-- The calls of a start in which nothing fails, and all threads run in round `k`.
pub record Succeeds (e : WorkerCalls) (k : ℕ) : Type 0 where
  pub makes_threads : (i : ℕ) → e.creates i ≡ true
  pub all_run : (t : ℕ) → e.runs k t ≡ true
  pub makes_locks :
      (e.socket.socketmutex
        && (e.socket.sendmutex
            && (e.socket.recymutex && (e.socket.timer_mutex && e.socket.sendsem))))
      ≡ true
  pub makes_helpers : (f : ThreadFunc) → e.socket.creates f ≡ true
  pub makes_epoll : e.creates_epoll ≡ true
  pub listens : (i : ℕ) → e.registers i ≡ true

-- The threads that the socket object starts: the one for the timer only if that is on.
abbrev pub helpers_of : Bool → List ThreadFunc
helpers_of true = recy_conn_thread_func ∷ send_msg_thread_func ∷ server_timer_queue_thread_func ∷ []
helpers_of false = recy_conn_thread_func ∷ send_msg_thread_func ∷ []
