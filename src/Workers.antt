-- ===== src/Workers.antt =====
-- The thread pool: threadpool/c_threadpool.cxx. What a thread does between two points at which it
-- waits or gives the mutex back is one step; a null message is `none`.
pub mod Run
pub mod Order
pub mod Handled
pub mod Stopping
mod Tests
use my_nignx.Prelude.{
  ℕ, zero, suc, ◌+◌, Bool, true, false, not, ◌&&◌, List, [], ◌∷◌, ◌++◌, Option, none, some, ltb,
  ◌==◌, if◌then◌else◌, ℤ, pos, incr, decr, update, size_decr,
}
use my_nignx.Conn.{Message}

-- Where a thread is: before the lock, in `pthread_cond_wait`, in `ThreadRecvProc`, or past its loop.
pub data Place : Type 0 where
  before_lock in_wait in_proc past_loop : Place

pub record ThreadItem : Type 0 where
  pub msg_ptr : Option Message
  pub running : Bool
  pub ifshutdown : Bool
  pub place : Place

-- The threads of `m_threadvec` have the numbers below `create_thread`.
pub record ThreadPool : Type 0 where
  pub msgqueue : List (Option Message)
  pub msgqueue_size : ℕ
  pub running_thread : ℤ
  pub create_thread : ℕ
  pub shutdown : Bool
  pub threads : ℕ → ThreadItem

abbrev pub new_thread : ThreadItem
new_thread = record { msg_ptr = none; running = false; ifshutdown = false; place = before_lock }

-- The constructor, and `Create` for `n` threads.
unfoldable pub create_threads : ℕ → ThreadPool
create_threads n = record {
  msgqueue = [];
  msgqueue_size = 0;
  running_thread = pos 0;
  create_thread = n;
  shutdown = false;
  threads = λ i. new_thread;
}

abbrev pub set_thread : ℕ → ThreadItem → ThreadPool → ThreadPool
set_thread i w p = record p { threads = update p.threads i w }

unfoldable pub in_msg_recv : Option Message → ThreadPool → ThreadPool
in_msg_recv m p = record p {
  msgqueue = p.msgqueue ++ (m ∷ []);
  msgqueue_size = p.msgqueue_size + 1;
}

abbrev pub pop_front : List (Option Message) → ThreadPool → Option Message × ThreadPool
pop_front [] p = (none, p)
pop_front (m ∷ ms) p = (m, record p { msgqueue = ms; msgqueue_size = size_decr p.msgqueue_size })

unfoldable pub get_msg_item : ThreadPool → Option Message × ThreadPool
get_msg_item p = pop_front p.msgqueue p

abbrev pub is_empty : List (Option Message) → Bool
is_empty [] = true
is_empty (m ∷ ms) = false

-- With a message from the queue the thread works; with a null one it goes back to the lock.
abbrev pub take_up : ℕ → Option Message × ThreadPool → ThreadPool
take_up i (none, p) = set_thread i (record (p.threads i) { msg_ptr = none; place = before_lock }) p
take_up i (some m, p) =
    record (set_thread i (record (p.threads i) { msg_ptr = some m; place = in_proc }) p) {
      running_thread = incr p.running_thread;
    }

-- A thread that has the mutex, from its lock or from a wake-up, until it gives it back.
unfoldable pub thread_round : ℕ → ThreadPool → ThreadPool
unfolding get_msg_item
thread_round i p =
    let w = p.threads i in
    if is_empty p.msgqueue && not w.ifshutdown
    then set_thread i (record w { running = true; place = in_wait }) p
    else (if w.ifshutdown
        then set_thread i (record w { running = false; place = past_loop }) p
        else take_up i (get_msg_item p))

-- `ThreadRecvProc` has returned: the message is given up.
unfoldable pub thread_done : ℕ → ThreadPool → ThreadPool
thread_done i p =
    record (set_thread i (record (p.threads i) { msg_ptr = none; place = before_lock }) p) {
      running_thread = decr p.running_thread;
    }

-- `StopAll` up to its waiting: `false` if it was called before.
unfoldable pub stop_all : ThreadPool → Bool × ThreadPool
stop_all p = if p.shutdown then (false, p) else (
  true,
  record p {
    shutdown = true;
    threads = λ i.
        if ltb i p.create_thread then record (p.threads i) { ifshutdown = true } else p.threads i;
  },
)
