-- ===== src/Process.antt =====
-- A worker process at work: the event loop, the threads of the pool, the send thread, the timer
-- thread and the recycling thread over one state, interleaved in any order. What a thread does
-- while it holds its mutex, or between two points of its loop, is one move: the send thread moves
-- message by message (net/c_socket.cxx), the timer thread entry by entry (net/socket_time.cxx). The
-- timer's mutex, which that thread holds from `collects` to its last `checks`, is left out: there
-- are more orders than in the program.
pub mod Pointers
pub mod Pools
pub mod Accepting
pub mod Receiving
pub mod Sending
pub mod Replying
pub mod Timing
pub mod Worlds
pub mod Polling
pub mod Threads
pub mod Starting
pub mod Upkeep
pub mod Safety
pub mod Runs
pub mod Answer
mod Tests
use my_nignx.Prelude.{
  ℕ, suc, ◌<◌, ◌≡◌, ◌≢◌, Bool, true, false, ◌||◌, List, [], ◌∷◌, ◌++◌, Option, none, some, ltb,
  ◌==◌, ℤ, pos, ltb_ℤ,
}
use my_nignx.Conn.{Message, MsgHeader}
use my_nignx.Pool.{Pool, recy_conn_round}
use my_nignx.Pool.Lifetime.{IsBlank}
use my_nignx.Send.{Sender, SendOutcome, Fate, stays, goes, thread_ends, send_message}
use my_nignx.Timer.{Timer, collect_over_time, time_checking_proc}
use my_nignx.Timer.Lifetime.{empty_timer}
use my_nignx.Accept.{Server}
use my_nignx.Workers.{past_loop, ThreadPool, create_threads, thread_round, thread_done}
use my_nignx.Workers.Run.{works}
use my_nignx.Logic.{thread_recv_proc}
use my_nignx.Events.{World, WaitCall, sending, sent_by, epoll_process_events}
use my_nignx.Events.Start.{epoll_event_init}
use my_nignx.Events.Loop.{KnownCall}

-- Where the send thread is: in `sem_wait`, in its walk over the list with the mutex taken (the messages
-- it has left there, and those before it), or past its loop.
pub data SendPlace : Type 0 where
  in_sem_wait : SendPlace
  walking : (kept rest : List Message) → SendPlace
  ended : SendPlace

-- `to_exam` is `list_toexam`, what the timer thread has still to examine.
pub record Process : Type 0 where
  pub world : World
  pub send_place : SendPlace
  pub to_exam : List MsgHeader

abbrev pub with_workers : (ThreadPool → ThreadPool) → Process → Process
with_workers f p = record p { world = record p.world { workers = f p.world.workers } }

abbrev pub with_pool : (Pool → Pool) → Process → Process
with_pool f p = record p {
  world = record p.world { server = record p.world.server { pool = f p.world.server.pool } };
}

abbrev pub with_timer : Timer → Pool → List MsgHeader → Process → Process
with_timer t q hs p = record p {
  world = record p.world { server = record p.world.server { timer = t; pool = q } };
  to_exam = hs;
}

-- `ThreadRecvProc` has returned, with `s`, and the thread gives its message up.
abbrev pub handled : ℕ → Sender → Process → Process
handled i s p = with_workers (thread_done i) (record p { world = sent_by s p.world })

-- `sem_wait` returns, and the mutex is taken for a walk.
abbrev pub woken : ℕ → Bool → World → World
woken n locks w = sent_by (record (sending w) { sendsem = n; locked = locks }) w

-- The walk after one message, and what the list is then.
abbrev pub walked : Fate → Message → List Message → List Message → SendPlace × List Message
walked stays m kept rest = (walking (kept ++ (m ∷ [])) rest, kept ++ (m ∷ rest))
walked goes m kept rest = (walking kept rest, kept ++ rest)
walked thread_ends m kept rest = (ended, kept ++ rest)

unfoldable pub walk_one :
    SendOutcome → Message → List Message → List Message → Sender → SendPlace × Sender
unfolding send_message
walk_one o m kept rest s =
    let r = send_message o m s in
    let l = walked r.0 m kept rest in (l.0, record r.1 { msg_list = l.1 })

abbrev pub walks_on : SendPlace × Sender → Process → Process
walks_on r p = record p { world = sent_by r.1 p.world; send_place = r.0 }

pub data Move (p : Process) : Process → Type 0 where
  polls :
      (call : WaitCall) (k : ℤ) (w : World)
      → KnownCall p.world.server.pool.next call
      → epoll_process_events true call p.world ≡ some (k, w)
      → Move p (record p { world = w })
  goes_round :
      (i : ℕ)
      → i < p.world.workers.create_thread
      → works (p.world.workers.threads i) ≡ 0
      → (p.world.workers.threads i).place ≢ past_loop
      → Move p (with_workers (thread_round i) p)
  handles :
      (i now : ℕ) (m : Message) (b : Bool) (s : Sender)
      → i < p.world.workers.create_thread
      → works (p.world.workers.threads i) ≡ 1
      → (p.world.workers.threads i).msg_ptr ≡ some m
      → thread_recv_proc now m (sending p.world) ≡ some (b, s)
      → Move p (handled i s p)
  wakes :
      (n : ℕ)
      → p.send_place ≡ in_sem_wait
      → p.world.sender.sendsem ≡ suc n
      → p.world.sender.locked ≡ false
      → ltb_ℤ (pos 0) p.world.sender.msgtosend_count ≡ true
      → Move p (record p {
        world = woken n true p.world;
        send_place = walking [] p.world.sender.msg_list;
      })
  wakes_idle :
      (n : ℕ)
      → p.send_place ≡ in_sem_wait
      → p.world.sender.sendsem ≡ suc n
      → ltb_ℤ (pos 0) p.world.sender.msgtosend_count ≡ false
      → Move p (record p { world = woken n p.world.sender.locked p.world })
  walks :
      (o : SendOutcome) (m : Message) (kept rest : List Message)
      → p.send_place ≡ walking kept (m ∷ rest)
      → Move p (walks_on (walk_one o m kept rest (sending p.world)) p)
  lets_go :
      (kept : List Message)
      → p.send_place ≡ walking kept []
      → Move p (record p {
        world = woken p.world.sender.sendsem false p.world;
        send_place = in_sem_wait;
      })
  recycles : (clock : ℕ → ℕ) → Move p (with_pool (recy_conn_round false clock) p)
  collects :
      (fuel cur_time : ℕ) (hs : List MsgHeader) (t : Timer)
      → p.to_exam ≡ []
      → (ltb cur_time p.world.server.timer.value || p.world.server.timer.size == 0) ≡ false
      → collect_over_time fuel cur_time p.world.server.timer ≡ some (hs, t)
      → Move p (with_timer t p.world.server.pool hs p)
  checks :
      (closed : Bool) (now cur_time : ℕ) (h : MsgHeader) (hs : List MsgHeader) (t : Timer)
      (q : Pool)
      → p.to_exam ≡ h ∷ hs
      → time_checking_proc closed now h cur_time p.world.server.timer p.world.server.pool
        ≡ some (t, q)
      → Move p (with_timer t q hs p)

abbrev pub idle_sender : Pool → Sender
idle_sender q = record {
  conn = q.conn;
  msg_list = [];
  msgtosend_count = pos 0;
  sendsem = 0;
  locked = false;
  wire = λ c. [];
}

-- The process when its threads are made and its listening sockets are registered.
abbrev pub started : ℕ → ℕ → Pool → Server → Process
started threads wait q s = record {
  world = record {
    server = record s { pool = q; timer = empty_timer wait };
    sender = idle_sender q;
    workers = create_threads threads;
  };
  send_place = in_sem_wait;
  to_exam = [];
}

pub data Reached : Process → Type 0 where
  begins :
      (registers : ℕ → Bool) (n threads wait : ℕ) (fds cs : List ℕ) (blank q : Pool) (s : Server)
      → IsBlank blank
      → blank.online_count ≡ pos 0
      → epoll_event_init true registers n fds blank ≡ some (cs, q)
      → Reached (started threads wait q s)
  moves : (p p' : Process) → Reached p → Move p p' → Reached p'
