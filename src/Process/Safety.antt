-- ===== src/Process/Safety.antt =====
-- Every move of a worker process keeps it safe.
use my_nignx.Prelude.{
  Every, weaken-Every, ℕ, ◌<◌, ◌≤◌, ◌≡◌, Bool, true, false, List, ◌∷◌, some, arith, length, ℤ,
}
use my_nignx.Conn.{Message}
use my_nignx.Send.{Sender, SendOutcome}
use my_nignx.Workers.{ThreadPool, thread_round, thread_done}
use my_nignx.Workers.Run.{works}
use my_nignx.Logic.{thread_recv_proc}
use my_nignx.Events.{World, WaitCall, sending, sent_by, epoll_process_events}
use my_nignx.Events.Loop.{KnownCall}
use my_nignx.Process.{
  SendPlace, in_sem_wait, walking, ended, Process, with_workers, handled, woken, walk_one, walks_on,
  Move, polls, goes_round, handles, wakes, wakes_idle, walks, lets_go, recycles, collects, checks,
  Reached, begins, moves,
}
use my_nignx.Process.Pointers.{Names, NamesIn}
use my_nignx.Process.Sending.{WalksIn, walk_one-Leaves, walk_one-In}
use my_nignx.Process.Worlds.{Good, AreAtWork, IsSafeWorld, sent_by-safe, weaken-listed}
use my_nignx.Process.Replying.{Answers, thread_recv_proc-Answers}
use my_nignx.Process.Polling.{polling-Good}
use my_nignx.Process.Threads.{round-at_work, done-at_work}
use my_nignx.Process.Starting.{started-IsNew, started-safe}
use my_nignx.Process.Upkeep.{IsSafe, recycled-IsSafe, collected-IsSafe, checked-IsSafe}

weaken-walks : (m n : ℕ) (s : SendPlace) → m ≤ n → WalksIn m s → WalksIn n s
weaken-walks m n in_sem_wait h v = tt
weaken-walks m n (walking kept rest) h v =
    (weaken-listed m n kept h v.0, weaken-listed m n rest h v.1)
weaken-walks m n ended h v = tt

polled-IsSafe :
    (p : Process) (call : WaitCall) (k : ℤ) (w : World)
    → KnownCall p.world.server.pool.next call
    → epoll_process_events true call p.world ≡ some (k, w)
    → IsSafe p
    → IsSafe (record p { world = w })
polled-IsSafe p call k w known e v =
    let n = p.world.server.pool.next in
    let g : Good n w = rw e at (polling-Good true call p.world known v.world) in
    record {
      world = g.0;
      walks_in = weaken-walks n w.server.pool.next p.send_place g.1 v.walks_in;
      examines =
          weaken-Every (Names n) (Names w.server.pool.next) p.to_exam (λ h a. omega (arith, g.1, a))
            v.examines;
    }

-- The threads of the pool change.
threads-safe :
    (w : World) (t : ThreadPool)
    → (t.msgqueue_size ≡ length t.msgqueue) × AreAtWork w.server.pool.next t
    → IsSafeWorld w
    → IsSafeWorld (record w { workers = t })
threads-safe w t h v = record {
  sound = record { server = v.sound.server; queue_counted = h.0 };
  pointed = v.pointed;
  at_work = h.1;
  listed = v.listed;
}

round-IsSafe :
    (p : Process) (i : ℕ)
    → i < p.world.workers.create_thread
    → works (p.world.workers.threads i) ≡ 0
    → IsSafe p
    → IsSafe (with_workers (thread_round i) p)
round-IsSafe p i h idle v = record {
  world =
      threads-safe p.world (thread_round i p.world.workers)
        (round-at_work p.world.server.pool.next i p.world.workers h idle v.world.sound.queue_counted
          v.world.at_work)
        v.world;
  walks_in = v.walks_in;
  examines = v.examines;
}

handled-IsSafe :
    (p : Process) (i now : ℕ) (m : Message) (b : Bool) (s : Sender)
    → i < p.world.workers.create_thread
    → works (p.world.workers.threads i) ≡ 1
    → (p.world.workers.threads i).msg_ptr ≡ some m
    → thread_recv_proc now m (sending p.world) ≡ some (b, s)
    → IsSafe p
    → IsSafe (handled i s p)
handled-IsSafe p i now m b s h busy e r v =
    let n = p.world.server.pool.next in
    let named : NamesIn n m = rw e at (v.world.at_work.in_hand i) in
    let a : Answers n (sending p.world) (b, s) =
      rw r at (thread_recv_proc-Answers n now m (sending p.world) named v.world.listed) in
    let w = sent_by-safe s p.world a.0 a.1 v.world in
    record {
      world =
          threads-safe (sent_by s p.world) (thread_done i p.world.workers)
            (done-at_work n i p.world.workers h busy w.sound.queue_counted w.at_work) w;
      walks_in = v.walks_in;
      examines = v.examines;
    }

woken-safe : (n : ℕ) (b : Bool) (w : World) → IsSafeWorld w → IsSafeWorld (woken n b w)
woken-safe n b w v = record {
  sound = record { server = v.sound.server; queue_counted = v.sound.queue_counted };
  pointed = v.pointed;
  at_work = v.at_work;
  listed = v.listed;
}

walked-IsSafe :
    (p : Process) (o : SendOutcome) (m : Message) (kept rest : List Message)
    → p.send_place ≡ walking kept (m ∷ rest)
    → IsSafe p
    → IsSafe (walks_on (walk_one o m kept rest (sending p.world)) p)
walked-IsSafe p o m kept rest e v =
    let n = p.world.server.pool.next in
    let r = walk_one o m kept rest (sending p.world) in
    let h : Every (NamesIn n) kept × Every (NamesIn n) (m ∷ rest) = rw e at v.walks_in in
    let a = walk_one-In n o m kept rest (sending p.world) h.0 h.1 in
    record {
      world =
          sent_by-safe r.1 p.world (walk_one-Leaves o m kept rest (sending p.world)) a.1 v.world;
      walks_in = a.0;
      examines = v.examines;
    }

Move-IsSafe : (p p' : Process) → Move p p' → IsSafe p → IsSafe p'
Move-IsSafe p _ (polls call k w known e) v = polled-IsSafe p call k w known e v
Move-IsSafe p _ (goes_round i h idle on) v = round-IsSafe p i h idle v
Move-IsSafe p _ (handles i now m b s h busy e r) v = handled-IsSafe p i now m b s h busy e r v
Move-IsSafe p _ (wakes n e sem free counted) v = record {
  world = woken-safe n true p.world v.world;
  walks_in = (tt, v.world.listed);
  examines = v.examines;
}
Move-IsSafe p _ (wakes_idle n e sem counted) v = record {
  world = woken-safe n p.world.sender.locked p.world v.world;
  walks_in = v.walks_in;
  examines = v.examines;
}
Move-IsSafe p _ (walks o m kept rest e) v = walked-IsSafe p o m kept rest e v
Move-IsSafe p _ (lets_go kept e) v = record {
  world = woken-safe p.world.sender.sendsem false p.world v.world;
  walks_in = tt;
  examines = v.examines;
}
Move-IsSafe p _ (recycles clock) v = recycled-IsSafe p clock v
Move-IsSafe p _ (collects fuel cur_time hs t e due r) v = collected-IsSafe p fuel cur_time hs t r v
Move-IsSafe p _ (checks closed now cur_time h hs t q e r) v =
    checked-IsSafe p closed now cur_time h hs t q e r v

-- In every state that a worker process reaches, in whatever order its threads move and whatever
-- epoll and the system calls return, for connections of the pool: the invariants of pool, timer,
-- number of clients and thread pool hold, and every connection named by a message, queued, in a
-- thread's hands or waiting to be sent, by a timer entry or by the timer thread is an object of the
-- pool.
pub Reached-IsSafe : (p : Process) → Reached p → IsSafe p
Reached-IsSafe _ (begins registers n threads wait fds cs blank q s b o e) = record {
  world = started-safe threads wait q s (started-IsNew registers n fds cs blank q b o e);
  walks_in = tt;
  examines = tt;
}
Reached-IsSafe p' (moves p _ r m) = Move-IsSafe p p' m (Reached-IsSafe p r)
