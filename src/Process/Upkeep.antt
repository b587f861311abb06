-- ===== src/Process/Upkeep.antt =====
-- The moves of the recycling thread and of the timer thread keep a worker process safe.
use my_nignx.Prelude.{
  Every, ℕ, ◌+◌, ◌≡◌, refl, Bool, false, List, [], ◌∷◌, some, arith, ltb, Bool-cases, inl, inr,
  size_decr,
}
use my_nignx.Conn.{MsgHeader}
use my_nignx.Pool.{
  Pool, free_connection_item, give_back, recycle_loop, recycle_pass, recy_conn_round,
}
use my_nignx.Pool.Lifetime.{round-IsTidy}
use my_nignx.Timer.{Timer, collect_over_time, time_checking_proc}
use my_nignx.Process.{Process, with_pool, with_timer}
use my_nignx.Process.Pointers.{Names}
use my_nignx.Process.Pools.{round-KeptAt}
use my_nignx.Process.Sending.{WalksIn}
use my_nignx.Process.Timing.{
  AreTimed, Collects, collect_over_time-Collects, IsKeptPool, Checks, time_checking_proc-Checks,
}
use my_nignx.Process.Worlds.{IsSafeWorld, server-safe}

-- A safe state: the invariants of pool, timer, number of clients and queue, and every connection that
-- a message, a timer entry or a thread names is an object of the pool.
pub record IsSafe (p : Process) : Type 0 where
  pub world : IsSafeWorld p.world
  pub walks_in : WalksIn p.world.server.pool.next p.send_place
  pub examines : Every (Names p.world.server.pool.next) p.to_exam

-- A pool and a timer in order, with the same objects.
timer-IsSafe :
    (p : Process) (t : Timer) (q : Pool) (hs : List MsgHeader)
    → AreTimed p.world.server.pool.next t
    → IsKeptPool p.world.server.pool.next p.world.server.worker_connections q
    → Every (Names p.world.server.pool.next) hs
    → IsSafe p
    → IsSafe (with_timer t q hs p)
timer-IsSafe p t q hs timed kept named v = record {
  world =
      server-safe p.world (record p.world.server { timer = t; pool = q }) (omega (arith, kept.2.1))
        (record { tidy = kept.0; timed = timed.0; bounded = kept.1 })
        (record { receives = rw (kept.2.1) kept.2.0; timed = rw (kept.2.1) timed.1 }) v.world;
  walks_in = rw (kept.2.1) v.walks_in;
  examines = rw (kept.2.1) named;
}

kept_pool :
    (p : Process)
    → IsSafe p
    → IsKeptPool p.world.server.pool.next p.world.server.worker_connections p.world.server.pool
kept_pool p v =
    (v.world.sound.server.tidy, v.world.sound.server.bounded, (v.world.pointed.receives, refl))

online-loop :
    (clock : ℕ → ℕ) (i : ℕ) (cs : List ℕ) (p : Pool)
    → (recycle_loop clock i cs p).1.online_count ≡ p.online_count
unfolding recycle_loop free_connection_item
online-loop clock i [] p = refl
online-loop clock i (c ∷ cs) p =
    elim (Bool-cases (ltb (p.delay_time + (p.conn c).inrevy_time) (clock i))) [
      | inl due ↦
          let q : Pool = record p { recy_count = size_decr p.recy_count } in
          rw due (online-loop clock (i + 1) cs (give_back c q))
      | inr early ↦ rw early (online-loop clock (i + 1) cs p)
    ]

online-round :
    (clock : ℕ → ℕ) (p : Pool) → (recy_conn_round false clock p).online_count ≡ p.online_count
unfolding recy_conn_round recycle_pass
online-round clock p = elim (Bool-cases (ltb 0 p.recy_count)) [
  | inl some_wait ↦ rw some_wait (online-loop clock 0 p.recy_list p)
  | inr none_wait ↦ rw none_wait refl
]

pub recycled-IsSafe :
    (p : Process) (clock : ℕ → ℕ) → IsSafe p → IsSafe (with_pool (recy_conn_round false clock) p)
recycled-IsSafe p clock v =
    let n = p.world.server.pool.next in
    let q = p.world.server.pool in
    let k = kept_pool p v in
    timer-IsSafe p p.world.server.timer (recy_conn_round false clock q) p.to_exam
      (v.world.sound.server.timed, v.world.pointed.timed)
      (round-IsTidy clock q k.0, rw (online-round clock q) k.1, round-KeptAt clock n q k.2)
      v.examines v

pub collected-IsSafe :
    (p : Process) (fuel cur_time : ℕ) (hs : List MsgHeader) (t : Timer)
    → collect_over_time fuel cur_time p.world.server.timer ≡ some (hs, t)
    → IsSafe p
    → IsSafe (with_timer t p.world.server.pool hs p)
collected-IsSafe p fuel cur_time hs t e v =
    let n = p.world.server.pool.next in
    let c : Collects n (hs, t) = rw e at (
      collect_over_time-Collects n fuel cur_time p.world.server.timer
        (v.world.sound.server.timed, v.world.pointed.timed)) in
    timer-IsSafe p t p.world.server.pool hs c.1 (kept_pool p v) c.0 v

pub checked-IsSafe :
    (p : Process) (closed : Bool) (now cur_time : ℕ) (h : MsgHeader) (hs : List MsgHeader)
    (t : Timer) (q : Pool)
    → p.to_exam ≡ h ∷ hs
    → time_checking_proc closed now h cur_time p.world.server.timer p.world.server.pool
      ≡ some (t, q)
    → IsSafe p
    → IsSafe (with_timer t q hs p)
checked-IsSafe p closed now cur_time h hs t q e r v =
    let n = p.world.server.pool.next in
    let most = p.world.server.worker_connections in
    let named : Every (Names n) (h ∷ hs) = rw e at v.examines in
    let c : Checks n most (t, q) = rw r at (
      time_checking_proc-Checks n most closed now cur_time h p.world.server.timer
        p.world.server.pool named.0 (v.world.sound.server.timed, v.world.pointed.timed)
        (kept_pool p v)) in
    timer-IsSafe p t q hs c.0 c.1 named.1 v
