-- ===== src/Timer/Round.antt =====
-- A round of the timer thread, `ServerTimerQueueThreadFunc`, comes to its end.
use my_nignx.Prelude.{
  ℕ, ◌+◌, ◌*◌, ◌<◌, ◌≡◌, refl, Bool, true, not, ◌&&◌, ◌||◌, List, [], ◌∷◌, Option, some, length,
  ltb, ◌==◌, Bool-cases, inl, inr, update, negsuc, eqb_ℤ, decr,
}
use my_nignx.Conn.{MsgHeader, judge_outdate}
use my_nignx.Pool.{Pool, close_accepted_connection, in_recy_conn_queue, shut_down}
use my_nignx.Timer.{Timer, time_checking_proc, delete_from_timer_queue, check_loop, timer_round}
use my_nignx.Timer.Invariant.{IsTimer, delete_from_timer_queue-IsTimer}
use my_nignx.Timer.Sweep.{due_headers, collect_over_time_lem}
use my_nignx.Timer.Check.{time_out_close}

close_total :
    (now : ℕ) (b : Bool) (c : ℕ) (p : Pool)
    → (q : Pool) × (close_accepted_connection true now b c p ≡ some q)
unfolding close_accepted_connection
close_total now b c p = elim (Bool-cases (eqb_ℤ (p.conn c).fd (negsuc 0))) [
  | inl shut ↦ (p, rw shut refl)
  | inr op ↦ elim (Bool-cases (not b && (p.conn c).istimeout)) [
    | inl late ↦ (p, rw (op, late) refl)
    | inr go ↦ (
      in_recy_conn_queue now c (record p {
        conn = update p.conn c (shut_down (p.conn c));
        online_count = decr p.online_count;
      }),
      rw (op, go) refl,
    )
  ]
]

-- A result that goes on with a timer in order.
pub record GoesOn (r : Option (Timer × Pool)) : Type 0 where
  pub timer : Timer
  pub pool : Pool
  pub returns : r ≡ some (timer, pool)
  pub in_order : IsTimer timer

check-GoesOn :
    (now cur_time : ℕ) (h : MsgHeader) (t : Timer) (p : Pool)
    → IsTimer t
    → GoesOn (time_checking_proc true now h cur_time t p)
unfolding time_checking_proc
check-GoesOn now cur_time h t p v =
    let k = p.conn h.lp_curconn in
    let p' : Pool = record p {
      conn = update p.conn h.lp_curconn (record k { istimeout = true });
    } in
    let q = close_total now true h.lp_curconn p' in
    elim (Bool-cases (judge_outdate k h.msg_cursequence)) [
      | inl fresh ↦ elim (Bool-cases (ltb (3 * t.waittime + k.ping_update_time) cur_time)) [
        | inl late ↦ record {
          timer = delete_from_timer_queue h t;
          pool = q.0;
          returns = rw (fresh, late) (time_out_close now h t p' q.0 q.1);
          in_order = delete_from_timer_queue-IsTimer h t v;
        }
        | inr recent ↦ record {
          timer = t;
          pool = p;
          returns = rw (fresh, recent) refl;
          in_order = v;
        }
      ]
      | inr stale ↦ record {
        timer = delete_from_timer_queue h t;
        pool = p;
        returns = rw stale refl;
        in_order = delete_from_timer_queue-IsTimer h t v;
      }
    ]

loop-GoesOn :
    (now cur_time : ℕ) (hs : List MsgHeader) (t : Timer) (p : Pool)
    → IsTimer t
    → GoesOn (check_loop true now cur_time hs t p)
unfolding check_loop
loop-GoesOn now cur_time [] t p v = record { timer = t; pool = p; returns = refl; in_order = v }
loop-GoesOn now cur_time (h ∷ hs) t p v =
    let c = check-GoesOn now cur_time h t p v in
    let r = loop-GoesOn now cur_time hs c.timer c.pool c.in_order in
    record {
      timer = r.timer;
      pool = r.pool;
      returns = rw (check_loop, c.returns) r.returns;
      in_order = r.in_order;
    }

-- A round of the timer thread over a timer in order ends, whatever is due, as long as the waiting
-- time is positive, the fuel is above the number of due entries and the system closes descriptors: the
-- process goes on, and the timer is in order again.
pub timer_round-GoesOn :
    (fuel now cur_time : ℕ) (t : Timer) (p : Pool)
    → IsTimer t
    → 0 < t.waittime
    → length (due_headers cur_time t.map) < fuel
    → GoesOn (timer_round fuel true now cur_time t p)
unfolding timer_round
timer_round-GoesOn fuel now cur_time t p v w enough =
    elim (Bool-cases (ltb cur_time t.value || t.size == 0)) [
      | inl none_due ↦ record { timer = t; pool = p; returns = rw none_due refl; in_order = v }
      | inr some_due ↦
          let c = collect_over_time_lem fuel cur_time t enough w v in
          let r = loop-GoesOn now cur_time (due_headers cur_time t.map) c.after p c.tidy in
          record {
            timer = r.timer;
            pool = r.pool;
            returns = rw (some_due, c.returns) r.returns;
            in_order = r.in_order;
          }
    ]
