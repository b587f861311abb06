-- ===== src/Timer/Lifetime.antt =====
-- The timer over the life of a worker process: the calls of net/socket_time.cxx under its mutex, in
-- any order.
use my_nignx.Prelude.{ℕ, [], refl, arith}
use my_nignx.Conn.{MsgHeader}
use my_nignx.Pool.{Pool}
use my_nignx.Timer.{
  Timer, add_to_timer_queue, get_over_time, delete_from_timer_queue, timermap_clean,
}
use my_nignx.Timer.Invariant.{
  IsTimer, add_to_timer_queue-IsTimer, get_over_time-IsTimer, delete_from_timer_queue-IsTimer,
  timermap_clean-IsTimer,
}

-- The constructor of `CSocket` and `ReadConf`.
abbrev pub empty_timer : ℕ → Timer
empty_timer wait = record { map = []; size = 0; value = 0; waittime = wait }

pub data Step : Timer → Timer → Type 0 where
  adds : (now c : ℕ) (t : Timer) (p : Pool) → Step t (add_to_timer_queue now c t p).0
  gets : (time : ℕ) (t : Timer) → Step t (get_over_time time t).1
  deletes : (h : MsgHeader) (t : Timer) → Step t (delete_from_timer_queue h t)
  cleans : (t : Timer) → Step t (timermap_clean t)

pub data Reachable : Timer → Type 0 where
  started : (wait : ℕ) → Reachable (empty_timer wait)
  then_step : (t u : Timer) → Reachable t → Step t u → Reachable u

Step-IsTimer : (t u : Timer) → Step t u → IsTimer t → IsTimer u
Step-IsTimer t _ (adds now c _ p) v = add_to_timer_queue-IsTimer now c t p v
Step-IsTimer t _ (gets time _) v = get_over_time-IsTimer time t v
Step-IsTimer t _ (deletes h _) v = delete_from_timer_queue-IsTimer h t v
Step-IsTimer t _ (cleans _) v = timermap_clean-IsTimer t v

-- Whatever calls have been made of an empty timer: the entries stand in the order of their times, the
-- counter says how many there are, and while there are any, `m_timer_value` is the time of the first.
pub Reachable-IsTimer : (t : Timer) → Reachable t → IsTimer t
Reachable-IsTimer _ (started wait) = record {
  ordered = tt;
  counted = refl;
  first = λ h. absurd (omega arith);
}
Reachable-IsTimer u (then_step t _ r s) = Step-IsTimer t u s (Reachable-IsTimer t r)
