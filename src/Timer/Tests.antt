-- ===== src/Timer/Tests.antt =====
-- The heartbeat timer of net/socket_time.cxx at concrete entries.
use my_nignx.Prelude.{ℕ, ◌+◌, ◌≡◌, refl, arith, true, [], ◌∷◌, some, pos, if◌then◌else◌}
use my_nignx.Conn.{MsgHeader, judge_outdate, through_int}
use my_nignx.Pool.{Pool, new_connection, close_accepted_connection}
use my_nignx.Timer.{
  Timer, add_to_timer_queue, get_over_time, delete_from_timer_queue, collect_over_time,
  time_checking_proc, timer_round,
}
use my_nignx.Timer.Invariant.{IsTimer}
use my_nignx.Timer.Lifetime.{
  empty_timer, Reachable, started, then_step, adds, gets, Reachable-IsTimer,
}
use my_nignx.Timer.Sweep.{Collected, collect_over_time_lem}
use my_nignx.Timer.Round.{GoesOn, timer_round-GoesOn}
use my_nignx.Timer.Check.{
  others, delete_from_timer_queue-others, time_checking_proc_overdue, time_checking_proc_spares,
}

abbrev stamp : ℕ → MsgHeader
stamp c = record { lp_curconn = c; msg_cursequence = 1 }

abbrev three_entries : Timer
three_entries = record {
  map = (10, stamp 0) ∷ (20, stamp 1) ∷ (40, stamp 2) ∷ [];
  size = 3;
  value = 10;
  waittime = 5;
}

three_entries-IsTimer : IsTimer three_entries
three_entries-IsTimer = record {
  ordered = ((omega arith, (omega arith, tt)), ((omega arith, tt), (tt, tt)));
  counted = refl;
  first = λ h. refl;
}

abbrev clients : Pool
clients = record {
  conn = λ c. record new_connection { fd = pos (9 + c); sequence = 1; ping_update_time = 1 };
  next = 3;
  connection_list = 0 ∷ 1 ∷ 2 ∷ [];
  free_list = [];
  total_count = 3;
  free_count = 0;
  online_count = pos 3;
  recy_list = [];
  recy_count = 0;
  delay_time = 60;
}

collect_over_time_lem_example :
    Collected 25 three_entries three_entries.map (collect_over_time 3 25 three_entries)
collect_over_time_lem_example =
    collect_over_time_lem 3 25 three_entries (omega arith) (omega arith) three_entries-IsTimer

deleted_one :
    (delete_from_timer_queue (stamp 1) three_entries).map ≡ (10, stamp 0) ∷ (40, stamp 2) ∷ []
deleted_one = delete_from_timer_queue-others (stamp 1) three_entries three_entries-IsTimer

abbrev started_timer : Timer
started_timer = empty_timer 5

abbrev two_steps : Reachable (get_over_time 25 (add_to_timer_queue 7 1 started_timer clients).0).1
two_steps =
    then_step (add_to_timer_queue 7 1 started_timer clients).0
      (get_over_time 25 (add_to_timer_queue 7 1 started_timer clients).0).1
      (then_step started_timer (add_to_timer_queue 7 1 started_timer clients).0 (started 5)
        (adds 7 1 started_timer clients))
      (gets 25 (add_to_timer_queue 7 1 started_timer clients).0)

Reachable-IsTimer_sample :
    IsTimer (get_over_time 25 (add_to_timer_queue 7 1 started_timer clients).0).1
Reachable-IsTimer_sample =
    Reachable-IsTimer (get_over_time 25 (add_to_timer_queue 7 1 started_timer clients).0).1
      two_steps

is_current : judge_outdate (clients.conn 0) 1 ≡ true
unfolding judge_outdate through_int
is_current = refl

time_checking_proc_overdue_example :
    (t' : Timer) × (q : Pool) × (time_checking_proc true 25 (stamp 0) 25 three_entries clients
      ≡ some (t', q))
    × (q.online_count ≡ pos 2)
    × (close_accepted_connection true 25 true 0 q ≡ some q)
    × (t'.map ≡ (20, stamp 1) ∷ (40, stamp 2) ∷ [])
time_checking_proc_overdue_example =
    time_checking_proc_overdue 25 25 (stamp 0) three_entries clients three_entries-IsTimer
      is_current (omega arith)

time_checking_proc_spares_sample :
    (t' : Timer) × (time_checking_proc true 12 (stamp 0) 12 three_entries clients
      ≡ some (t', clients))
    × (t'.map ≡ (
        if judge_outdate (clients.conn 0) 1
        then three_entries.map
        else others (stamp 0) three_entries.map))
time_checking_proc_spares_sample =
    time_checking_proc_spares true 12 12 (stamp 0) three_entries clients three_entries-IsTimer
      (λ e. omega arith)

timer_round-GoesOn_example : GoesOn (timer_round 3 true 25 25 three_entries clients)
timer_round-GoesOn_example =
    timer_round-GoesOn 3 25 25 three_entries clients three_entries-IsTimer (omega arith)
      (omega arith)
