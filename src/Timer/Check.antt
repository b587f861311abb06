-- ===== src/Timer/Check.antt =====
-- What the check of one due entry does, `PingTimeCheckingProc` and `PingTimeOutProc` of
-- net/socket_time.cxx, and `DeleteFromTimerQueue`.
use my_nignx.Prelude.{
  ℕ, ◌+◌, ◌*◌, ◌≤◌, ◌<◌, ◌≡◌, ◌≢◌, refl, Bool, true, false, ◌||◌, List, [], ◌∷◌, some, arith, ltb,
  ◌==◌, if◌then◌else◌, Bool-cases, inl, inr, size_decr, length, update, negsuc, decr,
}
use my_nignx.Conn.{Connection, MsgHeader, judge_outdate}
use my_nignx.Pool.{Pool, close_accepted_connection}
use my_nignx.Pool.Closing.{close_accepted_connection_twice}
use my_nignx.Timer.{
  Entry, Timer, is_empty, same_header, delete_loop, delete_from_timer_queue, time_out_proc,
  time_checking_proc,
}
use my_nignx.Timer.Invariant.{IsTimer}

-- The entries of other connections or of other uses of the connection.
abbrev pub others : MsgHeader → List Entry → List Entry
others h [] = []
others h (x ∷ xs) = if same_header x.1 h then others h xs else x ∷ others h xs

delete_loop-others :
    (h : MsgHeader) (xs : List Entry) (n : ℕ) → (delete_loop h xs n).0 ≡ others h xs
unfolding delete_loop
delete_loop-others h [] n = refl
delete_loop-others h (x ∷ xs) n = elim (Bool-cases (same_header x.1 h)) [
  | inl hit ↦ rw hit (delete_loop-others h xs (size_decr n))
  | inr miss ↦ rw (miss, delete_loop-others h xs n)
]

empty-others :
    (h : MsgHeader) (m : List Entry) (n : ℕ)
    → n ≡ length m
    → (n == 0 || is_empty m) ≡ true
    → m ≡ others h m
empty-others h [] n e b = refl
empty-others h (x ∷ xs) n e b = absurd (ground arith)

-- Deleting takes out every entry with the same connection and sequence number, and no other.
pub delete_from_timer_queue-others :
    (h : MsgHeader) (t : Timer) → IsTimer t → (delete_from_timer_queue h t).map ≡ others h t.map
unfolding delete_from_timer_queue
delete_from_timer_queue-others h t v = elim (Bool-cases (t.size == 0 || is_empty t.map)) [
  | inl none_there ↦ rw none_there (empty-others h t.map t.size v.counted none_there)
  | inr some_there ↦ rw some_there (delete_loop-others h t.map t.size)
]

pub time_out_close :
    (now : ℕ) (h : MsgHeader) (t : Timer) (p q : Pool)
    → close_accepted_connection true now true h.lp_curconn p ≡ some q
    → time_out_proc true now h t p ≡ some (delete_from_timer_queue h t, q)
unfolding time_out_proc
time_out_close now h t p q e = rw (time_out_proc, e) refl

overdue-close :
    (now cur_time : ℕ) (h : MsgHeader) (t : Timer) (p q : Pool)
    → judge_outdate (p.conn h.lp_curconn) h.msg_cursequence ≡ true
    → 3 * t.waittime + (p.conn h.lp_curconn).ping_update_time < cur_time
    → close_accepted_connection true now true h.lp_curconn (record p {
      conn = update p.conn h.lp_curconn (record (p.conn h.lp_curconn) { istimeout = true });
    })
      ≡ some q
    → time_checking_proc true now h cur_time t p ≡ some (delete_from_timer_queue h t, q)
unfolding time_checking_proc
overdue-close now cur_time h t p q fresh late e =
    let b : ltb (3 * t.waittime + (p.conn h.lp_curconn).ping_update_time) cur_time ≡ true =
      ground arith in
    rw (fresh, b)
      (time_out_close now h t
        (record p {
          conn = update p.conn h.lp_curconn (record (p.conn h.lp_curconn) { istimeout = true });
        })
        q e)

judge_outdate-open : (k : Connection) (s : ℕ) → judge_outdate k s ≡ true → k.fd ≢ negsuc 0
unfolding judge_outdate
judge_outdate-open k s h e = ground arith

-- When the entry's connection is still in the same use and its last ping is more than three waiting
-- times old, the check closes it: the process goes on if the system closes the descriptor, the number
-- of clients online goes down by one, the connection's further closes change nothing, and no entry
-- of this use is left in the timer.
pub time_checking_proc_overdue :
    (now cur_time : ℕ) (h : MsgHeader) (t : Timer) (p : Pool)
    → IsTimer t
    → judge_outdate (p.conn h.lp_curconn) h.msg_cursequence ≡ true
    → 3 * t.waittime + (p.conn h.lp_curconn).ping_update_time < cur_time
    → (t' : Timer) × (q : Pool) × (time_checking_proc true now h cur_time t p ≡ some (t', q))
      × (q.online_count ≡ decr p.online_count)
      × (close_accepted_connection true now true h.lp_curconn q ≡ some q)
      × (t'.map ≡ others h t.map)
time_checking_proc_overdue now cur_time h t p v fresh late =
    let c = h.lp_curconn in
    let p' : Pool = record p { conn = update p.conn c (record (p.conn c) { istimeout = true }) } in
    let op = judge_outdate-open (p.conn c) h.msg_cursequence fresh in
    let r = close_accepted_connection_twice now now true true c p' (ground (arith, op)) refl in
    (
      delete_from_timer_queue h t,
      r.0,
      overdue-close now cur_time h t p r.0 fresh late r.1,
      r.3,
      r.2,
      delete_from_timer_queue-others h t v,
    )

-- A connection whose last ping is recent enough keeps everything as it is; an entry of an earlier
-- use of the connection leaves the timer and touches no connection.
pub time_checking_proc_spares :
    (closed : Bool) (now cur_time : ℕ) (h : MsgHeader) (t : Timer) (p : Pool)
    → IsTimer t
    → (judge_outdate (p.conn h.lp_curconn) h.msg_cursequence ≡ true
        → cur_time ≤ 3 * t.waittime + (p.conn h.lp_curconn).ping_update_time)
    → (t' : Timer) × (time_checking_proc closed now h cur_time t p ≡ some (t', p))
      × (t'.map ≡ (
          if judge_outdate (p.conn h.lp_curconn) h.msg_cursequence then t.map else others h t.map))
unfolding time_checking_proc
time_checking_proc_spares closed now cur_time h t p v recent =
    elim (Bool-cases (judge_outdate (p.conn h.lp_curconn) h.msg_cursequence)) [
      | inl same ↦
          let b : ltb (3 * t.waittime + (p.conn h.lp_curconn).ping_update_time) cur_time ≡ false =
            ground (arith, recent same) in
          (t, rw (same, b) refl, rw same refl)
      | inr stale ↦ (
        delete_from_timer_queue h t,
        rw stale refl,
        rw stale (delete_from_timer_queue-others h t v),
      )
    ]
