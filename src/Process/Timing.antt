-- ===== src/Process/Timing.antt =====
-- The timer thread keeps the invariants of timer and pool, and the pointers in them.
use my_nignx.Prelude.{
  Every, All, ℕ, zero, suc, ◌+◌, ◌*◌, ◌<◌, ◌≤◌, ◌≡◌, refl, Bool, true, ◌||◌, List, [], ◌∷◌, Option,
  none, some, arith, ltb, leb, ◌==◌, Bool-cases, inl, inr, pos, leb_ℤ, size_decr,
}
use my_nignx.Conn.{Connection, MsgHeader, judge_outdate}
use my_nignx.Pool.{Pool, set_conn, close_accepted_connection, in_recy_conn_queue}
use my_nignx.Pool.Invariant.{IsTidy, set_conn-Tidy}
use my_nignx.Pool.Closing.{Survives, close-Survives}
use my_nignx.Timer.{
  Entry, Timer, is_empty, same_header, delete_loop, delete_from_timer_queue, get_over_time,
  collected, collect_over_time, time_out_proc, time_checking_proc,
}
use my_nignx.Timer.Invariant.{
  IsTimer, get_over_time_due, get_over_time_later, get_over_time_empty, after_renewal-IsTimer,
  delete_from_timer_queue-IsTimer,
}
use my_nignx.Process.Pointers.{Names, NamesAt, touch-Receives}
use my_nignx.Process.Pools.{KeptAt, close-KeptAt}
use my_nignx.Process.Accepting.{insert-Every}

module _ (n : ℕ) where
  abbrev pub AreTimed : Timer → Type 0
  AreTimed t = IsTimer t × Every (NamesAt n) t.map

  abbrev Gets : Option MsgHeader × Timer → Type 0
  Gets r = All (Names n) r.0 × AreTimed r.1

  get_over_time-Gets :
      (time : ℕ) (t : Timer) (m : List Entry)
      → t.map ≡ m
      → IsTimer t
      → Every (NamesAt n) m
      → Gets (get_over_time time t)
  get_over_time-Gets time t [] e v w = rw (get_over_time_empty time t e) (tt, (v, rw e tt))
  get_over_time-Gets time t (x ∷ xs) e v w = elim (Bool-cases (leb x.0 time)) [
    | inl due ↦
        let b : x.0 ≤ time = ground arith in
        rw (get_over_time_due time t x xs e v b) (
          w.0,
          (
            after_renewal-IsTimer time t x xs e v,
            insert-Every (NamesAt n) (time + t.waittime, x.1) xs w.0 w.1,
          ),
        )
    | inr later ↦
        let b : time < x.0 = ground arith in
        rw (get_over_time_later time t x xs e b) (tt, (v, rw e w))
  ]

  abbrev pub Collects : List MsgHeader × Timer → Type 0
  Collects r = Every (Names n) r.0 × AreTimed r.1

  collected-Collects :
      (h : Option MsgHeader) (t : Timer) (rest : Option (List MsgHeader × Timer))
      → All (Names n) h
      → AreTimed t
      → All Collects rest
      → All Collects (collected h t rest)
  collected-Collects none t rest k v w = (tt, v)
  collected-Collects (some h) t none k v w = tt
  collected-Collects (some h) t (some r) k v w = ((k, w.0), w.1)

  pub collect_over_time-Collects :
      (fuel time : ℕ) (t : Timer) → AreTimed t → All Collects (collect_over_time fuel time t)
  unfolding collect_over_time
  collect_over_time-Collects zero time t v = tt
  collect_over_time-Collects (suc fuel) time t v =
      let g = get_over_time-Gets time t t.map refl v.0 v.1 in
      let r = get_over_time time t in
      collected-Collects r.0 r.1 (collect_over_time fuel time r.1) g.0 g.1
        (collect_over_time-Collects fuel time r.1 g.1)

  delete_loop-Every :
      (h : MsgHeader) (es : List Entry) (k : ℕ)
      → Every (NamesAt n) es
      → Every (NamesAt n) (delete_loop h es k).0
  unfolding delete_loop
  delete_loop-Every h [] k v = tt
  delete_loop-Every h (x ∷ xs) k v = elim (Bool-cases (same_header x.1 h)) [
    | inl hit ↦ rw hit (delete_loop-Every h xs (size_decr k) v.1)
    | inr miss ↦ rw miss (v.0, delete_loop-Every h xs k v.1)
  ]

  delete-AreTimed :
      (h : MsgHeader) (t : Timer) → AreTimed t → AreTimed (delete_from_timer_queue h t)
  unfolding delete_from_timer_queue
  delete-AreTimed h t v = (
    delete_from_timer_queue-IsTimer h t v.0,
    elim (Bool-cases (t.size == 0 || is_empty t.map)) [
      | inl none_there ↦ rw none_there v.1
      | inr some_there ↦ rw some_there (delete_loop-Every h t.map t.size v.1)
    ],
  )

  -- A pool in order, with at most `most` clients.
  abbrev pub IsKeptPool : ℕ → Pool → Type 0
  IsKeptPool most q = IsTidy q × (leb_ℤ q.online_count (pos most) ≡ true) × KeptAt n q

  abbrev pub Checks : ℕ → Timer × Pool → Type 0
  Checks most r = AreTimed r.0 × IsKeptPool most r.1

  module _ (most : ℕ) where
    online-close :
        (closed : Bool) (now : ℕ) (b : Bool) (c : ℕ) (p : Pool)
        → leb_ℤ p.online_count (pos most) ≡ true
        → All
            (λ q. leb_ℤ q.online_count (pos most) ≡ true)
            (close_accepted_connection closed now b c p)
    unfolding close_accepted_connection in_recy_conn_queue
    online-close closed now b c p h = ground arith

    closing :
        (h : MsgHeader) (t : Timer) (r : Option Pool)
        → AreTimed t
        → Survives r
        → All (λ q. leb_ℤ q.online_count (pos most) ≡ true) r
        → All (KeptAt n) r
        → All (Checks most) (elim r [ none ↦ none | some q ↦ some (t, q) ])
    closing h t none v s o k = tt
    closing h t (some q) v s o k = (v, (s, o, k))

    time_out-Checks :
        (closed : Bool) (now : ℕ) (h : MsgHeader) (t : Timer) (p : Pool)
        → h.lp_curconn < n
        → AreTimed t
        → IsKeptPool most p
        → All (Checks most) (time_out_proc closed now h t p)
    unfolding time_out_proc
    time_out-Checks closed now h t p made v w =
        let c = h.lp_curconn in
        closing h (delete_from_timer_queue h t) (close_accepted_connection closed now true c p)
          (delete-AreTimed h t v)
          (close-Survives closed now true c p (omega (arith, made, w.2.1)) w.0)
          (online-close closed now true c p w.1) (close-KeptAt closed now true c n p w.2)

    pub time_checking_proc-Checks :
        (closed : Bool) (now cur_time : ℕ) (h : MsgHeader) (t : Timer) (p : Pool)
        → h.lp_curconn < n
        → AreTimed t
        → IsKeptPool most p
        → All (Checks most) (time_checking_proc closed now h cur_time t p)
    unfolding time_checking_proc
    time_checking_proc-Checks closed now cur_time h t p made v w =
        let c = h.lp_curconn in
        let k : Connection = record (p.conn c) { istimeout = true } in
        elim (Bool-cases (judge_outdate (p.conn c) h.msg_cursequence)) [
          | inl fresh ↦
              elim (Bool-cases (ltb (3 * t.waittime + (p.conn c).ping_update_time) cur_time)) [
                | inl late ↦
                    rw (fresh, late)
                      (time_out-Checks closed now h t (set_conn c k p) made v (
                        set_conn-Tidy c k p p.recy_list (λ b. ground (arith, w.0.closed c)) w.0,
                        w.1,
                        (touch-Receives n c k p.conn refl w.2.0, w.2.1),
                      ))
                | inr recent ↦ rw (fresh, recent) (v, w)
              ]
          | inr stale ↦ rw stale (delete-AreTimed h t v, w)
        ]
