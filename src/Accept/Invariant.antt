-- ===== src/Accept/Invariant.antt =====
-- Accepting clients keeps the invariants of pool and timer, and the bound on the number of clients.
use my_nignx.Prelude.{
  ℕ, ◌+◌, ◌≡◌, refl, Bool, true, false, not, ◌&&◌, Option, none, some, arith, List, [], ◌∷◌,
  Bool-cases, inl, inr, ℤ, pos, incr, leb_ℤ,
}
use my_nignx.Conn.{Connection}
use my_nignx.Epoll.{epoll_oper_event, ctl_add, bc_set, epollin, epollrdhup}
use my_nignx.Pool.{
  Pool, set_conn, take_free, get_connection_item, close_connection, free_connection_item,
}
use my_nignx.Pool.Invariant.{
  IsTidy, InUse, get_connection_item-IsTidy, get_connection_item-InUse, set_conn-Tidy,
}
use my_nignx.Pool.Closing.{Survives, close_connection-Survives}
use my_nignx.Timer.{Timer, add_to_timer_queue}
use my_nignx.Timer.Invariant.{IsTimer, add_to_timer_queue-IsTimer}
use my_nignx.Accept.{
  AcceptCall, accepted, failed, Calls, Server, is_full, set_up, register_client, with_pool, admit,
  take_client, is_enosys, event_accept_handler,
}

pub record IsSound (s : Server) : Type 0 where
  pub tidy : IsTidy s.pool
  pub timed : IsTimer s.timer
  pub bounded : leb_ℤ s.pool.online_count (pos s.worker_connections) ≡ true

abbrev Goes : Option Server → Type 0
Goes none = Unit {0}
Goes (some s) = IsSound s

used-Tidy : (c : ℕ) (k : Connection) (p : Pool) → InUse p c → IsTidy p → IsTidy (set_conn c k p)
used-Tidy c k p u v = set_conn-Tidy c k p p.recy_list (λ h. absurd (omega (arith, u.1))) v

timer_pool-IsTidy :
    (now c : ℕ) (t : Timer) (p : Pool)
    → InUse p c
    → IsTidy p
    → IsTidy (add_to_timer_queue now c t p).1
unfolding add_to_timer_queue
timer_pool-IsTidy now c t p u v = used-Tidy c (record (p.conn c) { ping_update_time = now }) p u v

timer_pool-online :
    (now c : ℕ) (t : Timer) (p : Pool)
    → (add_to_timer_queue now c t p).1.online_count ≡ p.online_count
unfolding add_to_timer_queue
timer_pool-online now c t p = refl

recount-Tidy : (a : ℤ) (p : Pool) → IsTidy p → IsTidy (record p { online_count = a })
recount-Tidy a p v = record {
  listed = v.listed;
  once = v.once;
  closed = v.closed;
  free_counted = v.free_counted;
  recy_counted = v.recy_counted;
}

one_more : (a : ℤ) (n : ℕ) → leb_ℤ (pos n) a ≡ false → leb_ℤ (incr a) (pos n) ≡ true
one_more a n h = ground arith

register-IsSound :
    (e : Calls) (c : ℕ) (s : Server)
    → InUse s.pool c
    → leb_ℤ (pos s.worker_connections) s.pool.online_count ≡ false
    → IsSound s
    → IsSound (register_client e c s)
register-IsSound e c s u room v = elim (Bool-cases s.time_enable) [
  | inl on ↦
      let q = add_to_timer_queue e.now c s.timer s.pool in
      let t =
        recount-Tidy (incr q.1.online_count) q.1
          (timer_pool-IsTidy e.now c s.timer s.pool u v.tidy) in
      rw on (record {
        tidy = t;
        timed = add_to_timer_queue-IsTimer e.now c s.timer s.pool v.timed;
        bounded =
            rw (timer_pool-online e.now c s.timer s.pool)
              (one_more s.pool.online_count s.worker_connections room);
      })
  | inr off ↦
      let t = recount-Tidy (incr s.pool.online_count) s.pool v.tidy in
      rw off (record {
        tidy = t;
        timed = v.timed;
        bounded = one_more s.pool.online_count s.worker_connections room;
      })
]

with_pool-Goes :
    (s : Server) (r : Option Pool)
    → Survives r
    → ((q : Pool) → r ≡ some q → q.online_count ≡ s.pool.online_count)
    → IsSound s
    → Goes (with_pool s r)
with_pool-Goes s none w o v = tt
with_pool-Goes s (some q) w o v = record {
  tidy = w;
  timed = v.timed;
  bounded = rw (o q refl) v.bounded;
}

online-close :
    (b : Bool) (c : ℕ) (p q : Pool)
    → close_connection b c p ≡ some q
    → q.online_count ≡ p.online_count
unfolding close_connection free_connection_item
online-close b c p q e = ground arith

admit-Goes :
    (e : Calls) (fd c : ℕ) (s : Server)
    → InUse s.pool c
    → leb_ℤ (pos s.worker_connections) s.pool.online_count ≡ false
    → IsSound s
    → Goes (admit e fd c s)
admit-Goes e fd c s u room v =
    let k = epoll_oper_event ctl_add (epollin + epollrdhup) bc_set (set_up e fd (s.pool.conn c)) in
    let p = set_conn c k s.pool in
    let w = used-Tidy c k s.pool u v.tidy in
    let s' : Server = record s { pool = p } in
    let v' : IsSound s' = record { tidy = w; timed = v.timed; bounded = v.bounded } in
    elim (Bool-cases (not s.use_accept4 && not e.nonblocking)) [
      | inl blocked ↦ rw blocked tt
      | inr fine ↦ elim (Bool-cases e.registers) [
        | inl registered ↦ rw (fine, registered) (register-IsSound e c s' u room v')
        | inr fails ↦
            rw (fine, fails)
              (with_pool-Goes s (close_connection e.closes c p)
                (close_connection-Survives e.closes c p u.0 w)
                (λ q r. online-close e.closes c p q r) v)
      ]
    ]

pub get-online : (p : Pool) → (get_connection_item p).1.online_count ≡ p.online_count
unfolding get_connection_item
get-online p = get-cases p p.free_list
  where
    get-cases : (p : Pool) (xs : List ℕ) → (take_free p xs).1.online_count ≡ p.online_count
    get-cases p [] = refl
    get-cases p (x ∷ xs) = refl

take_client-Goes : (e : Calls) (a : AcceptCall) (s : Server) → IsSound s → Goes (take_client e a s)
take_client-Goes e (failed _) s v = v
take_client-Goes e (accepted fd) s v = elim (Bool-cases (is_full s)) [
  | inl full ↦ rw full v
  | inr room ↦
      let r = get_connection_item s.pool in
      let o = get-online s.pool in
      let s' : Server = record s { pool = r.1 } in
      let v' : IsSound s' = record {
        tidy = get_connection_item-IsTidy s.pool v.tidy;
        timed = v.timed;
        bounded = rw o v.bounded;
      } in
      rw room (
        admit-Goes e fd r.0 s' (get_connection_item-InUse s.pool v.tidy) (rw o (room_left s room))
          v')
]
  where
    room_left :
        (s : Server)
        → is_full s ≡ false
        → leb_ℤ (pos s.worker_connections) s.pool.online_count ≡ false
    room_left s h = ground arith

handler-Goes :
    (e : Calls) (first second : AcceptCall) (s : Server)
    → IsSound s
    → Goes (event_accept_handler e first second s)
unfolding event_accept_handler
handler-Goes e first second s v = elim (Bool-cases (s.use_accept4 && is_enosys first)) [
  | inl again ↦
      let v' : IsSound (record s { use_accept4 = false }) = record {
        tidy = v.tidy;
        timed = v.timed;
        bounded = v.bounded;
      } in
      rw again (take_client-Goes e second (record s { use_accept4 = false }) v')
  | inr once ↦ rw once (take_client-Goes e first s v)
]

-- Whatever the system calls return, if the process goes on after an attempt to accept a client, then
-- pool and timer still satisfy their invariants, and there are no more clients than the configuration
-- allows.
pub event_accept_handler-IsSound :
    (e : Calls) (first second : AcceptCall) (s s' : Server)
    → IsSound s
    → event_accept_handler e first second s ≡ some s'
    → IsSound s'
event_accept_handler-IsSound e first second s s' v r = rw r at (handler-Goes e first second s v)
