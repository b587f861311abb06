-- ===== src/Process/Accepting.antt =====
-- Accepting clients, and starting to listen, keep the pointers to connection objects in order.
use my_nignx.Prelude.{
  Every, All, ℕ, ◌+◌, ◌<◌, refl, Bool, false, not, ◌&&◌, List, [], ◌∷◌, Option, none, some, leb,
  Bool-cases, inl, inr,
}
use my_nignx.Conn.{Connection, get_one_to_use, put_to_state_mach}
use my_nignx.Epoll.{epoll_oper_event, ctl_add, bc_set, epollin, epollrdhup}
use my_nignx.Pool.{Pool, set_conn, get_connection_item, close_connection}
use my_nignx.Timer.{Entry, insert, add_to_timer_queue}
use my_nignx.Accept.{
  AcceptCall, accepted, failed, Calls, Server, is_full, set_up, register_client, with_pool, admit,
  take_client, is_enosys, event_accept_handler,
}
use my_nignx.Events.Next.{get-next}
use my_nignx.Events.Start.{attach, with_connitem, listen_loop}
use my_nignx.Process.Pointers.{NamesAt, IsPointed, update-Receives, touch-Receives, weaken-timed}
use my_nignx.Process.Pools.{KeptAt, get-Kept, close_connection-KeptAt}

pub insert-Every :
    (P : Entry → Type 0) (e : Entry) (es : List Entry) → P e → Every P es → Every P (insert e es)
unfolding insert
insert-Every P e [] h v = (h, tt)
insert-Every P e (x ∷ xs) h v = elim (Bool-cases (leb x.0 e.0)) [
  | inl behind ↦ rw behind (v.0, insert-Every P e xs h v.1)
  | inr before ↦ rw before (h, v)
]

timed-IsPointed :
    (e : Calls) (c : ℕ) (s : Server)
    → c < s.pool.next
    → IsPointed s
    → IsPointed (register_client e c s)
unfolding add_to_timer_queue
timed-IsPointed e c s made v = elim (Bool-cases s.time_enable) [
  | inl on ↦
      let k : Connection = record (s.pool.conn c) { ping_update_time = e.now } in
      rw on (record {
        receives = touch-Receives s.pool.next c k s.pool.conn refl v.receives;
        timed =
            insert-Every (NamesAt s.pool.next) (e.now + s.timer.waittime, _) s.timer.map made
              v.timed;
      })
  | inr off ↦ rw off (record { receives = v.receives; timed = v.timed })
]

pub closed-IsPointed :
    (s : Server) (n : ℕ) (r : Option Pool)
    → Every (NamesAt n) s.timer.map
    → All (KeptAt n) r
    → All IsPointed (with_pool s r)
closed-IsPointed s n none t v = tt
closed-IsPointed s n (some q) t v = record { receives = rw v.1 v.0; timed = rw v.1 t }

admit-IsPointed :
    (e : Calls) (fd c : ℕ) (s : Server)
    → c < s.pool.next
    → IsPointed s
    → All IsPointed (admit e fd c s)
unfolding epoll_oper_event get_one_to_use put_to_state_mach
admit-IsPointed e fd c s made v =
    let k = epoll_oper_event ctl_add (epollin + epollrdhup) bc_set (set_up e fd (s.pool.conn c)) in
    let p = set_conn c k s.pool in
    let kept = update-Receives s.pool.next c k s.pool.conn tt v.receives in
    elim (Bool-cases (not s.use_accept4 && not e.nonblocking)) [
      | inl blocked ↦ rw blocked tt
      | inr fine ↦ elim (Bool-cases e.registers) [
        | inl registered ↦
            rw (fine, registered)
              (timed-IsPointed e c (record s { pool = p }) made
                (record { receives = kept; timed = v.timed }))
        | inr fails ↦
            rw (fine, fails)
              (closed-IsPointed s s.pool.next (close_connection e.closes c p) v.timed
                (close_connection-KeptAt e.closes c s.pool.next p (kept, refl)))
      ]
    ]

-- `made` says that the object given out is one of the pool's.
take_client-IsPointed :
    (e : Calls) (a : AcceptCall) (s : Server)
    → (get_connection_item s.pool).0 < (get_connection_item s.pool).1.next
    → IsPointed s
    → All IsPointed (take_client e a s)
take_client-IsPointed e (failed _) s made v = v
take_client-IsPointed e (accepted fd) s made v = elim (Bool-cases (is_full s)) [
  | inl full ↦ rw full v
  | inr room ↦
      let r = get_connection_item s.pool in
      let s' : Server = record s { pool = r.1 } in
      rw room (
        admit-IsPointed e fd r.0 s' made (record {
          receives = get-Kept s.pool v.receives;
          timed = weaken-timed s.pool.next r.1.next s.timer.map (get-next s.pool) v.timed;
        }))
]

pub accept-IsPointed :
    (e : Calls) (first second : AcceptCall) (s : Server)
    → (get_connection_item s.pool).0 < (get_connection_item s.pool).1.next
    → IsPointed s
    → All IsPointed (event_accept_handler e first second s)
unfolding event_accept_handler
accept-IsPointed e first second s made v = elim (Bool-cases (s.use_accept4 && is_enosys first)) [
  | inl again ↦ rw again (
      take_client-IsPointed e second (record s { use_accept4 = false }) made
        (record { receives = v.receives; timed = v.timed }))
  | inr once ↦ rw once (take_client-IsPointed e first s made v)
]

-- What one listening socket does to the pool.
abbrev pub listened : ℕ → ℕ → Pool → Pool
listened i fd p =
    let r = get_connection_item p in
    set_conn r.0
      (epoll_oper_event ctl_add (epollin + epollrdhup) bc_set (attach i fd (r.1.conn r.0))) r.1

-- A property that every listening socket keeps is kept by the loop over them.
pub listen_loop-keeps :
    (P : Pool → Type 0) (registers : ℕ → Bool) (i : ℕ) (fds : List ℕ) (p : Pool)
    → ((i fd : ℕ) (p : Pool) → P p → P (listened i fd p))
    → P p
    → All (λ r. P r.1) (listen_loop registers i fds p)
unfolding listen_loop
listen_loop-keeps P registers i [] p one v = v
listen_loop-keeps P registers i (fd ∷ fds) p one v = elim (Bool-cases (registers i)) [
  | inl registered ↦
      let rest = listen_loop-keeps P registers (i + 1) fds (listened i fd p) one (one i fd p v) in
      rw registered (
        with_cases (get_connection_item p).0 (listen_loop registers (i + 1) fds (listened i fd p))
          rest)
  | inr fails ↦ rw fails tt
]
  where
    with_cases :
        (c : ℕ) (r : Option (List ℕ × Pool))
        → All (λ r. P r.1) r
        → All (λ r. P r.1) (with_connitem c r)
    with_cases c none v = tt
    with_cases c (some r) v = v
