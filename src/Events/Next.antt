-- ===== src/Events/Next.antt =====
-- The addresses of connection objects through accepting and closing: none is given up.
use my_nignx.Prelude.{
  All, ℕ, ◌+◌, ◌≤◌, ◌≡◌, Bool, false, not, ◌&&◌, List, [], ◌∷◌, Option, none, some, arith,
  Bool-cases, inl, inr,
}
use my_nignx.Epoll.{epoll_oper_event, ctl_add, bc_set, epollin, epollrdhup}
use my_nignx.Pool.{
  Pool, set_conn, take_free, get_connection_item, close_connection, free_connection_item,
  in_recy_conn_queue, close_accepted_connection,
}
use my_nignx.Timer.{add_to_timer_queue}
use my_nignx.Accept.{
  AcceptCall, accepted, failed, Calls, Server, is_full, set_up, register_client, with_pool, admit,
  take_client, is_enosys, event_accept_handler,
}

abbrev NextIs : ℕ → Pool → Type 0
NextIs n p = p.next ≡ n

abbrev pub NextFrom : ℕ → Server → Type 0
NextFrom n s = n ≤ s.pool.next

pub close-next :
    (closed : Bool) (now : ℕ) (by_timeout : Bool) (c : ℕ) (p : Pool)
    → All (NextIs p.next) (close_accepted_connection closed now by_timeout c p)
unfolding close_accepted_connection in_recy_conn_queue
close-next closed now by_timeout c p = ground arith

close_connection-next :
    (closed : Bool) (c : ℕ) (p : Pool) → All (NextIs p.next) (close_connection closed c p)
unfolding close_connection free_connection_item
close_connection-next closed c p = ground arith

pub with_pool-NextFrom :
    (s : Server) (n : ℕ) (r : Option Pool) → All (NextIs n) r → All (NextFrom n) (with_pool s r)
with_pool-NextFrom s n none h = tt
with_pool-NextFrom s n (some p) h = omega (arith, h)

register-next : (e : Calls) (c : ℕ) (s : Server) → (register_client e c s).pool.next ≡ s.pool.next
unfolding add_to_timer_queue
register-next e c s = ground arith

admit-NextFrom : (e : Calls) (fd c : ℕ) (s : Server) → All (NextFrom s.pool.next) (admit e fd c s)
admit-NextFrom e fd c s =
    let k = epoll_oper_event ctl_add (epollin + epollrdhup) bc_set (set_up e fd (s.pool.conn c)) in
    let p = set_conn c k s.pool in
    elim (Bool-cases (not s.use_accept4 && not e.nonblocking)) [
      | inl blocked ↦ rw blocked tt
      | inr fine ↦ elim (Bool-cases e.registers) [
        | inl registered ↦
            rw (fine, registered, register-next e c (record s { pool = p })) (omega arith)
        | inr fails ↦
            rw (fine, fails)
              (with_pool-NextFrom s s.pool.next (close_connection e.closes c p)
                (close_connection-next e.closes c p))
      ]
    ]

pub get-next : (p : Pool) → p.next ≤ (get_connection_item p).1.next
unfolding get_connection_item
get-next p = get-cases p p.free_list
  where
    get-cases : (p : Pool) (xs : List ℕ) → p.next ≤ (take_free p xs).1.next
    get-cases p [] = omega arith
    get-cases p (x ∷ xs) = omega arith

NextFrom-weaken : (m n : ℕ) (r : Option Server) → m ≤ n → All (NextFrom n) r → All (NextFrom m) r
NextFrom-weaken m n none h k = tt
NextFrom-weaken m n (some s) h k = omega arith

take_client-NextFrom :
    (e : Calls) (a : AcceptCall) (s : Server) → All (NextFrom s.pool.next) (take_client e a s)
take_client-NextFrom e (failed _) s = omega arith
take_client-NextFrom e (accepted fd) s = elim (Bool-cases (is_full s)) [
  | inl full ↦ rw full (omega arith)
  | inr room ↦
      let r = get_connection_item s.pool in
      let s' : Server = record s { pool = r.1 } in
      rw room (
        NextFrom-weaken s.pool.next r.1.next (admit e fd r.0 s') (get-next s.pool)
          (admit-NextFrom e fd r.0 s'))
]

pub accept-NextFrom :
    (e : Calls) (first second : AcceptCall) (s : Server)
    → All (NextFrom s.pool.next) (event_accept_handler e first second s)
unfolding event_accept_handler
accept-NextFrom e first second s = elim (Bool-cases (s.use_accept4 && is_enosys first)) [
  | inl again ↦ rw again (take_client-NextFrom e second (record s { use_accept4 = false }))
  | inr once ↦ rw once (take_client-NextFrom e first s)
]
