-- ===== src/Process/Pools.antt =====
-- The pool's operations keep the messages that its objects receive in order.
use my_nignx.Prelude.{
  All, ℕ, zero, suc, ◌+◌, ◌≡◌, refl, Bool, false, not, ◌&&◌, ◌||◌, List, [], ◌∷◌, true, arith, ltb,
  Bool-cases, inl, inr, update, decr, negsuc, eqb_ℤ, contains, size_decr,
}
use my_nignx.Conn.{Connection, next_sequence, put_one_to_free}
use my_nignx.Epoll.{epoll_oper_event}
use my_nignx.Pool.{
  Pool, new_connection, create, init_loop, connectpool_init, take_free, get_connection_item,
  free_connection_item, close_connection, in_recy_conn_queue, shut_down, close_accepted_connection,
  give_back, recycle_loop, recycle_pass, recy_conn_round,
}
use my_nignx.Process.Pointers.{Receives, weaken-Receives, update-Receives, touch-Receives}

abbrev pub AreKept : Pool → Type 0
AreKept p = Receives p.next p.conn

abbrev pub KeptAt : ℕ → Pool → Type 0
KeptAt n p = Receives n p.conn × (p.next ≡ n)

msgrecv-shut_down : (k : Connection) → (shut_down k).msgrecv ≡ k.msgrecv
unfolding epoll_oper_event
msgrecv-shut_down k = ground arith

queue-KeptAt : (now c n : ℕ) (p : Pool) → KeptAt n p → KeptAt n (in_recy_conn_queue now c p)
unfolding in_recy_conn_queue
queue-KeptAt now c n p v = elim (Bool-cases (p.conn c).in_recy_list) [
  | inl there ↦ rw there v
  | inr away ↦ elim (Bool-cases (contains c p.recy_list)) [
    | inl found ↦ rw (away, found) v
    | inr missing ↦
        let k : Connection = record (p.conn c) { in_recy_list = true; inrevy_time = now } in
        rw (away, missing) (touch-Receives n c k p.conn refl v.0, v.1)
  ]
]

pub close-KeptAt :
    (closed : Bool) (now : ℕ) (by_timeout : Bool) (c n : ℕ) (p : Pool)
    → KeptAt n p
    → All (KeptAt n) (close_accepted_connection closed now by_timeout c p)
unfolding close_accepted_connection
close-KeptAt closed now by_timeout c n p v = elim (Bool-cases (eqb_ℤ (p.conn c).fd (negsuc 0))) [
  | inl shut ↦ rw shut v
  | inr op ↦ elim (Bool-cases (not by_timeout && (p.conn c).istimeout)) [
    | inl late ↦ rw (op, late) v
    | inr go ↦ elim (Bool-cases closed) [
      | inl fine ↦
          let q : Pool = record p {
            conn = update p.conn c (shut_down (p.conn c));
            online_count = decr p.online_count;
          } in
          let k = shut_down (p.conn c) in
          rw (op, go, fine)
            (queue-KeptAt now c n q
              (touch-Receives n c k p.conn (msgrecv-shut_down (p.conn c)) v.0, v.1))
      | inr fails ↦ rw (op, go, fails) tt
    ]
  ]
]

pub close_connection-KeptAt :
    (closed : Bool) (c n : ℕ) (p : Pool) → KeptAt n p → All (KeptAt n) (close_connection closed c p)
unfolding close_connection free_connection_item
close_connection-KeptAt closed c n p v =
    elim (Bool-cases (eqb_ℤ (p.conn c).fd (negsuc 0) || (p.conn c).istimeout)) [
      | inl shut ↦ rw shut tt
      | inr op ↦ elim (Bool-cases closed) [
        | inl fine ↦
            let k : Connection = record (p.conn c) {
              fd = negsuc 0;
              sequence = next_sequence (p.conn c).sequence;
            } in
            rw (op, fine) (touch-Receives n c k p.conn refl v.0, v.1)
        | inr fails ↦ rw (op, fails) tt
      ]
    ]

-- A new object receives nothing yet.
create-Kept : (p : Pool) → AreKept p → AreKept (create p)
create-Kept p v =
    weaken-Receives p.next (suc p.next) (update p.conn p.next new_connection) (omega arith)
      (λ c old new. ground arith) (update-Receives p.next p.next new_connection p.conn tt v)

pub get-Kept : (p : Pool) → AreKept p → AreKept (get_connection_item p).1
unfolding get_connection_item
get-Kept p v = take-Kept p.free_list
  where
    take-Kept : (xs : List ℕ) → AreKept (take_free p xs).1
    take-Kept [] = create-Kept p v
    take-Kept (x ∷ xs) = v

back-KeptAt : (c n : ℕ) (p : Pool) → KeptAt n p → KeptAt n (give_back c p)
unfolding free_connection_item put_one_to_free
back-KeptAt c n p v = (update-Receives n c (put_one_to_free (p.conn c)) p.conn tt v.0, v.1)

loop-KeptAt :
    (clock : ℕ → ℕ) (i n : ℕ) (cs : List ℕ) (p : Pool)
    → KeptAt n p
    → KeptAt n (recycle_loop clock i cs p).1
unfolding recycle_loop
loop-KeptAt clock i n [] p v = v
loop-KeptAt clock i n (c ∷ cs) p v =
    elim (Bool-cases (ltb (p.delay_time + (p.conn c).inrevy_time) (clock i))) [
      | inl due ↦
          let q : Pool = record p { recy_count = size_decr p.recy_count } in
          rw due (loop-KeptAt clock (i + 1) n cs (give_back c q) (back-KeptAt c n q v))
      | inr early ↦ rw early (loop-KeptAt clock (i + 1) n cs p v)
    ]

pub round-KeptAt :
    (clock : ℕ → ℕ) (n : ℕ) (p : Pool) → KeptAt n p → KeptAt n (recy_conn_round false clock p)
unfolding recy_conn_round recycle_pass
round-KeptAt clock n p v = elim (Bool-cases (ltb 0 p.recy_count)) [
  | inl some_wait ↦ rw some_wait (loop-KeptAt clock 0 n p.recy_list p v)
  | inr none_wait ↦ rw none_wait v
]

pub init-Kept : (n : ℕ) (p : Pool) → AreKept p → AreKept (connectpool_init n p)
unfolding connectpool_init
init-Kept n p v = loop-Kept n p v
  where
    loop-Kept : (n : ℕ) (p : Pool) → AreKept p → AreKept (init_loop n p)
    loop-Kept zero p v = v
    loop-Kept (suc n) p v = loop-Kept n _ (create-Kept p v)
