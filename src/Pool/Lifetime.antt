-- ===== src/Pool/Lifetime.antt =====
-- The pool over the life of a worker process: `connectpool_init`, then the calls of the event loop and
-- the threads in any order.
use my_nignx.Prelude.{
  ℕ, zero, suc, ◌+◌, ◌<◌, ◌≡◌, sym, ap, ◌∙◌, Bool, false, [], ◌∷◌, ◌++◌, some, arith, length,
  length-append, ltb, if◌then◌else◌, negsuc, count, count-append, Bool-cases, inl, inr,
}
use my_nignx.Conn.{Connection}
use my_nignx.Pool.{
  Pool, create, init_loop, connectpool_init, get_connection_item, close_accepted_connection,
  close_connection, recy_conn_round, set_conn,
}
use my_nignx.Pool.Invariant.{IsTidy, InUse, get_connection_item-IsTidy, set_conn-Tidy}
use my_nignx.Pool.Closing.{Survives, close_accepted_connection-IsTidy, close_connection-Survives}
use my_nignx.Pool.Recycle.{recycle_pass_lem}

-- No objects yet, as the constructor of `CSocket` leaves the pool.
pub record IsBlank (p : Pool) : Type 0 where
  pub none_made : p.next ≡ 0
  pub none_listed : p.connection_list ≡ []
  pub none_free : p.free_list ≡ []
  pub none_queued : p.recy_list ≡ []
  pub queue_counted : p.recy_count ≡ 0

-- While the pool is filled, every object is free.
record Filling (p : Pool) : Type 0 where
  listed : (c : ℕ) → count c p.connection_list ≡ (if ltb c p.next then 1 else 0)
  all_free : p.free_list ≡ p.connection_list
  shut : (c : ℕ) → c < p.next → (p.conn c).fd ≡ negsuc 0
  none_queued : p.recy_list ≡ []
  queue_counted : p.recy_count ≡ 0
  made : length p.free_list ≡ p.next

fill_one :
    (p : Pool)
    → Filling p
    → Filling (record (create p) { free_list = p.free_list ++ (p.next ∷ []) })
fill_one p v = record {
  listed = λ c. ground (arith, v.listed c, count-append c p.connection_list (p.next ∷ []));
  all_free = ap (λ l. l ++ (p.next ∷ [])) v.all_free;
  shut = λ c h. ground (arith, v.shut c);
  none_queued = v.none_queued;
  queue_counted = v.queue_counted;
  made = omega (arith, length-append p.free_list (p.next ∷ []), v.made);
}

init-Filling : (n : ℕ) (p : Pool) → Filling p → Filling (init_loop n p)
unfolding init_loop
init-Filling zero p v = v
init-Filling (suc n) p v =
    init-Filling n (record (create p) { free_list = p.free_list ++ (p.next ∷ []) }) (fill_one p v)

next-init : (n : ℕ) (p : Pool) → (init_loop n p).next ≡ p.next + n
unfolding init_loop
next-init zero p = omega arith
next-init (suc n) p =
    omega (arith, next-init n (record (create p) { free_list = p.free_list ++ (p.next ∷ []) }))

blank-Filling : (p : Pool) → IsBlank p → Filling p
blank-Filling p b = record {
  listed = λ c. ground (arith, b.none_made, ap (count c) b.none_listed);
  all_free = b.none_free ∙ sym b.none_listed;
  shut = λ c h. absurd (omega (arith, b.none_made));
  none_queued = b.none_queued;
  queue_counted = b.queue_counted;
  made = ap length b.none_free ∙ sym b.none_made;
}

filled-IsTidy :
    (n : ℕ) (p : Pool)
    → Filling p
    → p.next ≡ n
    → IsTidy (record p { total_count = n; free_count = n })
filled-IsTidy n p v e = record {
  listed = v.listed;
  once = λ c.
      let f = ap (count c) v.all_free in let q = ap (count c) v.none_queued in omega (arith, f, q);
  closed = λ c h.
      let f = ap (count c) v.all_free in
      let q = ap (count c) v.none_queued in v.shut c (ground (arith, v.listed c));
  free_counted = sym (v.made ∙ e);
  recy_counted = v.queue_counted ∙ sym (ap length v.none_queued);
}

-- Filling a blank pool with `n` objects makes it tidy, with `n` free connections.
pub connectpool_init-IsTidy :
    (n : ℕ) (p : Pool)
    → IsBlank p
    → IsTidy (connectpool_init n p) × (length (connectpool_init n p).free_list ≡ n)
unfolding connectpool_init
connectpool_init-IsTidy n p b =
    let v = init-Filling n p (blank-Filling p b) in
    let e : (init_loop n p).next ≡ n = omega (arith, next-init n p, b.none_made) in
    (filled-IsTidy n (init_loop n p) v e, v.made ∙ e)

-- What the process does to the pool while it runs: a connection is taken; an object in use is
-- written to, its descriptor set or its buffers moved; a client's connection is closed for later
-- recycling, or at once; the recycling thread has its round.
pub data Step : Pool → Pool → Type 0 where
  takes : (p : Pool) → Step p (get_connection_item p).1
  writes : (c : ℕ) (k : Connection) (p : Pool) → InUse p c → Step p (set_conn c k p)
  closes :
      (closed : Bool) (now : ℕ) (by_timeout : Bool) (c : ℕ) (p q : Pool)
      → c < p.next
      → close_accepted_connection closed now by_timeout c p ≡ some q
      → Step p q
  closes_at_once :
      (closed : Bool) (c : ℕ) (p q : Pool)
      → c < p.next
      → close_connection closed c p ≡ some q
      → Step p q
  recycles : (clock : ℕ → ℕ) (p : Pool) → Step p (recy_conn_round false clock p)

pub data Reachable (start : Pool) : Pool → Type 0 where
  started : (n : ℕ) → Reachable start (connectpool_init n start)
  then_step : (p q : Pool) → Reachable start p → Step p q → Reachable start q

pub round-IsTidy : (clock : ℕ → ℕ) (p : Pool) → IsTidy p → IsTidy (recy_conn_round false clock p)
unfolding recy_conn_round
round-IsTidy clock p v = elim (Bool-cases (ltb 0 p.recy_count)) [
  | inl some_wait ↦ rw some_wait (recycle_pass_lem clock p v).0
  | inr none_wait ↦ rw none_wait v
]

Step-IsTidy : (p q : Pool) → Step p q → IsTidy p → IsTidy q
Step-IsTidy p _ (takes _) v = get_connection_item-IsTidy p v
Step-IsTidy p _ (writes c k _ u) v =
    set_conn-Tidy c k p p.recy_list (λ h. absurd (omega (arith, u.1))) v
Step-IsTidy p q (closes closed now by_timeout c _ _ made e) v =
    close_accepted_connection-IsTidy closed now by_timeout c p q made v e
Step-IsTidy p q (closes_at_once closed c _ _ made e) v =
    let s : Survives (close_connection closed c p) = close_connection-Survives closed c p made v in
    rw e at s
Step-IsTidy p _ (recycles clock _) v = round-IsTidy clock p v

-- From a blank pool, as long as the process is not told to stop, and in whatever order its threads
-- come: every object made is listed once, no object is free or waiting twice or both, each that is
-- free or waiting has its descriptor at -1, and the two counters say how many are free and how many
-- wait.
pub Reachable-IsTidy : (start p : Pool) → IsBlank start → Reachable start p → IsTidy p
Reachable-IsTidy start _ b (started n) = (connectpool_init-IsTidy n start b).0
Reachable-IsTidy start q b (then_step p _ r s) = Step-IsTidy p q s (Reachable-IsTidy start p b r)
