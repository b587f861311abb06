-- ===== src/Pool/Closing.antt =====
-- Closing a connection: `close_accepted_connection` and `close_connection` of net/socket_conn.cxx.
use my_nignx.Prelude.{
  ℕ, ◌<◌, ◌≡◌, refl, ◌∙◌, ◌≢◌, inl, inr, Bool, true, false, Option, none, some, arith, negsuc,
  Bool-cases, update, decr, eqb_ℤ, not, ◌&&◌, ◌||◌,
}
use my_nignx.Conn.{Connection, next_sequence}
use my_nignx.Pool.{
  Pool, free_connection_item, set_conn, close_connection, in_recy_conn_queue, shut_down,
  close_accepted_connection,
}
use my_nignx.Pool.Invariant.{
  IsTidy, open-unused, free-Tidy, set_conn-Tidy, in_recy_conn_queue-IsTidy,
}

fd-shut_down : (k : Connection) → (shut_down k).fd ≡ negsuc 0
fd-shut_down k = ground arith

closing-Tidy :
    (now c : ℕ) (p : Pool)
    → c < p.next
    → (p.conn c).fd ≢ negsuc 0
    → IsTidy p
    → IsTidy (
        in_recy_conn_queue now c (record p {
          conn = update p.conn c (shut_down (p.conn c));
          online_count = decr p.online_count;
        }))
closing-Tidy now c p made op v =
    let q : Pool = record p { online_count = decr p.online_count } in
    let unused = open-unused c p v op in
    let w : IsTidy q = record {
      listed = v.listed;
      once = v.once;
      closed = v.closed;
      free_counted = v.free_counted;
      recy_counted = v.recy_counted;
    } in
    let shut = fd-shut_down (p.conn c) in
    in_recy_conn_queue-IsTidy now c (set_conn c (shut_down (p.conn c)) q) made
      (omega (arith, unused)) (ground (arith, shut))
      (set_conn-Tidy c (shut_down (p.conn c)) q p.recy_list (λ h. shut) w)

-- The result of a call that may end the process.
abbrev pub Survives : Option Pool → Type 0
Survives none = Unit {0}
Survives (some q) = IsTidy q

pub close-Survives :
    (closed : Bool) (now : ℕ) (by_timeout : Bool) (c : ℕ) (p : Pool)
    → c < p.next
    → IsTidy p
    → Survives (close_accepted_connection closed now by_timeout c p)
unfolding close_accepted_connection
close-Survives closed now by_timeout c p made v =
    elim (Bool-cases (eqb_ℤ (p.conn c).fd (negsuc 0))) [
      | inl shut ↦ rw shut v
      | inr op ↦ elim (Bool-cases (not by_timeout && (p.conn c).istimeout)) [
        | inl late ↦ rw (op, late) v
        | inr go ↦ elim (Bool-cases closed) [
          | inl fine ↦ rw (op, go, fine) (closing-Tidy now c p made (ground arith) v)
          | inr fails ↦ rw (op, go, fails) tt
        ]
      ]
    ]

-- Closing any connection object keeps the pool tidy, whoever calls it and however often: a
-- connection that is not in use is refused by its descriptor.
pub close_accepted_connection-IsTidy :
    (closed : Bool) (now : ℕ) (by_timeout : Bool) (c : ℕ) (p q : Pool)
    → c < p.next
    → IsTidy p
    → close_accepted_connection closed now by_timeout c p ≡ some q
    → IsTidy q
close_accepted_connection-IsTidy closed now by_timeout c p q made v e =
    rw e at (close-Survives closed now by_timeout c p made v)

abbrev shut_pool : ℕ → Pool → Pool
shut_pool c p = record p {
  conn = update p.conn c (shut_down (p.conn c));
  online_count = decr p.online_count;
}

online_count-in_recy_conn_queue :
    (now c : ℕ) (p : Pool) → (in_recy_conn_queue now c p).online_count ≡ p.online_count
unfolding in_recy_conn_queue
online_count-in_recy_conn_queue now c p = ground arith

fd-in_recy_conn_queue :
    (now c d : ℕ) (p : Pool) → ((in_recy_conn_queue now c p).conn d).fd ≡ (p.conn d).fd
unfolding in_recy_conn_queue
fd-in_recy_conn_queue now c d p = ground arith

fd-shut_pool : (c : ℕ) (p : Pool) → ((shut_pool c p).conn c).fd ≡ negsuc 0
fd-shut_pool c p = ground (arith, fd-shut_down (p.conn c))

close_shut :
    (closed : Bool) (now : ℕ) (by_timeout : Bool) (c : ℕ) (p : Pool)
    → (p.conn c).fd ≡ negsuc 0
    → close_accepted_connection closed now by_timeout c p ≡ some p
unfolding close_accepted_connection
close_shut closed now by_timeout c p shut =
    let b : eqb_ℤ (p.conn c).fd (negsuc 0) ≡ true = ground arith in rw b

close_open :
    (now : ℕ) (by_timeout : Bool) (c : ℕ) (p : Pool)
    → (p.conn c).fd ≢ negsuc 0
    → (not by_timeout && (p.conn c).istimeout) ≡ false
    → close_accepted_connection true now by_timeout c p
      ≡ some (in_recy_conn_queue now c (shut_pool c p))
unfolding close_accepted_connection
close_open now by_timeout c p op go =
    let b : eqb_ℤ (p.conn c).fd (negsuc 0) ≡ false = ground arith in rw (b, go)

-- After a close that goes through (the connection is open, and no timeout has closed it before
-- unless this is a timeout's call) every further close changes nothing, and the number of clients
-- online has gone down by one.
pub close_accepted_connection_twice :
    (now later : ℕ) (by_timeout again : Bool) (c : ℕ) (p : Pool)
    → (p.conn c).fd ≢ negsuc 0
    → (not by_timeout && (p.conn c).istimeout) ≡ false
    → (q : Pool) × (close_accepted_connection true now by_timeout c p ≡ some q)
      × (close_accepted_connection true later again c q ≡ some q)
      × (q.online_count ≡ decr p.online_count)
close_accepted_connection_twice now later by_timeout again c p op go =
    let q = in_recy_conn_queue now c (shut_pool c p) in
    let shut = fd-in_recy_conn_queue now c c (shut_pool c p) ∙ fd-shut_pool c p in
    (
      q,
      close_open now by_timeout c p op go,
      close_shut true later again c q shut,
      online_count-in_recy_conn_queue now c (shut_pool c p),
    )

-- An immediate close, if the process goes on, keeps the pool tidy as well.
pub close_connection-Survives :
    (closed : Bool) (c : ℕ) (p : Pool)
    → c < p.next
    → IsTidy p
    → Survives (close_connection closed c p)
unfolding close_connection free_connection_item
close_connection-Survives closed c p made v =
    let k = p.conn c in
    elim (Bool-cases (eqb_ℤ k.fd (negsuc 0) || k.istimeout)) [
      | inl bad ↦ rw bad tt
      | inr good ↦ elim (Bool-cases closed) [
        | inl fine ↦
            let k' : Connection = record k { fd = negsuc 0; sequence = next_sequence k.sequence } in
            rw (good, fine)
              (free-Tidy c (set_conn c k' p) p.recy_list made (ground (arith, v.closed c))
                (ground arith) (set_conn-Tidy c k' p p.recy_list (λ h. refl) v))
        | inr fails ↦ rw (good, fails) tt
      ]
    ]
