-- ===== src/Events/Invariant.antt =====
-- What the event loop keeps: the invariants of the pool, the timer, the number of clients and the
-- counter of the message queue.
use my_nignx.Prelude.{
  All, ℕ, ◌≤◌, ◌<◌, ◌≡◌, refl, Bool, true, false, List, [], ◌∷◌, Option, none, some, arith, length,
  length-append, Bool-cases, inl, inr, pos, leb_ℤ,
}
use my_nignx.Conn.{Connection, Message}
use my_nignx.Recv.{Handled}
use my_nignx.Pool.{Pool, set_conn, in_recy_conn_queue, close_accepted_connection}
use my_nignx.Pool.Invariant.{set_conn-Tidy}
use my_nignx.Pool.Closing.{Survives, close-Survives}
use my_nignx.Send.{Sender}
use my_nignx.Accept.{Calls, Server, with_pool, event_accept_handler}
use my_nignx.Accept.Invariant.{IsSound, event_accept_handler-IsSound}
use my_nignx.Workers.{ThreadPool, in_msg_recv}
use my_nignx.Events.{World, Polled, with_server, close_client, put_messages, received, sent_by}
use my_nignx.Events.Next.{NextFrom, close-next, accept-NextFrom}

pub record IsSoundWorld (w : World) : Type 0 where
  pub server : IsSound w.server
  pub queue_counted : w.workers.msgqueue_size ≡ length w.workers.msgqueue

-- A sound world with the addresses below `n`.
abbrev pub Safe : ℕ → World → Type 0
Safe n w = IsSoundWorld w × (n ≤ w.server.pool.next)

-- Every connection that epoll reports is an object of the pool.
abbrev pub AllKnown : ℕ → List Polled → Type 0
AllKnown n [] = Unit {0}
AllKnown n (ev ∷ evs) = All (λ c. c < n) ev.ptr × AllKnown n evs

pub same_fd-IsSound :
    (c : ℕ) (k : Connection) (s : Server)
    → k.fd ≡ (s.pool.conn c).fd
    → IsSound s
    → IsSound (record s { pool = set_conn c k s.pool })
same_fd-IsSound c k s e v = record {
  tidy = set_conn-Tidy c k s.pool s.pool.recy_list (λ h. ground (arith, v.tidy.closed c)) v.tidy;
  timed = v.timed;
  bounded = v.bounded;
}

pub online-close :
    (closed : Bool) (now c : ℕ) (p : Pool) (n : ℕ)
    → leb_ℤ p.online_count (pos n) ≡ true
    → All
        (λ q. leb_ℤ q.online_count (pos n) ≡ true)
        (close_accepted_connection closed now false c p)
unfolding close_accepted_connection in_recy_conn_queue
online-close closed now c p n h = ground arith

pub put_messages-counted :
    (ms : List (Option Message)) (p : ThreadPool)
    → p.msgqueue_size ≡ length p.msgqueue
    → (put_messages ms p).msgqueue_size ≡ length (put_messages ms p).msgqueue
unfolding in_msg_recv
put_messages-counted [] p h = h
put_messages-counted (m ∷ ms) p h =
    put_messages-counted ms (in_msg_recv m p) (omega (arith, length-append p.msgqueue (m ∷ [])))

pub close_client-Safe :
    (n : ℕ) (e : Calls) (c : ℕ) (w : World) → c < n → Safe n w → All (Safe n) (close_client e c w)
close_client-Safe n e c w made v =
    let p = w.server.pool in
    let r = close_accepted_connection e.closes e.now false c p in
    result-Safe r (close-Survives e.closes e.now false c p (omega (arith, v.1)) v.0.server.tidy)
      (close-next e.closes e.now false c p)
      (online-close e.closes e.now c p w.server.worker_connections v.0.server.bounded)
  where
    result-Safe :
        (r : Option Pool)
        → Survives r
        → All (λ q. q.next ≡ w.server.pool.next) r
        → All (λ q. leb_ℤ q.online_count (pos w.server.worker_connections) ≡ true) r
        → All (Safe n) (with_server w (with_pool w.server r))
    result-Safe none t m o = tt
    result-Safe (some q) t m o = (
      record {
        server = record { tidy = t; timed = v.0.server.timed; bounded = o };
        queue_counted = v.0.queue_counted;
      },
      omega (arith, m, v.1),
    )

pub received-Safe :
    (n : ℕ) (e : Calls) (c : ℕ) (w : World) (h : Handled)
    → c < n
    → Safe n w
    → h.conn.fd ≡ (w.server.pool.conn c).fd
    → All (Safe n) (received e c w h)
received-Safe n e c w h made v same =
    let w' : World = record w {
      server = record w.server { pool = set_conn c h.conn w.server.pool };
      workers = put_messages h.queued w.workers;
    } in
    let v' : Safe n w' = (
      record {
        server = same_fd-IsSound c h.conn w.server same v.0.server;
        queue_counted = put_messages-counted h.queued w.workers v.0.queue_counted;
      },
      v.1,
    ) in
    elim (Bool-cases h.closes) [
      | inl shuts ↦ rw shuts (close_client-Safe n e c w' made v')
      | inr stays ↦ rw stays v'
    ]

pub accepted-Safe :
    (n : ℕ) (ev : Polled) (w : World)
    → Safe n w
    → All
        (Safe n)
        (with_server w (event_accept_handler ev.calls ev.first_accept ev.second_accept w.server))
accepted-Safe n ev w v =
    result-Safe (event_accept_handler ev.calls ev.first_accept ev.second_accept w.server)
      (λ s r.
        event_accept_handler-IsSound ev.calls ev.first_accept ev.second_accept w.server s v.0.server
          r)
      (accept-NextFrom ev.calls ev.first_accept ev.second_accept w.server)
  where
    result-Safe :
        (r : Option Server)
        → ((s : Server) → r ≡ some s → IsSound s)
        → All (NextFrom w.server.pool.next) r
        → All (Safe n) (with_server w r)
    result-Safe none sound m = tt
    result-Safe (some s) sound m =
        (record { server = sound s refl; queue_counted = v.0.queue_counted }, omega (arith, m, v.1))

pub sent_by-Safe :
    (n : ℕ) (t : Sender) (w : World)
    → ((d : ℕ) → (t.conn d).fd ≡ (w.server.pool.conn d).fd)
    → Safe n w
    → Safe n (sent_by t w)
sent_by-Safe n t w same v =
    let u = v.0.server.tidy in
    (
      record {
        server = record {
          tidy = record {
            listed = u.listed;
            once = u.once;
            closed = λ d h. cc (same d, u.closed d h);
            free_counted = u.free_counted;
            recy_counted = u.recy_counted;
          };
          timed = v.0.server.timed;
          bounded = v.0.server.bounded;
        };
        queue_counted = v.0.queue_counted;
      },
      v.1,
    )
