-- ===== src/Process/Worlds.antt =====
-- What holds of the state of a worker process whenever no handler is at work.
use my_nignx.Prelude.{
  Every, append-Every, weaken-Every, All, weaken-All, both-All, equal-All, ℕ, ◌<◌, ◌≤◌, ◌≡◌, refl,
  true, false, List, [], ◌∷◌, Option, none, some, arith, pos, leb_ℤ,
}
use my_nignx.Conn.{Connection, Message}
use my_nignx.Pool.{Pool, set_conn, close_accepted_connection}
use my_nignx.Pool.Closing.{Survives, close-Survives}
use my_nignx.Send.{Sender}
use my_nignx.Accept.{Calls, Server, with_pool, event_accept_handler}
use my_nignx.Accept.Invariant.{IsSound, event_accept_handler-IsSound}
use my_nignx.Workers.{ThreadPool, in_msg_recv}
use my_nignx.Workers.Run.{working}
use my_nignx.Events.{World, Polled, with_server, close_client, put_messages, sent_by}
use my_nignx.Events.Next.{NextFrom, with_pool-NextFrom, close-next, accept-NextFrom}
use my_nignx.Events.Invariant.{
  IsSoundWorld, same_fd-IsSound, online-close, put_messages-counted, sent_by-Safe,
}
use my_nignx.Pool.Invariant.{get_connection_item-InUse}
use my_nignx.Process.Pointers.{NamesIn, IsPointed, update-Receives}
use my_nignx.Process.Pools.{close-KeptAt}
use my_nignx.Process.Accepting.{closed-IsPointed, accept-IsPointed}
use my_nignx.Process.Sending.{Leaves}

-- The threads of the pool: the messages in the queue and in their hands name objects below `n`, and the
-- counter of running threads is right.
pub record AreAtWork (n : ℕ) (t : ThreadPool) : Type 0 where
  pub queued : Every (All (NamesIn n)) t.msgqueue
  pub in_hand : (i : ℕ) → All (NamesIn n) (t.threads i).msg_ptr
  pub busy : t.running_thread ≡ pos (working t.threads t.create_thread)

pub record IsSafeWorld (w : World) : Type 0 where
  pub sound : IsSoundWorld w
  pub pointed : IsPointed w.server
  pub at_work : AreAtWork w.server.pool.next w.workers
  pub listed : Every (NamesIn w.server.pool.next) w.sender.msg_list

-- A safe world with the addresses below `m`.
abbrev pub Good : ℕ → World → Type 0
Good m w = IsSafeWorld w × (m ≤ w.server.pool.next)

weaken-NamesIn : (m n : ℕ) (a : Message) → m ≤ n → NamesIn m a → NamesIn n a
weaken-NamesIn m n a h v = omega arith

weaken-at_work : (m n : ℕ) (t : ThreadPool) → m ≤ n → AreAtWork m t → AreAtWork n t
weaken-at_work m n t h v = record {
  queued =
      weaken-Every (All (NamesIn m)) (All (NamesIn n)) t.msgqueue
        (λ r. weaken-All (NamesIn m) (NamesIn n) r (λ a. weaken-NamesIn m n a h)) v.queued;
  in_hand = λ i.
      weaken-All (NamesIn m) (NamesIn n) (t.threads i).msg_ptr (λ a. weaken-NamesIn m n a h)
        (v.in_hand i);
  busy = v.busy;
}

pub weaken-listed :
    (m n : ℕ) (ms : List Message) → m ≤ n → Every (NamesIn m) ms → Every (NamesIn n) ms
weaken-listed m n ms h v = weaken-Every (NamesIn m) (NamesIn n) ms (λ a. weaken-NamesIn m n a h) v

-- A new state of pool and timer.
pub server-safe :
    (w : World) (s : Server)
    → w.server.pool.next ≤ s.pool.next
    → IsSound s
    → IsPointed s
    → IsSafeWorld w
    → IsSafeWorld (record w { server = s })
server-safe w s more sound pointed v = record {
  sound = record { server = sound; queue_counted = v.sound.queue_counted };
  pointed = pointed;
  at_work = weaken-at_work w.server.pool.next s.pool.next w.workers more v.at_work;
  listed = weaken-listed w.server.pool.next s.pool.next w.sender.msg_list more v.listed;
}

abbrev IsNext : ℕ → Server → Type 0
IsNext n s = (IsSound s × IsPointed s) × NextFrom n s

server-Good :
    (m : ℕ) (w : World) (r : Option Server)
    → All (IsNext w.server.pool.next) r
    → Good m w
    → All (Good m) (with_server w r)
server-Good m w none h v = tt
server-Good m w (some s) h v = (server-safe w s h.1 h.0.0 h.0.1 v.0, omega (arith, h.1, v.1))

-- The descriptor and the message that an object receives, of one object.
pub conn-safe :
    (c : ℕ) (k : Connection) (w : World)
    → k.fd ≡ (w.server.pool.conn c).fd
    → All (NamesIn w.server.pool.next) k.msgrecv
    → IsSafeWorld w
    → IsSafeWorld (record w { server = record w.server { pool = set_conn c k w.server.pool } })
conn-safe c k w e h v =
    server-safe w (record w.server { pool = set_conn c k w.server.pool }) (omega arith)
      (same_fd-IsSound c k w.server e v.sound.server)
      (record {
        receives = update-Receives w.server.pool.next c k w.server.pool.conn h v.pointed.receives;
        timed = v.pointed.timed;
      })
      v

closed-IsSound :
    (s : Server) (r : Option Pool)
    → Survives r
    → All (λ q. leb_ℤ q.online_count (pos s.worker_connections) ≡ true) r
    → IsSound s
    → All IsSound (with_pool s r)
closed-IsSound s none h o v = tt
closed-IsSound s (some q) h o v = record { tidy = h; timed = v.timed; bounded = o }

pub close_client-Good :
    (m : ℕ) (e : Calls) (c : ℕ) (w : World) → c < m → Good m w → All (Good m) (close_client e c w)
close_client-Good m e c w made v =
    let p = w.server.pool in
    let r = close_accepted_connection e.closes e.now false c p in
    let t = v.0.sound.server in
    let sound =
      closed-IsSound w.server r
        (close-Survives e.closes e.now false c p (omega (arith, v.1)) t.tidy)
        (online-close e.closes e.now c p w.server.worker_connections t.bounded) t in
    let pointed =
      closed-IsPointed w.server p.next r v.0.pointed.timed
        (close-KeptAt e.closes e.now false c p.next p (v.0.pointed.receives, refl)) in
    let from = with_pool-NextFrom w.server p.next r (close-next e.closes e.now false c p) in
    let s = with_pool w.server r in
    server-Good m w s
      (both-All (λ a. IsSound a × IsPointed a) (NextFrom p.next) s
        (both-All IsSound IsPointed s sound pointed) from)
      v

pub accepted-Good :
    (m : ℕ) (ev : Polled) (w : World)
    → Good m w
    → All
        (Good m)
        (with_server w (event_accept_handler ev.calls ev.first_accept ev.second_accept w.server))
accepted-Good m ev w v =
    let s = event_accept_handler ev.calls ev.first_accept ev.second_accept w.server in
    let sound : All IsSound s = equal-All IsSound s (λ a e.
      event_accept_handler-IsSound ev.calls ev.first_accept ev.second_accept w.server a
        v.0.sound.server e) in
    let pointed =
      accept-IsPointed ev.calls ev.first_accept ev.second_accept w.server
        (get_connection_item-InUse w.server.pool v.0.sound.server.tidy).0 v.0.pointed in
    let from = accept-NextFrom ev.calls ev.first_accept ev.second_accept w.server in
    server-Good m w s
      (both-All (λ a. IsSound a × IsPointed a) (NextFrom w.server.pool.next) s
        (both-All IsSound IsPointed s sound pointed) from)
      v

-- What a sender leaves that keeps the descriptors and what is received.
pub sent_by-safe :
    (t : Sender) (w : World)
    → Leaves w.server.pool.conn t.conn
    → Every (NamesIn w.server.pool.next) t.msg_list
    → IsSafeWorld w
    → IsSafeWorld (sent_by t w)
sent_by-safe t w same listed v = record {
  sound = (sent_by-Safe 0 t w (λ d. (same d).0) (v.sound, omega arith)).0;
  pointed = record {
    receives = λ d made. rw ((same d).1) (v.pointed.receives d made);
    timed = v.pointed.timed;
  };
  at_work = v.at_work;
  listed = listed;
}

-- Messages that a handler puts into the queue of the thread pool.
put-at_work :
    (n : ℕ) (ms : List (Option Message)) (t : ThreadPool)
    → Every (All (NamesIn n)) ms
    → AreAtWork n t
    → AreAtWork n (put_messages ms t)
unfolding in_msg_recv
put-at_work n [] t h v = v
put-at_work n (m ∷ ms) t h v = put-at_work n ms (in_msg_recv m t) h.1 (record {
  queued = append-Every (All (NamesIn n)) t.msgqueue (m ∷ []) v.queued (h.0, tt);
  in_hand = v.in_hand;
  busy = v.busy;
})

pub put-safe :
    (ms : List (Option Message)) (w : World)
    → Every (All (NamesIn w.server.pool.next)) ms
    → IsSafeWorld w
    → IsSafeWorld (record w { workers = put_messages ms w.workers })
put-safe ms w h v = record {
  sound = record {
    server = v.sound.server;
    queue_counted = put_messages-counted ms w.workers v.sound.queue_counted;
  };
  pointed = v.pointed;
  at_work = put-at_work w.server.pool.next ms w.workers h v.at_work;
  listed = v.listed;
}
