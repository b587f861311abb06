-- ===== src/Process/Polling.antt =====
-- The event loop keeps the state of a worker process safe.
use my_nignx.Prelude.{
  All, bind-All, both-All, ℕ, ◌+◌, ◌<◌, refl, Bool, List, [], ◌∷◌, Option, none, some, arith,
  Bool-cases, inl, inr, ℤ, pos, decr,
}
use my_nignx.Conn.{Connection, Handler, unset, accept_handler, readable_handler, writable_handler}
use my_nignx.Epoll.{epollout, epollin, epollrdhup, epollerr, epollhup}
use my_nignx.Recv.{Handled, event_readable_request_handler}
use my_nignx.Pool.{set_conn}
use my_nignx.Send.{event_writable_request_handler}
use my_nignx.Accept.{Calls}
use my_nignx.Events.{
  World, Polled, has, put_messages, received, run_rhandler, sending, run_whandler, fewer_throws,
  read_event, write_event, dispatch, process_events, WaitCall, reported, timed_out, failed,
  returning, epoll_process_events,
}
use my_nignx.Events.Kept.{SameHandled, readable_handler-Same}
use my_nignx.Events.Invariant.{AllKnown}
use my_nignx.Events.Loop.{KnownCall}
use my_nignx.Process.Receiving.{QueuesIn, readable_handler-Queues}
use my_nignx.Process.Sending.{writable_handler-Leaves, msg_list-writable}
use my_nignx.Process.Worlds.{
  Good, IsSafeWorld, close_client-Good, accepted-Good, conn-safe, sent_by-safe, put-safe,
}

module _ (m : ℕ) where
  received-Good :
      (e : Calls) (c : ℕ) (w : World) (h : Handled)
      → c < m
      → Good m w
      → SameHandled (w.server.pool.conn c).fd h × QueuesIn w.server.pool.next h
      → All (Good m) (received e c w h)
  received-Good e c w h made v q =
      let w' : World = record w {
        server = record w.server { pool = set_conn c h.conn w.server.pool };
      } in
      let v' = put-safe h.queued w' q.1.1 (conn-safe c h.conn w q.0 q.1.0 v.0) in
      let w'' : World = record w' { workers = put_messages h.queued w.workers } in
      elim (Bool-cases h.closes) [
        | inl shuts ↦ rw shuts (close_client-Good m e c w'' made (v', v.1))
        | inr stays ↦ rw stays (v', v.1)
      ]

  run_rhandler-Good :
      (h : Handler) (ev : Polled) (c : ℕ) (w : World)
      → c < m
      → Good m w
      → All (Good m) (run_rhandler h ev c w)
  run_rhandler-Good unset ev c w made v = tt
  run_rhandler-Good accept_handler ev c w made v = accepted-Good m ev w v
  run_rhandler-Good readable_handler ev c w made v =
      let k = w.server.pool.conn c in
      let n = w.server.pool.next in
      let known : c < n = omega (arith, made, v.1) in
      let r = event_readable_request_handler c k ev.recv in
      bind-All (λ h. SameHandled k.fd h × QueuesIn n h) (Good m) r (received ev.calls c w)
        (both-All (SameHandled k.fd) (QueuesIn n) r (readable_handler-Same c k ev.recv)
          (readable_handler-Queues n c known k ev.recv (v.0.pointed.receives c known)))
        (λ h q. received-Good ev.calls c w h made v q)
  run_rhandler-Good writable_handler ev c w made v = tt

  read_event-Good :
      (ev : Polled) (c : ℕ) (w : World) → c < m → Good m w → All (Good m) (read_event ev c w)
  unfolding read_event
  read_event-Good ev c w made v = elim (Bool-cases (has ev.events epollin)) [
    | inl readable ↦ rw readable (run_rhandler-Good (w.server.pool.conn c).rhandler ev c w made v)
    | inr quiet ↦ rw quiet v
  ]

  run_whandler-Good :
      (h : Handler) (ev : Polled) (c : ℕ) (w : World)
      → Good m w
      → All (Good m) (run_whandler h ev c w)
  run_whandler-Good unset ev c w v = tt
  run_whandler-Good accept_handler ev c w v = tt
  run_whandler-Good readable_handler ev c w v = tt
  run_whandler-Good writable_handler ev c w v = (
    sent_by-safe (event_writable_request_handler ev.send c (sending w)) w
        (writable_handler-Leaves ev.send c (sending w))
        (rw (msg_list-writable ev.send c (sending w)) v.0.listed) v.0,
    v.1,
  )

  write_event-Good :
      (ev : Polled) (c : ℕ) (w : World) → c < m → Good m w → All (Good m) (write_event ev c w)
  unfolding write_event
  write_event-Good ev c w made v = elim (Bool-cases (has ev.events epollout)) [
    | inl writable ↦ elim (Bool-cases (has ev.events (epollrdhup + epollerr + epollhup))) [
      | inl broken ↦
          let k = w.server.pool.conn c in
          let k' : Connection = record k { throwsend_count = decr k.throwsend_count } in
          let known : c < w.server.pool.next = omega (arith, made, v.1) in
          let v' : Good m (fewer_throws c w) =
            (conn-safe c k' w refl (v.0.pointed.receives c known) v.0, v.1) in
          rw (writable, broken) (close_client-Good m ev.calls c (fewer_throws c w) made v')
      | inr fine ↦ rw (writable, fine) (run_whandler-Good (w.server.pool.conn c).whandler ev c w v)
    ]
    | inr quiet ↦ rw quiet v
  ]

  dispatch-Good :
      (c : Option ℕ) (ev : Polled) (w : World)
      → All (λ d. d < m) c
      → Good m w
      → All (Good m) (dispatch c ev w)
  dispatch-Good none ev w known v = v
  dispatch-Good (some c) ev w known v =
      bind-All (Good m) (Good m) (read_event ev c w) (write_event ev c)
        (read_event-Good ev c w known v) (λ w' v'. write_event-Good ev c w' known v')

  process_events-Good :
      (evs : List Polled) (w : World)
      → AllKnown m evs
      → Good m w
      → All (Good m) (process_events evs w)
  unfolding process_events
  process_events-Good [] w known v = v
  process_events-Good (ev ∷ evs) w known v =
      bind-All (Good m) (Good m) (dispatch ev.ptr ev w) (process_events evs)
        (dispatch-Good ev.ptr ev w known.0 v) (λ w' v'. process_events-Good evs w' known.1 v')

  outcome-Good : (k : ℤ) (r : Option World) → All (Good m) r → All (λ o. Good m o.1) (returning k r)
  outcome-Good k none v = tt
  outcome-Good k (some w) v = v

-- One call of `epoll_process_events`, for connections of the pool.
pub polling-Good :
    (waits : Bool) (call : WaitCall) (w : World)
    → KnownCall w.server.pool.next call
    → IsSafeWorld w
    → All (λ o. Good w.server.pool.next o.1) (epoll_process_events waits call w)
unfolding epoll_process_events
polling-Good waits (reported ev evs) w known v =
    outcome-Good w.server.pool.next (pos 1) (process_events (ev ∷ evs) w)
      (process_events-Good w.server.pool.next (ev ∷ evs) w known (v, omega arith))
polling-Good waits timed_out w known v = (v, omega arith)
polling-Good waits (failed e) w known v = (v, omega arith)
