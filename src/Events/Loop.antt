-- ===== src/Events/Loop.antt =====
-- The event loop keeps the state sound: one event, one call of `epoll_wait`.
use my_nignx.Prelude.{
  All, bind-All, ℕ, ◌+◌, ◌<◌, ◌≡◌, refl, Bool, List, [], ◌∷◌, Option, none, some, arith, Bool-cases,
  inl, inr, ℤ, pos, decr,
}
use my_nignx.Conn.{Connection, Handler, unset, accept_handler, readable_handler, writable_handler}
use my_nignx.Recv.{event_readable_request_handler}
use my_nignx.Send.{event_writable_request_handler}
use my_nignx.Events.{
  World, Polled, has, received, run_rhandler, sending, run_whandler, fewer_throws, read_event,
  write_event, dispatch, process_events, WaitCall, reported, timed_out, failed, returning,
  epoll_process_events,
}
use my_nignx.Epoll.{epollout, epollin, epollrdhup, epollerr, epollhup}
use my_nignx.Events.Kept.{SameHandled, readable_handler-Same, writable_handler-fd}
use my_nignx.Events.Invariant.{
  IsSoundWorld, Safe, AllKnown, same_fd-IsSound, close_client-Safe, received-Safe, accepted-Safe,
  sent_by-Safe,
}

run_rhandler-Safe :
    (n : ℕ) (h : Handler) (ev : Polled) (c : ℕ) (w : World)
    → c < n
    → Safe n w
    → All (Safe n) (run_rhandler h ev c w)
run_rhandler-Safe n unset ev c w made v = tt
run_rhandler-Safe n accept_handler ev c w made v = accepted-Safe n ev w v
run_rhandler-Safe n readable_handler ev c w made v =
    let k = w.server.pool.conn c in
    bind-All (SameHandled k.fd) (Safe n) (event_readable_request_handler c k ev.recv)
      (received ev.calls c w) (readable_handler-Same c k ev.recv)
      (λ h same. received-Safe n ev.calls c w h made v same)
run_rhandler-Safe n writable_handler ev c w made v = tt

read_event-Safe :
    (n : ℕ) (ev : Polled) (c : ℕ) (w : World) → c < n → Safe n w → All (Safe n) (read_event ev c w)
unfolding read_event
read_event-Safe n ev c w made v = elim (Bool-cases (has ev.events epollin)) [
  | inl readable ↦ rw readable (run_rhandler-Safe n (w.server.pool.conn c).rhandler ev c w made v)
  | inr quiet ↦ rw quiet v
]

run_whandler-Safe :
    (n : ℕ) (h : Handler) (ev : Polled) (c : ℕ) (w : World)
    → Safe n w
    → All (Safe n) (run_whandler h ev c w)
run_whandler-Safe n unset ev c w v = tt
run_whandler-Safe n accept_handler ev c w v = tt
run_whandler-Safe n readable_handler ev c w v = tt
run_whandler-Safe n writable_handler ev c w v =
    sent_by-Safe n (event_writable_request_handler ev.send c (sending w)) w
      (λ d. writable_handler-fd ev.send c d (sending w)) v

write_event-Safe :
    (n : ℕ) (ev : Polled) (c : ℕ) (w : World) → c < n → Safe n w → All (Safe n) (write_event ev c w)
unfolding write_event
write_event-Safe n ev c w made v = elim (Bool-cases (has ev.events epollout)) [
  | inl writable ↦ elim (Bool-cases (has ev.events (epollrdhup + epollerr + epollhup))) [
    | inl broken ↦
        let k = w.server.pool.conn c in
        let k' : Connection = record k { throwsend_count = decr k.throwsend_count } in
        let v' : Safe n (fewer_throws c w) = (
          record {
            server = same_fd-IsSound c k' w.server refl v.0.server;
            queue_counted = v.0.queue_counted;
          },
          v.1,
        ) in
        rw (writable, broken) (close_client-Safe n ev.calls c (fewer_throws c w) made v')
    | inr fine ↦ rw (writable, fine) (run_whandler-Safe n (w.server.pool.conn c).whandler ev c w v)
  ]
  | inr quiet ↦ rw quiet v
]

dispatch-Safe :
    (n : ℕ) (c : Option ℕ) (ev : Polled) (w : World)
    → All (λ d. d < n) c
    → Safe n w
    → All (Safe n) (dispatch c ev w)
dispatch-Safe n none ev w known v = v
dispatch-Safe n (some c) ev w known v =
    bind-All (Safe n) (Safe n) (read_event ev c w) (write_event ev c)
      (read_event-Safe n ev c w known v) (λ w' v'. write_event-Safe n ev c w' known v')

process_events-Safe :
    (n : ℕ) (evs : List Polled) (w : World)
    → AllKnown n evs
    → Safe n w
    → All (Safe n) (process_events evs w)
unfolding process_events
process_events-Safe n [] w known v = v
process_events-Safe n (ev ∷ evs) w known v =
    bind-All (Safe n) (Safe n) (dispatch ev.ptr ev w) (process_events evs)
      (dispatch-Safe n ev.ptr ev w known.0 v) (λ w' v'. process_events-Safe n evs w' known.1 v')

abbrev pub KnownCall : ℕ → WaitCall → Type 0
KnownCall n (reported ev evs) = AllKnown n (ev ∷ evs)
KnownCall n timed_out = Unit
KnownCall n (failed e) = Unit

outcome-Safe :
    (n : ℕ) (k : ℤ) (r : Option World)
    → All (Safe n) r
    → All (λ o. IsSoundWorld o.1) (returning k r)
outcome-Safe n k none v = tt
outcome-Safe n k (some w) v = v.0

round-Safe :
    (waits : Bool) (call : WaitCall) (w : World)
    → KnownCall w.server.pool.next call
    → IsSoundWorld w
    → All (λ o. IsSoundWorld o.1) (epoll_process_events waits call w)
unfolding epoll_process_events
round-Safe waits (reported ev evs) w known v =
    outcome-Safe w.server.pool.next (pos 1) (process_events (ev ∷ evs) w)
      (process_events-Safe w.server.pool.next (ev ∷ evs) w known (v, omega arith))
round-Safe waits timed_out w known v = v
round-Safe waits (failed e) w known v = v

-- Whatever `epoll_wait` reports, for connection objects of the pool, and whatever the system calls
-- of the handlers return: if the process goes on, then after the round the pool, the timer, the
-- number of clients and the counter of the message queue still satisfy their invariants.
pub epoll_process_events-IsSound :
    (waits : Bool) (call : WaitCall) (k : ℤ) (w w' : World)
    → KnownCall w.server.pool.next call
    → IsSoundWorld w
    → epoll_process_events waits call w ≡ some (k, w')
    → IsSoundWorld w'
epoll_process_events-IsSound waits call k w w' known v e = rw e at (round-Safe waits call w known v)
