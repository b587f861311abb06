-- ===== src/Events.antt =====
-- The event loop of a worker process, `epoll_process_events` of net/c_socket.cxx: what epoll reports
-- goes to the handlers of Recv, Send and Accept, over one set of connection objects. A result
-- `none` ends the process, by `exit` or by undefined behaviour.
pub mod Kept
pub mod Next
pub mod Start
pub mod Invariant
pub mod Loop
pub mod Client
mod Tests
use Prim.Native.Nat.{bit_and}
use my_nignx.Prelude.{
  ◌>>=◌, ℕ, ◌+◌, Bool, true, false, List, [], ◌∷◌, Option, none, some, ◌==◌, if◌then◌else◌, ℤ, pos,
  negsuc, decr,
}
use my_nignx.Sys.{Errno, eintr}
use my_nignx.Conn.{
  Connection, Message, Handler, unset, accept_handler, readable_handler, writable_handler,
}
use my_nignx.Epoll.{epollin, epollout, epollerr, epollhup, epollrdhup}
use my_nignx.Recv.{RecvCall, Handled, event_readable_request_handler}
use my_nignx.Pool.{Pool, set_conn, close_accepted_connection}
use my_nignx.Send.{Sender, SendOutcome, event_writable_request_handler}
use my_nignx.Accept.{AcceptCall, Calls, Server, with_pool, event_accept_handler}
use my_nignx.Workers.{ThreadPool, in_msg_recv}

-- The connection objects are those of `server.pool`; `sender` holds them only while it is at work.
pub record World : Type 0 where
  pub server : Server
  pub sender : Sender
  pub workers : ThreadPool

-- One entry of `m_events`, and what the system calls of its handlers return.
pub record Polled : Type 0 where
  pub ptr : Option ℕ
  pub events : ℕ
  pub recv : RecvCall
  pub send : SendOutcome
  pub first_accept : AcceptCall
  pub second_accept : AcceptCall
  pub calls : Calls

abbrev pub has : ℕ → ℕ → Bool
has events mask = if bit_and events mask == 0 then false else true

abbrev pub with_server : World → Option Server → Option World
with_server w none = none
with_server w (some s) = some (record w { server = s })

abbrev pub close_client : Calls → ℕ → World → Option World
close_client e c w =
    with_server w
      (with_pool w.server (close_accepted_connection e.closes e.now false c w.server.pool))

-- The messages that the receiving machine gives to the thread pool.
abbrev pub put_messages : List (Option Message) → ThreadPool → ThreadPool
put_messages [] p = p
put_messages (m ∷ ms) p = put_messages ms (in_msg_recv m p)

abbrev pub received : Calls → ℕ → World → Handled → Option World
received e c w h =
    let w' : World = record w {
      server = record w.server { pool = set_conn c h.conn w.server.pool };
      workers = put_messages h.queued w.workers;
    } in
    if h.closes then close_client e c w' else some w'

-- `(this->*(p_conn->rhandler))(p_conn)`.
abbrev pub run_rhandler : Handler → Polled → ℕ → World → Option World
run_rhandler unset ev c w = none
run_rhandler accept_handler ev c w =
    with_server w (event_accept_handler ev.calls ev.first_accept ev.second_accept w.server)
run_rhandler readable_handler ev c w = do
  h ← event_readable_request_handler c (w.server.pool.conn c) ev.recv
  received ev.calls c w h
run_rhandler writable_handler ev c w = none

abbrev pub sending : World → Sender
sending w = record w.sender { conn = w.server.pool.conn }

abbrev pub sent_by : Sender → World → World
sent_by s w = record w {
  sender = s;
  server = record w.server { pool = record w.server.pool { conn = s.conn } };
}

abbrev pub run_whandler : Handler → Polled → ℕ → World → Option World
run_whandler writable_handler ev c w =
    some (sent_by (event_writable_request_handler ev.send c (sending w)) w)
run_whandler unset ev c w = none
run_whandler accept_handler ev c w = none
run_whandler readable_handler ev c w = none

-- `--p_conn->iThrowsendCount`, before a broken connection is closed.
abbrev pub fewer_throws : ℕ → World → World
fewer_throws c w =
    let k = w.server.pool.conn c in
    record w {
      server = record w.server {
        pool = set_conn c (record k { throwsend_count = decr k.throwsend_count }) w.server.pool;
      };
    }

unfoldable pub read_event : Polled → ℕ → World → Option World
read_event ev c w =
    if has ev.events epollin then run_rhandler (w.server.pool.conn c).rhandler ev c w else some w

unfoldable pub write_event : Polled → ℕ → World → Option World
write_event ev c w =
    if has ev.events epollout
    then (if has ev.events (epollrdhup + epollerr + epollhup)
        then close_client ev.calls c (fewer_throws c w)
        else run_whandler (w.server.pool.conn c).whandler ev c w)
    else some w

abbrev pub dispatch : Option ℕ → Polled → World → Option World
dispatch none ev w = some w
dispatch (some c) ev w = do w' ← read_event ev c w; write_event ev c w'

-- The loop over `m_events`.
unfoldable pub process_events : List Polled → World → Option World
process_events [] w = some w
process_events (ev ∷ evs) w = do w' ← dispatch ev.ptr ev w; process_events evs w'

-- What `epoll_wait` returns.
pub data WaitCall : Type 0 where
  reported : Polled → List Polled → WaitCall
  timed_out : WaitCall
  failed : Errno → WaitCall

abbrev pub returning : ℤ → Option World → Option (ℤ × World)
returning n none = none
returning n (some w) = some (n, w)

abbrev wait_error : Errno → ℤ
wait_error eintr = pos 0
wait_error _ = negsuc 0

-- `waits` says that the argument `timer` is -1.
unfoldable pub epoll_process_events : Bool → WaitCall → World → Option (ℤ × World)
epoll_process_events waits (failed e) w = some (wait_error e, w)
epoll_process_events waits timed_out w = some (if waits then negsuc 0 else pos 0, w)
epoll_process_events waits (reported ev evs) w = returning (pos 1) (process_events (ev ∷ evs) w)
