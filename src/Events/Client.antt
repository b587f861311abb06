-- ===== src/Events/Client.antt =====
-- From the accepting of a client to its messages in the queue.
use my_nignx.Prelude.{◌>>=◌, ℕ, ◌≤◌, ◌≡◌, refl, ap, ◌∙◌, true, false, List, [], some, length, incr}
use my_nignx.Conn.{Connection}
use my_nignx.Epoll.{epollin}
use my_nignx.Recv.{event_readable_request_handler}
use my_nignx.Recv.Framing.{AllPackets, concat}
use my_nignx.Recv.Stream.{Event, readies, serve, serve-packets}
use my_nignx.Recv.State.{messages}
use my_nignx.Pool.{get_connection_item}
use my_nignx.Accept.{AcceptCall, accepted, Calls, Server, is_full, event_accept_handler}
use my_nignx.Accept.Admit.{IsReady, event_accept_handler_admits}
use my_nignx.Events.{World, Polled, has, received, run_rhandler, read_event}

reads_lem :
    (ev : Polled) (c fd : ℕ) (w : World)
    → IsReady fd (w.server.pool.conn c)
    → has ev.events epollin ≡ true
    → read_event ev c w
      ≡ (event_readable_request_handler c (w.server.pool.conn c) ev.recv >>= received ev.calls c w)
reads_lem ev c fd w v on = runs ∙ ap (λ h. run_rhandler h ev c w) v.reads
  where
    runs : read_event ev c w ≡ run_rhandler (w.server.pool.conn c).rhandler ev c w
    runs = unfold read_event in (rw on refl)

-- When a descriptor is accepted at the first call, the server is not full and the descriptor can be
-- registered: there is one client more, and the connection object taken for it has the descriptor, is
-- watched for input and has the handlers of a client. The event loop gives its next readable event to
-- the receiving machine; and packets sent one after the other are queued by that machine as they were
-- sent, whatever the sizes of the reads, once there were as many readable events as bytes.
pub accepted_client_serves :
    (e : Calls) (fd : ℕ) (second : AcceptCall) (s : Server) (w : World) (ev : Polled)
    (ps : List (List ℕ)) (es : List Event)
    → s.use_accept4 ≡ true
    → e.registers ≡ true
    → is_full s ≡ false
    → has ev.events epollin ≡ true
    → AllPackets ps
    → length (concat ps) ≤ readies es
    → let c = (get_connection_item s.pool).0 in
      (s' : Server) × (after : Connection) × (event_accept_handler e (accepted fd) second s
        ≡ some s')
      × (s'.pool.online_count ≡ incr s.pool.online_count)
      × IsReady fd (s'.pool.conn c)
      × (read_event ev c (record w { server = s' }) ≡ (
          event_readable_request_handler c (s'.pool.conn c) ev.recv
          >>= received ev.calls c (record w { server = s' })))
      × (serve c (s'.pool.conn c) es (concat ps)
          ≡ some (record { conn = after; queued = messages c (s'.pool.conn c) ps; unread = [] }))
accepted_client_serves e fd second s w ev ps es four reg room on v enough =
    let c = (get_connection_item s.pool).0 in
    let (s', runs, ready, more) = event_accept_handler_admits e fd second s four reg room in
    let p = serve-packets c (s'.pool.conn c) ps es ready.in_state v enough in
    (s', p.0, runs, more, ready, reads_lem ev c fd (record w { server = s' }) ready on, p.1)
