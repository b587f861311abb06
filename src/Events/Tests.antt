-- ===== src/Events/Tests.antt =====
-- One round of the event loop: a listening socket, then a new client whose descriptor breaks.
use my_nignx.Prelude.{
  ◌>>=◌, ◌≡◌, refl, ℕ, zero, suc, List, Option, arith, true, false, [], ◌∷◌, none, some, ℤ, pos,
  update, length,
}
use my_nignx.Sys.{eagain}
use my_nignx.Conn.{Connection, accept_handler, get_one_to_use, put_to_state_mach}
use my_nignx.Recv.{
  got, event_readable_request_handler, recvproc, pkg_header_recv, pkg_header_proc, pkg_body_proc,
}
use my_nignx.Pool.{Pool, new_connection, get_connection_item}
use my_nignx.Send.{again}
use my_nignx.Accept.{accepted, failed, Calls, Server, event_accept_handler}
use my_nignx.Workers.{new_thread, in_msg_recv}
use my_nignx.Epoll.{epollin, epoll_oper_event}
use my_nignx.Timer.{add_to_timer_queue, insert}
use my_nignx.Events.{
  World, Polled, received, WaitCall, reported, process_events, read_event, write_event,
  epoll_process_events,
}
use my_nignx.Recv.Framing.{AllPackets, concat}
use my_nignx.Recv.State.{messages}
use my_nignx.Recv.Stream.{Event, ready, interrupted, serve}
use my_nignx.Accept.Admit.{IsReady}
use my_nignx.Events.Client.{accepted_client_serves}
use my_nignx.Events.Start.{Serves, epoll_event_init, epoll_event_init-Serves}
use my_nignx.Pool.Invariant.{IsTidy}
use my_nignx.Events.Invariant.{IsSoundWorld}
use my_nignx.Events.Loop.{epoll_process_events-IsSound}

abbrev calls : Calls
calls = record {
  nonblocking = true;
  registers = true;
  closes = true;
  now = 500;
  listenitem = some 0;
}

abbrev world : World
world = record {
  server = record {
    pool = record {
      conn =
          update (λ c. new_connection) 0
            (record new_connection { fd = pos 6; rhandler = accept_handler });
      next = 2;
      connection_list = 0 ∷ 1 ∷ [];
      free_list = 1 ∷ [];
      total_count = 2;
      free_count = 1;
      online_count = pos 0;
      recy_list = [];
      recy_count = 0;
      delay_time = 60;
    };
    timer = record { map = []; size = 0; value = 0; waittime = 20 };
    worker_connections = 10;
    time_enable = true;
    use_accept4 = true;
  };
  sender = record {
    conn = λ c. new_connection;
    msg_list = [];
    msgtosend_count = pos 0;
    sendsem = 0;
    locked = false;
    wire = λ c. [];
  };
  workers = record {
    msgqueue = [];
    msgqueue_size = 0;
    running_thread = pos 0;
    create_thread = 4;
    shutdown = false;
    threads = λ i. new_thread;
  };
}

world-IsSound : IsSoundWorld world
world-IsSound = record {
  server = record {
    tidy = record {
      listed = λ c. ground arith;
      once = λ c. ground arith;
      closed = λ c h. ground arith;
      free_counted = refl;
      recy_counted = refl;
    };
    timed = record { ordered = tt; counted = refl; first = λ h. absurd (omega arith) };
    bounded = refl;
  };
  queue_counted = refl;
}

-- The listening socket has a new client; then a packet header of eight bytes is there for it.
abbrev arrival : Polled
arrival = record {
  ptr = some 0;
  events = epollin;
  recv = got [];
  send = again;
  first_accept = accepted 9;
  second_accept = failed eagain;
  calls = calls;
}

abbrev ping : Polled
ping = record arrival { ptr = some 1; recv = got (0 ∷ 8 ∷ 0 ∷ 0 ∷ 0 ∷ 0 ∷ 0 ∷ 0 ∷ []) }

abbrev round : WaitCall
round = reported arrival (ping ∷ [])

abbrev world_of : Option (ℤ × World) → World
world_of none = world
world_of (some (k, w)) = w

abbrev next_world : World
unfolding epoll_process_events process_events read_event write_event event_accept_handler
    get_connection_item get_one_to_use put_to_state_mach epoll_oper_event add_to_timer_queue
    event_readable_request_handler recvproc pkg_header_recv pkg_header_proc pkg_body_proc
    in_msg_recv insert
next_world = world_of (epoll_process_events true round world)

epoll_process_events-IsSound_sample : IsSoundWorld next_world
unfolding epoll_process_events process_events read_event write_event event_accept_handler
    get_connection_item get_one_to_use put_to_state_mach epoll_oper_event add_to_timer_queue
    event_readable_request_handler recvproc pkg_header_recv pkg_header_proc pkg_body_proc
    in_msg_recv insert
epoll_process_events-IsSound_sample =
    epoll_process_events-IsSound true round (pos 1) world next_world
      (omega arith, (omega arith, tt)) world-IsSound refl

queued : length next_world.workers.msgqueue ≡ 1
unfolding epoll_process_events process_events read_event write_event event_accept_handler
    get_connection_item get_one_to_use put_to_state_mach epoll_oper_event add_to_timer_queue
    event_readable_request_handler recvproc pkg_header_recv pkg_header_proc pkg_body_proc
    in_msg_recv insert
queued = refl

abbrev no_pool : Pool
no_pool = record world.server.pool {
  conn = λ c. new_connection;
  next = 0;
  connection_list = [];
  free_list = [];
}

epoll_event_init-Serves_example :
    (cs : List ℕ) × (q : Pool) × (epoll_event_init true (λ i. true) 1 (6 ∷ 7 ∷ []) no_pool
      ≡ some (cs, q))
    × IsTidy q
    × Serves q 0 (6 ∷ 7 ∷ []) cs
epoll_event_init-Serves_example =
    epoll_event_init-Serves (λ i. true) 1 (6 ∷ 7 ∷ []) no_pool (λ i. refl)
      (record {
        none_made = refl;
        none_listed = refl;
        none_free = refl;
        none_queued = refl;
        queue_counted = refl;
      })

-- A new client sends two packets, of which up to three bytes are there at a time.
abbrev packets : List (List ℕ)
packets = (0 ∷ 8 ∷ 0 ∷ 1 ∷ 0 ∷ 0 ∷ 0 ∷ 0 ∷ []) ∷ (0 ∷ 9 ∷ 0 ∷ 6 ∷ 1 ∷ 2 ∷ 3 ∷ 4 ∷ 65 ∷ []) ∷ []

packets-AllPackets : AllPackets packets
packets-AllPackets = (
  record { long_enough = omega arith; short_enough = omega arith; says = refl },
  (record { long_enough = omega arith; short_enough = omega arith; says = refl }, tt),
)

abbrev small_reads : ℕ → List Event
small_reads zero = interrupted ∷ []
small_reads (suc n) = ready 2 ∷ small_reads n

accepted_client_serves_example :
    (s' : Server) × (after : Connection) × (event_accept_handler calls
        (accepted 9)
        (failed eagain)
        world.server
      ≡ some s')
    × (s'.pool.online_count ≡ pos 1)
    × IsReady 9 (s'.pool.conn 1)
    × (read_event ping 1 (record world { server = s' }) ≡ (
        event_readable_request_handler 1 (s'.pool.conn 1) ping.recv
        >>= received calls 1 (record world { server = s' })))
    × (serve 1 (s'.pool.conn 1) (small_reads 17) (concat packets)
        ≡ some (record { conn = after; queued = messages 1 (s'.pool.conn 1) packets; unread = [] }))
unfolding get_connection_item
accepted_client_serves_example =
    accepted_client_serves calls 9 (failed eagain) world.server world ping packets (small_reads 17)
      refl refl refl refl packets-AllPackets (omega arith)
