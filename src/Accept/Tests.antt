-- ===== src/Accept/Tests.antt =====
-- Accepting a client of net/socket_accept.cxx on a server with two free connection objects.
use my_nignx.Prelude.{◌≡◌, refl, arith, true, [], ◌∷◌, some, pos}
use my_nignx.Sys.{eagain}
use my_nignx.Pool.{new_connection, get_connection_item}
use my_nignx.Accept.{accepted, failed, Calls, Server, event_accept_handler}
use my_nignx.Accept.Invariant.{IsSound, event_accept_handler-IsSound}
use my_nignx.Accept.Admit.{IsReady, event_accept_handler_admits}

abbrev server : Server
server = record {
  pool = record {
    conn = λ c. new_connection;
    next = 2;
    connection_list = 0 ∷ 1 ∷ [];
    free_list = 0 ∷ 1 ∷ [];
    total_count = 2;
    free_count = 2;
    online_count = pos 0;
    recy_list = [];
    recy_count = 0;
    delay_time = 60;
  };
  timer = record { map = []; size = 0; value = 0; waittime = 20 };
  worker_connections = 10;
  time_enable = true;
  use_accept4 = true;
}

abbrev all_well : Calls
all_well = record {
  nonblocking = true;
  registers = true;
  closes = true;
  now = 500;
  listenitem = some 0;
}

server-IsSound : IsSound server
server-IsSound = record {
  tidy = record {
    listed = λ c. ground arith;
    once = λ c. ground arith;
    closed = λ c h. refl;
    free_counted = refl;
    recy_counted = refl;
  };
  timed = record { ordered = tt; counted = refl; first = λ h. absurd (omega arith) };
  bounded = refl;
}

event_accept_handler_admits_sample :
    (s' : Server) × (event_accept_handler all_well (accepted 9) (failed eagain) server ≡ some s')
    × IsReady 9 (s'.pool.conn 0)
    × (s'.pool.online_count ≡ pos 1)
unfolding get_connection_item
event_accept_handler_admits_sample =
    event_accept_handler_admits all_well 9 (failed eagain) server refl refl refl

abbrev one_client : Server
one_client = (event_accept_handler_admits all_well 9 (failed eagain) server refl refl refl).0

event_accept_handler-IsSound_sample : IsSound one_client
event_accept_handler-IsSound_sample =
    event_accept_handler-IsSound all_well (accepted 9) (failed eagain) server one_client
      server-IsSound
      (event_accept_handler_admits all_well 9 (failed eagain) server refl refl refl).1
