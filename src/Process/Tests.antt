-- ===== src/Process/Tests.antt =====
-- A worker process from its start to its first client, a walk of the send thread, and a login.
use my_nignx.Prelude.{
  ℕ, ◌≡◌, refl, ◌++◌, ◌≢◌, List, Option, arith, inr, true, false, [], ◌∷◌, none, some, ℤ, pos,
  replicate,
}
use my_nignx.Sys.{eagain}
use my_nignx.Conn.{
  Message, MsgHeader, get_one_to_use, put_to_state_mach, judge_outdate, through_int,
}
use my_nignx.Crc.{get_crc}
use my_nignx.Epoll.{epollin, epoll_oper_event}
use my_nignx.Recv.{got}
use my_nignx.Pool.{Pool, new_connection, get_connection_item, init_loop, connectpool_init}
use my_nignx.Pool.Lifetime.{IsBlank}
use my_nignx.Send.{took, again, send_pass}
use my_nignx.Send.Wire.{packet}
use my_nignx.Timer.{add_to_timer_queue, insert}
use my_nignx.Timer.Lifetime.{empty_timer}
use my_nignx.Logic.{cmd_login, make_reply, is_crc_right}
use my_nignx.Accept.{accepted, failed, Server, event_accept_handler}
use my_nignx.Workers.{new_thread, before_lock, past_loop}
use my_nignx.Events.{
  World, Polled, reported, process_events, read_event, write_event, epoll_process_events,
}
use my_nignx.Events.Start.{epoll_event_init, listen_loop}
use my_nignx.Process.{Process, in_sem_wait, walks_on, polls, started, Reached, begins, moves}
use my_nignx.Process.Upkeep.{IsSafe}
use my_nignx.Process.Safety.{Reached-IsSafe}
use my_nignx.Process.Runs.{Moves, awake, after_pass, send_pass-Moves}
use my_nignx.Process.Answer.{IsReady, IsRequest, reply_to, request_gets_reply}

abbrev no_pool : Pool
no_pool = record {
  conn = λ c. new_connection;
  next = 0;
  connection_list = [];
  free_list = [];
  total_count = 0;
  free_count = 0;
  online_count = pos 0;
  recy_list = [];
  recy_count = 0;
  delay_time = 60;
}

no_pool-IsBlank : IsBlank no_pool
no_pool-IsBlank = record {
  none_made = refl;
  none_listed = refl;
  none_free = refl;
  none_queued = refl;
  queue_counted = refl;
}

abbrev server : Server
server = record {
  pool = no_pool;
  timer = empty_timer 20;
  worker_connections = 10;
  time_enable = true;
  use_accept4 = true;
}

abbrev first_pool : Option (List ℕ × Pool) → Pool
first_pool none = no_pool
first_pool (some r) = r.1

abbrev listening : Pool
unfolding epoll_event_init connectpool_init init_loop listen_loop get_connection_item
    epoll_oper_event
listening = first_pool (epoll_event_init true (λ i. true) 2 (6 ∷ []) no_pool)

abbrev begun : Process
begun = started 4 20 listening server

begun-Reached : Reached begun
unfolding epoll_event_init connectpool_init init_loop listen_loop get_connection_item
    epoll_oper_event
begun-Reached =
    begins (λ i. true) 2 4 20 (6 ∷ []) (0 ∷ []) no_pool listening server no_pool-IsBlank refl refl

-- A client of the listening socket, whose object is the first of the pool.
abbrev arrival : Polled
arrival = record {
  ptr = some 0;
  events = epollin;
  recv = got [];
  send = again;
  first_accept = accepted 9;
  second_accept = failed eagain;
  calls = record {
    nonblocking = true;
    registers = true;
    closes = true;
    now = 500;
    listenitem = some 0;
  };
}

abbrev world_of : Option (ℤ × World) → World
world_of none = begun.world
world_of (some (k, w)) = w

abbrev with_client : Process
unfolding epoll_event_init connectpool_init init_loop listen_loop get_connection_item
    epoll_oper_event epoll_process_events process_events read_event write_event event_accept_handler
    get_one_to_use put_to_state_mach add_to_timer_queue insert
with_client = record begun {
  world = world_of (epoll_process_events true (reported arrival []) begun.world);
}

with_client-Reached : Reached with_client
unfolding epoll_event_init connectpool_init init_loop listen_loop get_connection_item
    epoll_oper_event epoll_process_events process_events read_event write_event event_accept_handler
    get_one_to_use put_to_state_mach add_to_timer_queue insert
with_client-Reached =
    moves begun with_client begun-Reached
      (polls (reported arrival []) (pos 1) with_client.world (omega arith, tt) refl)

one_client : with_client.world.server.pool.online_count ≡ pos 1
unfolding epoll_event_init connectpool_init init_loop listen_loop get_connection_item
    epoll_oper_event epoll_process_events process_events read_event write_event event_accept_handler
    get_one_to_use put_to_state_mach add_to_timer_queue insert
one_client = refl

Reached-IsSafe_example : IsSafe with_client
Reached-IsSafe_example = Reached-IsSafe with_client with_client-Reached

-- A login of the connection 4, taken from the queue, and its reply.
abbrev stamp : MsgHeader
stamp = record { lp_curconn = 4; msg_cursequence = 1 }

abbrev login_message : Message
login_message = make_reply cmd_login 96 (get_crc (replicate 96 0)) stamp

abbrev with_login : Process
with_login = record {
  world = record {
    server = record server {
      pool = record no_pool { conn = λ k. record new_connection { fd = pos 9; sequence = 1 } };
    };
    sender = record {
      conn = λ c. new_connection;
      msg_list = [];
      msgtosend_count = pos 0;
      sendsem = 0;
      locked = false;
      wire = λ c. [];
    };
    workers = record {
      msgqueue = some login_message ∷ [];
      msgqueue_size = 1;
      running_thread = pos 0;
      create_thread = 4;
      shutdown = false;
      threads = λ i. new_thread;
    };
  };
  send_place = in_sem_wait;
  to_exam = [];
}

waiting-ne : before_lock ≢ past_loop
waiting-ne = λ e. cc

login-IsReady : IsReady 2 login_message [] with_login
unfolding judge_outdate through_int make_reply
login-IsReady = record {
  made = omega arith;
  idle = refl;
  on = waiting-ne;
  not_told = refl;
  first = refl;
  waits = refl;
  free = refl;
  none_waiting = refl;
  none_counted = refl;
  not_busy = refl;
  few = refl;
  fresh = refl;
}

login-IsRequest : IsRequest cmd_login 96 login_message
unfolding is_crc_right get_crc make_reply
login-IsRequest = record { which = inr (refl, refl); right = refl; is_code = refl; len = refl }

request_gets_reply_example :
    (p' : Process) × Moves with_login p'
    × (p'.world.sender.wire 4
        ≡ with_login.world.sender.wire 4 ++ packet (reply_to cmd_login 96 login_message))
    × (p'.world.workers.msgqueue ≡ [])
    × (p'.world.sender.msg_list ≡ [])
    × (p'.world.sender.locked ≡ false)
    × (p'.send_place ≡ in_sem_wait)
unfolding make_reply
request_gets_reply_example =
    request_gets_reply 50 cmd_login 96 200 2 login_message [] with_login login-IsReady
      login-IsRequest (omega arith)

abbrev with_message : Process
with_message = record with_login {
  world = record with_login.world {
    sender = record with_login.world.sender {
      msg_list = login_message ∷ [];
      msgtosend_count = pos 1;
      sendsem = 1;
    };
  };
}

send_pass-Moves_sample :
    let r = send_pass (λ i. took 50) (awake 0 with_message) in
    Moves with_message (walks_on (after_pass r.0, r.1) with_message)
send_pass-Moves_sample = send_pass-Moves (λ i. took 50) 0 with_message refl refl refl refl
