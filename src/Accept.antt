-- ===== src/Accept.antt =====
-- Accepting a client: net/socket_accept.cxx, over the pool, epoll and the timer.
pub mod Invariant
pub mod Admit
mod Tests
use my_nignx.Prelude.{
  ℕ, ◌+◌, ◌*◌, Bool, true, false, not, ◌&&◌, ◌||◌, Option, none, some, length, ltb, if◌then◌else◌,
  ℤ, pos, negsuc, incr, leb_ℤ,
}
use my_nignx.Sys.{Errno, no_errno, eagain, eintr, econnreset, enosys, echild, other_errno}
use my_nignx.Conn.{Connection, readable_handler, writable_handler, get_one_to_use}
use my_nignx.Epoll.{epoll_oper_event, ctl_add, bc_set, epollin, epollrdhup}
use my_nignx.Pool.{Pool, set_conn, get_connection_item, close_connection, exits}
use my_nignx.Timer.{Timer, add_to_timer_queue}

-- What `accept4` or `accept` does: a new descriptor, or a failure.
pub data AcceptCall : Type 0 where
  accepted : ℕ → AcceptCall
  failed : Errno → AcceptCall

-- What the other system calls return: whether the descriptor can be made non-blocking, whether
-- `epoll_ctl` and `close` succeed, and the time. `listenitem` is that of the listening connection.
pub record Calls : Type 0 where
  pub nonblocking : Bool
  pub registers : Bool
  pub closes : Bool
  pub now : ℕ
  pub listenitem : Option ℕ

pub record Server : Type 0 where
  pub pool : Pool
  pub timer : Timer
  pub worker_connections : ℕ
  pub time_enable : Bool
  pub use_accept4 : Bool

-- The descriptor is closed again: too many clients, or too many objects and too few free ones.
abbrev pub is_full : Server → Bool
is_full s =
    leb_ℤ (pos s.worker_connections) s.pool.online_count
    || (ltb (s.worker_connections * 5) (length s.pool.connection_list)
        && ltb (length s.pool.free_list) s.worker_connections)

abbrev pub set_up : Calls → ℕ → Connection → Connection
set_up e fd k = record (get_one_to_use e.now k) {
  fd = pos fd;
  listenitem = e.listenitem;
  rhandler = readable_handler;
  whandler = writable_handler;
}

-- A registered client: it goes into the timer, if that is on, and counts.
abbrev pub count_client : Server → Server
count_client s = record s { pool = record s.pool { online_count = incr s.pool.online_count } }

abbrev pub with_both : Server → Timer × Pool → Server
with_both s (t, p) = record s { timer = t; pool = p }

abbrev pub register_client : Calls → ℕ → Server → Server
register_client e c s =
    count_client
      (if s.time_enable then with_both s (add_to_timer_queue e.now c s.timer s.pool) else s)

abbrev pub with_pool : Server → Option Pool → Option Server
with_pool s none = none
with_pool s (some p) = some (record s { pool = p })

abbrev pub admit : Calls → ℕ → ℕ → Server → Option Server
admit e fd c s =
    let k = set_up e fd (s.pool.conn c) in
    if not s.use_accept4 && not e.nonblocking
    then exits
    else (if e.registers
        then some (
            register_client e c (record s {
              pool = set_conn c (epoll_oper_event ctl_add (epollin + epollrdhup) bc_set k) s.pool;
            }))
        else with_pool s (
            close_connection e.closes c
              (set_conn c (epoll_oper_event ctl_add (epollin + epollrdhup) bc_set k) s.pool)))

abbrev pub take_client : Calls → AcceptCall → Server → Option Server
take_client e (failed _) s = some s
take_client e (accepted fd) s =
    if is_full s
    then some s
    else (let r = get_connection_item s.pool in admit e fd r.0 (record s { pool = r.1 }))

abbrev pub is_enosys : AcceptCall → Bool
is_enosys (accepted fd) = false
is_enosys (failed enosys) = true
is_enosys (failed _) = false

-- A first call that the system does not know is made again as `accept`. `none` ends the process.
unfoldable pub event_accept_handler : Calls → AcceptCall → AcceptCall → Server → Option Server
unfolding epoll_oper_event
event_accept_handler e first second s =
    if s.use_accept4 && is_enosys first
    then take_client e second (record s { use_accept4 = false })
    else take_client e first s
