-- ===== src/Listen.antt =====
-- Start of the server in net/c_socket.cxx: the constructor, `ReadConf`, `open_listen_sockets`,
-- `Initialize` and `event_close_listen`. A result `none` is undefined behaviour, of a number in the
-- configuration that is no `int`.
pub mod Reading
pub mod Opening
mod Tests
use my_nignx.Prelude.{
  ◌>>=◌, ℕ, zero, suc, ◌+◌, ◌%◌, ◌^◌, Bool, true, false, not, List, [], ◌∷◌, ◌++◌, Option, none,
  some, length, if◌then◌else◌, ℤ, pos, negsuc, pos_part, neg_part, ltb_ℤ, eqb_ℤ, ltb, leb, ◌==◌,
  ◌-◌, codes,
}
use my_nignx.Text.{int_text}
use my_nignx.Conf.{ConfItem, get_int}

pub record Settings : Type 0 where
  pub worker_connections : ℤ
  pub port_count : ℤ
  pub create_connections_count : ℤ
  pub delay_time : ℤ
  pub time_enable : ℤ
  pub waittime : ℤ

-- The constructor; `m_TimeEnable` keeps what stood in memory.
abbrev pub default_settings : ℤ → Settings
default_settings old = record {
  worker_connections = pos 1000;
  port_count = pos 2;
  create_connections_count = pos 20;
  delay_time = pos 60;
  time_enable = old;
  waittime = pos 10;
}

abbrev pub read_waittime : List ConfItem → Settings → Option Settings
read_waittime items s =
    if eqb_ℤ s.time_enable (pos 1)
    then (do
      n ← get_int items (codes "Sock_MaxWaitTime") s.waittime
      some (record s { waittime = if ltb_ℤ (pos 5) n then n else pos 5 }))
    else some s

unfoldable pub read_conf : List ConfItem → Settings → Option Settings
read_conf items s = do
  worker ← get_int items (codes "worker_connections") s.worker_connections
  ports ← get_int items (codes "ListenPortCount") s.port_count
  connections ← get_int items (codes "ConnectionsToCreate") s.create_connections_count
  delay ← get_int items (codes "Sock_RecyConnectionWaitTime") s.delay_time
  enable ← get_int items (codes "Sock_WaitTimeEnable") (pos 1)
  read_waittime items (record s {
    worker_connections = worker;
    port_count = ports;
    create_connections_count = connections;
    delay_time = delay;
    time_enable = enable;
  })

pub record Listening : Type 0 where
  pub fd : ℕ
  pub port : ℤ

-- What the system calls for one listening socket return: `none` if there is no descriptor, and
-- whether each of the others succeeds.
pub record SocketCalls : Type 0 where
  pub socket : Option ℕ
  pub reuseaddr : Bool
  pub reuseport : Bool
  pub nonblocking : Bool
  pub binds : Bool
  pub listens : Bool

-- `open_fds` are the descriptors of sockets that the process has, the newest first: the program does
-- not see them.
pub record Sockets : Type 0 where
  pub listen_list : List Listening
  pub open_fds : List ℕ

abbrev pub listen_name : ℕ → List ℕ
listen_name i = codes "ListenPort" ++ int_text i

-- `socket` has returned a descriptor.
abbrev pub opened : ℕ → Sockets → Sockets
opened fd s = record s { open_fds = fd ∷ s.open_fds }

abbrev pub erase : ℕ → List ℕ → List ℕ
erase fd [] = []
erase fd (x ∷ xs) = if x == fd then xs else x ∷ erase fd xs

-- `close(isock)` and `return false`.
abbrev pub give_up : ℕ → Sockets → Bool × Sockets
give_up fd s = (false, record s { open_fds = erase fd s.open_fds })

-- `bind`, `listen` and `push_back`.
abbrev pub bind_socket : SocketCalls → ℕ → ℤ → Sockets → Bool × Sockets
bind_socket e fd port s =
    if not e.binds
    then give_up fd s
    else (if not e.listens then give_up fd s else (
      true,
      record s { listen_list = s.listen_list ++ (record { fd = fd; port = port } ∷ []) },
    ))

-- The calls behind the one of `socket`, up to the first that fails.
abbrev pub configure : List ConfItem → ℕ → SocketCalls → ℕ → Sockets → Option (Bool × Sockets)
configure items i e fd s =
    if not e.reuseaddr
    then some (give_up fd s)
    else (if not e.reuseport
        then some (give_up fd s)
        else (if not e.nonblocking then some (give_up fd s) else (do
          port ← get_int items (listen_name i) (pos (9000 + i))
          some (bind_socket e fd port s))))

abbrev pub set_up : List ConfItem → ℕ → SocketCalls → Option ℕ → Sockets → Option (Bool × Sockets)
set_up items i e none s = some (false, s)
set_up items i e (some fd) s = configure items i e fd (opened fd s)

-- After one round of the loop, the rest of it.
abbrev pub go_on :
    Option (Bool × Sockets) → (Sockets → Option (Bool × Sockets)) → Option (Bool × Sockets)
go_on none rest = none
go_on (some (true, s)) rest = rest s
go_on (some (false, s)) rest = some (false, s)

-- The loop for `n` more sockets, the next one being number `i`.
unfoldable pub open_loop :
    List ConfItem → (ℕ → SocketCalls) → ℕ → ℕ → Sockets → Option (Bool × Sockets)
open_loop items calls zero i s = some (true, s)
open_loop items calls (suc n) i s =
    go_on (set_up items i (calls i) (calls i).socket s) (open_loop items calls n (i + 1))

-- No socket at all is a failure.
abbrev pub if_any : Sockets → Option (Bool × Sockets)
if_any s = some (ltb 0 (length s.listen_list), s)

unfoldable pub open_listen_sockets :
    List ConfItem → (ℕ → SocketCalls) → ℤ → Sockets → Option (Bool × Sockets)
unfolding open_loop
open_listen_sockets items calls port_count s =
    go_on (open_loop items calls (pos_part port_count) 0 s) if_any

abbrev pub with_settings : Settings → Option (Bool × Sockets) → Option (Bool × Settings × Sockets)
with_settings c none = none
with_settings c (some (ok, s)) = some (ok, c, s)

unfoldable pub initialize :
    List ConfItem → (ℕ → SocketCalls) → Settings → Sockets → Option (Bool × Settings × Sockets)
unfolding read_conf open_listen_sockets
initialize items calls c s = do
  c' ← read_conf items c
  with_settings c' (open_listen_sockets items calls c'.port_count s)

-- The descriptors stay open.
unfoldable pub event_close_listen : Sockets → Sockets
event_close_listen s = record s { listen_list = [] }
