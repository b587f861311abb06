-- ===== src/Epoll.antt =====
-- `epoll_oper_event` of net/c_socket.cxx: the mask of events that it records.
use Prim.Native.Nat.{bit_and, bit_or}
use my_nignx.Prelude.{ℕ, ◌-◌, ◌^◌}
use my_nignx.Conn.{Connection}

pub data CtlOp : Type 0 where
  ctl_add ctl_del ctl_mod : CtlOp

-- The third argument of a modification.
pub data BcAction : Type 0 where
  bc_set bc_clear bc_replace : BcAction

abbrev pub epollin : ℕ
epollin = 1

abbrev pub epollout : ℕ
epollout = 4

abbrev pub epollerr : ℕ
epollerr = 8

abbrev pub epollhup : ℕ
epollhup = 16

abbrev pub epollrdhup : ℕ
epollrdhup = 0x2000

abbrev new_events : BcAction → ℕ → ℕ → ℕ
new_events bc_set old e = bit_or old e
new_events bc_clear old e = bit_and old (2 ^ 32 - 1 - e)
new_events bc_replace old e = e

-- The connection afterwards; the return value is 0 exactly if `epoll_ctl` succeeds.
unfoldable pub epoll_oper_event : CtlOp → ℕ → BcAction → Connection → Connection
epoll_oper_event ctl_del e a c = c
epoll_oper_event ctl_add e a c = record c { events = e }
epoll_oper_event ctl_mod e a c = record c { events = new_events a c.events e }
