-- ===== src/Accept/Admit.antt =====
-- What an accepted client finds.
use my_nignx.Prelude.{
  ℕ, ◌+◌, ◌≡◌, refl, true, false, some, Bool-cases, inl, inr, pos, incr, ==_refl,
}
use my_nignx.Conn.{
  Connection, readable_handler, writable_handler, pkg_hd_init, get_one_to_use, put_to_state_mach,
}
use my_nignx.Epoll.{epoll_oper_event, ctl_add, bc_set, epollin, epollrdhup}
use my_nignx.Pool.{set_conn, get_connection_item}
use my_nignx.Timer.{add_to_timer_queue}
use my_nignx.Accept.{
  AcceptCall, accepted, Calls, Server, is_full, set_up, register_client, event_accept_handler,
}
use my_nignx.Accept.Invariant.{get-online}

-- The connection object of a new client waits for a packet header on the client's descriptor.
pub record IsReady (fd : ℕ) (k : Connection) : Type 0 where
  pub has_fd : k.fd ≡ pos fd
  pub in_state : k.curstat ≡ pkg_hd_init
  pub not_queued : k.in_recy_list ≡ false
  pub not_late : k.istimeout ≡ false
  pub none_under_way : k.throwsend_count ≡ pos 0
  pub reads : k.rhandler ≡ readable_handler
  pub writes : k.whandler ≡ writable_handler
  pub watched : k.events ≡ epollin + epollrdhup

register-IsReady :
    (e : Calls) (fd c : ℕ) (s : Server)
    → IsReady fd (s.pool.conn c)
    → IsReady fd ((register_client e c s).pool.conn c)
unfolding add_to_timer_queue
register-IsReady e fd c s v = elim (Bool-cases s.time_enable) [
  | inl on ↦
      rw (on, ==_refl c)
        (record {
          has_fd = v.has_fd;
          in_state = v.in_state;
          not_queued = v.not_queued;
          not_late = v.not_late;
          none_under_way = v.none_under_way;
          reads = v.reads;
          writes = v.writes;
          watched = v.watched;
        })
  | inr off ↦ rw off v
]

register_online :
    (e : Calls) (c : ℕ) (s : Server)
    → (register_client e c s).pool.online_count ≡ incr s.pool.online_count
unfolding add_to_timer_queue
register_online e c s = elim (Bool-cases s.time_enable) [
  | inl on ↦ rw on refl
  | inr off ↦ rw off refl
]

-- When a descriptor is accepted at the first call, the server is not full and the descriptor can be
-- registered, the handler takes a connection object for it: the object has the descriptor and the
-- state that a new client's has, and there is one client more.
pub event_accept_handler_admits :
    (e : Calls) (fd : ℕ) (second : AcceptCall) (s : Server)
    → s.use_accept4 ≡ true
    → e.registers ≡ true
    → is_full s ≡ false
    → (s' : Server) × (event_accept_handler e (accepted fd) second s ≡ some s')
      × IsReady fd (s'.pool.conn (get_connection_item s.pool).0)
      × (s'.pool.online_count ≡ incr s.pool.online_count)
unfolding event_accept_handler get_one_to_use put_to_state_mach epoll_oper_event
event_accept_handler_admits e fd second s four reg room =
    let r = get_connection_item s.pool in
    let k = epoll_oper_event ctl_add (epollin + epollrdhup) bc_set (set_up e fd (r.1.conn r.0)) in
    let s1 : Server = record s { pool = set_conn r.0 k r.1 } in
    let ready : IsReady fd (s1.pool.conn r.0) = rw (==_refl r.0) (record {
      has_fd = refl;
      in_state = refl;
      not_queued = refl;
      not_late = refl;
      none_under_way = refl;
      reads = refl;
      writes = refl;
      watched = refl;
    }) in
    (
      register_client e r.0 s1,
      rw (four, room, reg) refl,
      register-IsReady e fd r.0 s1 ready,
      rw (register_online e r.0 s1, get-online s.pool) refl,
    )
