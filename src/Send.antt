-- ===== src/Send.antt =====
-- Sending: `sendproc` and `event_writable_request_handler` of net/socket_request.cxx, and
-- `MsgSendInQueue`, the queue pass of `SendMsgThreadFunc` and `sendmsglist_clean` of
-- net/c_socket.cxx.
pub mod Queue
pub mod Wire
pub mod Order
pub mod Writable
pub mod Packet
mod Tests
use Prim.Native.Nat.{min}
use my_nignx.Prelude.{
  ℕ, suc, ◌+◌, ◌-◌, ◌*◌, ◌%◌, ◌^◌, Bool, true, false, not, ◌||◌, List, [], ◌∷◌, ◌++◌, Option, none,
  some, take, drop, ltb, ◌==◌, if◌then◌else◌, ℤ, pos, incr, decr, ltb_ℤ, update,
}
use my_nignx.Conn.{Connection, Message, judge_outdate}
use my_nignx.Recv.{pkg_len}
use my_nignx.Epoll.{epoll_oper_event, ctl_mod, bc_set, bc_clear, epollout}

-- What the calls of `send` in one `sendproc` do: some are interrupted, and the last one has room for
-- `n + 1` bytes, finds the buffer full (EAGAIN), fails otherwise, or returns 0, as it
-- does for a length of 0.
pub data SendOutcome : Type 0 where
  interrupted : SendOutcome → SendOutcome
  took : ℕ → SendOutcome
  again broken returned_zero : SendOutcome

-- The return value; `none` stands for -1.
unfoldable pub sendproc : ℕ → SendOutcome → Option ℕ
sendproc len (interrupted o) = sendproc len o
sendproc len (took n) = some (min (suc n) len)
sendproc len again = some 0
sendproc len broken = none
sendproc len returned_zero = none

-- `wire` is what the system has accepted for each connection, oldest byte first; the program does
-- not see it.
pub record Sender : Type 0 where
  pub conn : ℕ → Connection
  pub msg_list : List Message
  pub msgtosend_count : ℤ
  pub sendsem : ℕ
  pub locked : Bool
  pub wire : ℕ → List ℕ

abbrev pub at_conn : ℕ → Connection → Sender → Sender
at_conn k c s = record s { conn = update s.conn k c }

abbrev pub enqueued : Message → Sender → Sender
enqueued m s =
    let k = m.header.lp_curconn in
    let c = s.conn k in
    record s {
      msg_list = s.msg_list ++ (m ∷ []);
      conn = update s.conn k (record c { isend_count = incr c.isend_count });
      msgtosend_count = incr s.msgtosend_count;
      sendsem = s.sendsem + 1;
    }

-- `none` is a call that waits for the mutex for ever. The two early returns keep the mutex.
unfoldable pub msg_send_in_queue : Message → Sender → Option Sender
msg_send_in_queue m s =
    let k = m.header.lp_curconn in
    let c = s.conn k in
    if s.locked
    then none
    else (if ltb_ℤ (pos 1000) s.msgtosend_count || ltb_ℤ (pos 400) c.isend_count
        then some (record s { locked = true })
        else some (enqueued m s))

unfoldable pub sendmsglist_clean : Sender → Sender
sendmsglist_clean s = record s { msg_list = [] }

-- The bytes of the packet of a message from an offset on.
abbrev pub rest_of : Option Message → Option ℕ → ℕ → List ℕ
rest_of none o n = []
rest_of (some m) none n = []
rest_of (some m) (some o) n = take n (drop o m.pkg)

abbrev pub drop_send : Connection → Connection
drop_send c = record c { sendbuf = none; msgsend = none }

-- The connection when a message is taken from the list.
abbrev pub load_message : Message → Connection → Connection
load_message m c = record c {
  msgsend = some m;
  isend_count = decr c.isend_count;
  sendlen_already = 0;
  sendbuf = some 0;
  sendlen = pkg_len m.pkg;
}

abbrev pub forward : Option ℕ → ℕ → Option ℕ
forward none n = none
forward (some o) n = some (o + n)

abbrev pub sent_part : ℕ → Connection → Connection
sent_part n c = record c {
  sendbuf = forward c.sendbuf n;
  sendlen = c.sendlen - n;
  sendlen_already = (c.sendlen_already + n) % 2 ^ 64;
}

-- What the send thread does with the result of `sendproc`, and whether it goes on.
abbrev pub sent : Connection → Option ℕ → Connection × Bool
sent c none = (record (drop_send c) { throwsend_count = pos 0 }, true)
sent c (some n) =
    let c' = record c { sendlen_already = (c.sendlen_already + n) % 2 ^ 64 } in
    if ltb n c.sendlen
    then (
      epoll_oper_event ctl_mod epollout bc_set
          (record (sent_part n c) { throwsend_count = incr c.throwsend_count }),
      true,
    )
    else (if c'.sendlen_already == c.sendlen_suppose
        then (record (drop_send c') { throwsend_count = pos 0 }, true)
        else (c', false))

abbrev pub accepted : Option ℕ → List ℕ → List ℕ
accepted none bytes = []
accepted (some n) bytes = take n bytes

-- One message of the list: it stays, it goes, and the thread may end.
pub data Fate : Type 0 where
  stays goes thread_ends : Fate

abbrev pub fate_of : Bool → Fate
fate_of true = goes
fate_of false = thread_ends

unfoldable pub transmit : SendOutcome → Message → Sender → Fate × Sender
unfolding epoll_oper_event
transmit o m s =
    let k = m.header.lp_curconn in
    let loaded = load_message m (s.conn k) in
    let n = sendproc loaded.sendlen o in
    let (c', alive) = sent loaded n in
    (
      fate_of alive,
      record s {
        conn = update s.conn k c';
        msgtosend_count = decr s.msgtosend_count;
        wire = update s.wire k (s.wire k ++ accepted n (take loaded.sendlen m.pkg));
      },
    )

unfoldable pub send_message : SendOutcome → Message → Sender → Fate × Sender
send_message o m s =
    let k = m.header.lp_curconn in
    let c = s.conn k in
    if not (judge_outdate c m.header.msg_cursequence)
    then (goes, at_conn k (drop_send c) s)
    else (if ltb_ℤ (pos 0) c.throwsend_count then (stays, s) else transmit o m s)

-- What stays in the list, whether the thread goes on, and the state.
abbrev pub Looped : Type 0
Looped = List Message × Bool × Sender

abbrev pub after_fate : Fate → Message → List Message → Sender → Looped → Looped
after_fate stays m ms s rest = (m ∷ rest.0, rest.1, rest.2)
after_fate goes m ms s rest = rest
after_fate thread_ends m ms s rest = (ms, false, s)

-- The loop over the list; `outs i` is what sending does in round `i`.
unfoldable pub send_loop : (ℕ → SendOutcome) → ℕ → List Message → Sender → Looped
send_loop outs i [] s = ([], true, s)
send_loop outs i (m ∷ ms) s =
    let r = send_message (outs i) m s in after_fate r.0 m ms r.1 (send_loop outs (i + 1) ms r.1)

-- A pass with the mutex taken, and its release unless the thread ended within.
unfoldable pub send_pass : (ℕ → SendOutcome) → Sender → Bool × Sender
unfolding send_loop
send_pass outs s =
    let (kept, alive, s') = send_loop outs 0 s.msg_list s in
    (alive, record s' { msg_list = kept; locked = not alive })

-- One wake-up of the thread: `none` while it waits for the mutex for ever.
unfoldable pub send_thread_round : (ℕ → SendOutcome) → Sender → Option (Bool × Sender)
unfolding send_pass
send_thread_round outs s =
    if ltb_ℤ (pos 0) s.msgtosend_count
    then (if s.locked then none else some (send_pass outs s))
    else some (true, s)

abbrev finish_send : Connection → Connection
finish_send c = record (drop_send c) { throwsend_count = pos 0 }

abbrev pub written : Connection → Option ℕ → Connection × Bool
written c none = (finish_send c, true)
written c (some n) =
    let c' = record c { sendlen_already = (c.sendlen_already + n) % 2 ^ 64 } in
    if ltb n c.sendlen
    then (sent_part n c, false)
    else (if c'.sendlen_already == c.sendlen_suppose
        then (finish_send (epoll_oper_event ctl_mod epollout bc_clear c'), true)
        else (c', false))

-- The flag of `written` says whether the send thread is woken.
unfoldable pub event_writable_request_handler : SendOutcome → ℕ → Sender → Sender
unfolding sendproc
event_writable_request_handler o k s =
    let c = s.conn k in
    let n = sendproc c.sendlen o in
    let (c', wakes) = written c n in
    record s {
      conn = update s.conn k c';
      sendsem = if wakes then s.sendsem + 1 else s.sendsem;
      wire = update s.wire k (s.wire k ++ accepted n (rest_of c.msgsend c.sendbuf c.sendlen));
    }
