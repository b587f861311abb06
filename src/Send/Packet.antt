-- ===== src/Send/Packet.antt =====
-- A reply's packet on its way: the send thread takes it up (net/c_socket.cxx), and what does not
-- fit goes out when epoll reports room.
use my_nignx.Prelude.{
  ℕ, ◌+◌, ◌-◌, ◌≤◌, ◌<◌, ◌≡◌, refl, sym, ap, ◌∙◌, inl, inr, true, false, List, [], ◌++◌, append-nil,
  some, arith, pos, ltb, ◌==◌, if◌then◌else◌, Bool-cases, ==_refl, ◌%◌, ◌^◌,
}
use mathlib.Core.Path.{subst}
use my_nignx.Conn.{Connection, Message}
use my_nignx.Recv.{pkg_len}
use my_nignx.Epoll.{epoll_oper_event}
use my_nignx.Send.{SendOutcome, sendproc, Sender, rest_of, transmit}
use my_nignx.Send.Wire.{Succeeds, sendproc-some, is_busy, packet, current, to, transmit-Transmitted}
use my_nignx.Send.Writable.{writes, all_take, AllSucceed, IsUnderWay, writes_idle, writes_lem}

module _ (o : SendOutcome) (n : ℕ) (m : Message) (s : Sender)
    (e : sendproc (pkg_len m.pkg) o ≡ some n) (idle : (s.conn (to m)).throwsend_count ≡ pos 0)
    (suppose : (s.conn (to m)).sendlen_suppose ≡ pkg_len m.pkg)
    (small : pkg_len m.pkg < 2 ^ 64) where
  left_over : n < pkg_len m.pkg → IsUnderWay m n ((transmit o m s).1.conn (to m))
  unfolding transmit epoll_oper_event
  left_over h =
      let test : ltb n (pkg_len m.pkg) ≡ true = ground arith in
      let z : 0 + n ≡ n = omega arith in
      rw (e, test, ==_refl (to m))
        (record {
          its_message = refl;
          its_place = ap some z;
          counts = omega (arith, small, h, suppose);
          small = rw suppose small;
          unsent = omega (arith, h);
          busy = rw idle refl;
        })

  left_over_len : n < pkg_len m.pkg → ((transmit o m s).1.conn (to m)).sendlen ≡ pkg_len m.pkg - n
  unfolding transmit epoll_oper_event
  left_over_len h =
      let test : ltb n (pkg_len m.pkg) ≡ true = ground arith in rw (e, test, ==_refl (to m)) refl

  nothing_left :
      (n < pkg_len m.pkg → ⊥) → n ≤ pkg_len m.pkg → is_busy ((transmit o m s).1.conn (to m)) ≡ false
  unfolding transmit
  nothing_left h fits =
      let test : ltb n (pkg_len m.pkg) ≡ false = ground arith in
      let right : ((0 + n) % 2 ^ 64 == (s.conn (to m)).sendlen_suppose) ≡ true = ground arith in
      rw (e, test, right, ==_refl (to m)) refl

current_lem :
    (m : Message) (p : ℕ) (c : Connection)
    → IsUnderWay m p c
    → current c ≡ rest_of (some m) (some p) c.sendlen
current_lem m p c v = rw (v.busy, v.its_message, v.its_place) refl

-- The packet of `m` is on the wire, behind what was there, and the connection waits for nothing;
-- the send thread has been woken once if the first call took only a part, `n` bytes.
pub record IsSent (m : Message) (n : ℕ) (s u : Sender) : Type 0 where
  pub on_wire : u.wire (to m) ≡ s.wire (to m) ++ packet m
  pub idle : is_busy (u.conn (to m)) ≡ false
  pub woken : u.sendsem ≡ (if ltb n (pkg_len m.pkg) then s.sendsem + 1 else s.sendsem)
  pub same_list : u.msg_list ≡ s.msg_list

-- A packet of the length that its reply announced, for a connection with nothing under way, and no
-- call of `send` that fails: the send thread takes the packet up, and epoll calls the writable
-- handler while the connection waits for room. If the first call takes `n` bytes and as many later
-- calls as there are bytes left take something, the whole packet is then on the wire, behind what
-- was there, the connection waits for nothing, and the send thread has been woken once if `n` is
-- only a part, and not otherwise.
pub transmit-writes :
    (o : SendOutcome) (os : List SendOutcome) (n : ℕ) (m : Message) (s : Sender)
    → Succeeds o
    → AllSucceed os
    → sendproc (pkg_len m.pkg) o ≡ some n
    → (s.conn (to m)).throwsend_count ≡ pos 0
    → (s.conn (to m)).sendlen_suppose ≡ pkg_len m.pkg
    → pkg_len m.pkg < 2 ^ 64
    → pkg_len m.pkg ≤ n + all_take os
    → let u = writes os (to m) (transmit o m s).1 in IsSent m n s u
unfolding transmit
transmit-writes o os n m s ok oks e idle suppose small enough =
    let t = (transmit o m s).1 in
    let own = (transmit-Transmitted o m s ok idle).own in
    elim (Bool-cases (ltb n (pkg_len m.pkg))) [
      | inl part ↦
          let less : n < pkg_len m.pkg = ground arith in
          let v = left_over o n m s e idle suppose small less in
          let w =
            writes_lem os (to m) n m t v oks
              (omega (arith, left_over_len o n m s e idle suppose small less, enough)) in
          record {
            on_wire =
                w.on_wire
                ∙ ap (◌++◌ (t.wire (to m))) (sym (current_lem m n (t.conn (to m)) v))
                ∙ own;
            idle = w.idle;
            woken = rw part w.woken_once;
            same_list = w.same_list;
          }
      | inr whole ↦
          let (n', e', fits) = sendproc-some (pkg_len m.pkg) o ok in
          let same : n' ≡ n = cc in
          let done =
            nothing_left o n m s e idle suppose small (λ h. ground arith)
              (omega (arith, fits, same)) in
          let none_left : current (t.conn (to m)) ≡ [] = rw done refl in
          subst (IsSent m n s) (sym (writes_idle os (to m) t done)) (record {
            on_wire =
                sym (append-nil (t.wire (to m))) ∙ ap (◌++◌ (t.wire (to m))) (sym none_left) ∙ own;
            idle = done;
            woken = rw whole refl;
            same_list = refl;
          })
    ]
