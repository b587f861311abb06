-- ===== src/Process/Answer.antt =====
-- From a request in the queue of the thread pool to its reply on the wire.
use my_nignx.Prelude.{
  ℕ, suc, ◌+◌, ◌%◌, ◌^◌, ◌≤◌, ◌<◌, ◌≡◌, ◌≢◌, refl, sym, ap, ◌∙◌, true, false, not, ◌&&◌, List, [],
  ◌∷◌, ◌++◌, Option, some, arith, ltb, ◌==◌, inl, inr, pos, ltb_ℤ, size_decr, replicate, take,
  take_all, length, length-take, ==_refl,
}
use Prim.Native.Nat.{min}
use mathlib.Core.Path.{subst}
use my_nignx.Conn.{Message, pkg_header_len, judge_outdate}
use my_nignx.Crc.{get_crc}
use my_nignx.Recv.{pkg_len}
use my_nignx.Send.{
  Sender, SendOutcome, took, goes, sendproc, transmit, send_message, send_loop, send_pass, enqueued,
}
use my_nignx.Send.Wire.{packet}
use my_nignx.Logic.{msg_code, is_crc_right, make_reply}
use my_nignx.Logic.Dispatch.{is_fresh, IsAnswered, replying, thread_recv_proc_reply}
use my_nignx.Logic.Reply.{pkg_len-reply}
use my_nignx.Workers.{past_loop, ThreadPool, take_up, thread_round, thread_done, is_empty}
use my_nignx.Workers.Run.{works}
use my_nignx.Workers.Order.{round_takes}
use my_nignx.Events.{sending}
use my_nignx.Process.{in_sem_wait, Process, with_workers, handled, walks_on, goes_round, handles}
use my_nignx.Process.Runs.{
  Moves, stands, then_moves, Moves-trans, awake, after_pass, send_pass-Moves,
}

-- A message whose whole packet the system takes at once.
deliver :
    (k : ℕ) (m : Message) (s : Sender)
    → let c = s.conn m.header.lp_curconn in
      judge_outdate c m.header.msg_cursequence ≡ true
      → c.throwsend_count ≡ pos 0
      → c.sendlen_suppose ≡ pkg_len m.pkg
      → pkg_len m.pkg ≤ suc k
      → pkg_len m.pkg < 2 ^ 64
      → ((send_message (took k) m s).0 ≡ goes)
        × ((send_message (took k) m s).1.wire m.header.lp_curconn
            ≡ s.wire m.header.lp_curconn ++ packet m)
unfolding send_message transmit sendproc
deliver k m s fresh idle length room small =
    let c = s.conn m.header.lp_curconn in
    let free : ltb_ℤ (pos 0) c.throwsend_count ≡ false = rw idle refl in
    let z : min (suc k) (pkg_len m.pkg) ≡ pkg_len m.pkg = omega arith in
    let whole : ltb (pkg_len m.pkg) (pkg_len m.pkg) ≡ false = ground arith in
    let right : ((0 + pkg_len m.pkg) % 2 ^ 64 == c.sendlen_suppose) ≡ true = ground arith in
    let all : take (pkg_len m.pkg) (packet m) ≡ packet m =
      take_all (pkg_len m.pkg) (packet m) (omega (arith, length-take (pkg_len m.pkg) m.pkg)) in
    rw (fresh, free, z, whole, right, ==_refl m.header.lp_curconn, all) (refl, refl)

-- A request at the head of the queue, a thread of the pool that can take it, and a send thread with
-- nothing to do. `c` is the connection.
pub record IsReady (i : ℕ) (m : Message) (q : List (Option Message)) (p : Process) : Type 0 where
  pub made : i < p.world.workers.create_thread
  pub idle : works (p.world.workers.threads i) ≡ 0
  pub on : (p.world.workers.threads i).place ≢ past_loop
  pub not_told : (p.world.workers.threads i).ifshutdown ≡ false
  pub first : p.world.workers.msgqueue ≡ some m ∷ q
  pub waits : p.send_place ≡ in_sem_wait
  pub free : p.world.sender.locked ≡ false
  pub none_waiting : p.world.sender.msg_list ≡ []
  pub none_counted : p.world.sender.msgtosend_count ≡ pos 0
  pub not_busy : (p.world.server.pool.conn m.header.lp_curconn).throwsend_count ≡ pos 0
  pub few : ltb_ℤ (pos 400) (p.world.server.pool.conn m.header.lp_curconn).isend_count ≡ false
  pub fresh : is_fresh m (sending p.world) ≡ true

-- A request that the handlers answer: its code, and the length of its body.
pub record IsRequest (code n : ℕ) (m : Message) : Type 0 where
  pub which : IsAnswered code n
  pub right : is_crc_right m.pkg ≡ true
  pub is_code : msg_code m.pkg ≡ code
  pub len : pkg_len m.pkg ≡ pkg_header_len + n

abbrev pub reply_to : ℕ → ℕ → Message → Message
reply_to code n m = make_reply code n (get_crc (replicate n 0)) m.header

abbrev with_message : ℕ → Message → List (Option Message) → ThreadPool → ThreadPool
with_message i m q t =
    take_up i (some m, record t { msgqueue = q; msgqueue_size = size_decr t.msgqueue_size })

taken-round :
    (i : ℕ) (m : Message) (q : List (Option Message)) (p : Process)
    → IsReady i m q p
    → thread_round i p.world.workers ≡ with_message i m q p.world.workers
taken-round i m q p v =
    let b : (is_empty p.world.workers.msgqueue && not (p.world.workers.threads i).ifshutdown)
        ≡ false =
      rw (v.first) refl in
    round_takes i p.world.workers b v.not_told ∙ rw (v.first) refl

-- A pass over a list of one message that is delivered.
one_walk :
    (o : SendOutcome) (m : Message) (s : Sender)
    → (send_message o m s).0 ≡ goes
    → send_loop (λ j. o) 0 (m ∷ []) s ≡ ([], true, (send_message o m s).1)
unfolding send_loop
one_walk o m s g = rw g refl

one_message :
    (o : SendOutcome) (m : Message) (s : Sender)
    → s.msg_list ≡ m ∷ []
    → (send_message o m s).0 ≡ goes
    → let r = send_pass (λ j. o) s in
      (r.0 ≡ true)
      × (r.1.msg_list ≡ [])
      × (r.1.locked ≡ false)
      × (r.1.wire ≡ (send_message o m s).1.wire)
unfolding send_pass
one_message o m s e g =
    let z : send_loop (λ j. o) 0 s.msg_list s ≡ ([], true, (send_message o m s).1) =
      ap (λ l. send_loop (λ j. o) 0 l s) e ∙ one_walk o m s g in
    rw z (refl, refl, refl, refl)

short_answer : (code n : ℕ) → IsAnswered code n → n ≤ 28992
short_answer code n (inl (e, f)) = omega (arith, f)
short_answer code n (inr (e, f)) = omega (arith, f)

-- The stages of an answer.
module _ (now code n k i : ℕ) (m : Message) (q : List (Option Message)) (p : Process) where
  abbrev holds_request : Process
  holds_request = with_workers (with_message i m q) p

  abbrev reply : Message
  reply = reply_to code n m

  abbrev replied : Sender
  replied = enqueued reply (replying n m (sending p.world))

  abbrev has_reply : Process
  has_reply = handled i replied holds_request

  takes_request : IsReady i m q p → Moves p holds_request
  takes_request v =
      subst (λ t. Moves p (with_workers (λ u. t) p)) (taken-round i m q p v)
        (then_moves _ _ _ (goes_round i v.made v.idle v.on) (stands _))

  queues_reply : IsReady i m q p → IsRequest code n m → Moves holds_request has_reply
  queues_reply v r =
      then_moves _ _ _
        (handles i now m true replied v.made (rw (==_refl i) refl) (rw (==_refl i) refl) (
          thread_recv_proc_reply now code n m (sending p.world) r.which v.fresh r.right r.is_code
            r.len v.free (rw (v.none_counted, v.few) refl)))
        (stands _)

  abbrev send_state : Sender
  send_state = awake p.world.sender.sendsem has_reply

  sends_reply :
      IsReady i m q p
      → Moves has_reply
          (let r = send_pass (λ j. took k) send_state in walks_on (after_pass r.0, r.1) has_reply)
  sends_reply v =
      send_pass-Moves (λ j. took k) p.world.sender.sendsem has_reply v.waits (omega arith) v.free
        (rw (v.none_counted) refl)

  reply_delivered :
      IsReady i m q p
      → IsRequest code n m
      → pkg_header_len + n ≤ suc k
      → ((send_message (took k) reply send_state).0 ≡ goes)
        × ((send_message (took k) reply send_state).1.wire m.header.lp_curconn
            ≡ p.world.sender.wire m.header.lp_curconn ++ packet reply)
  unfolding judge_outdate make_reply
  reply_delivered v r room =
      let c = m.header.lp_curconn in
      let small = short_answer code n r.which in
      let e : pkg_len reply.pkg ≡ 8 + n =
        pkg_len-reply code n (get_crc (replicate n 0)) m.header small in
      deliver k reply send_state (rw (==_refl c) v.fresh) (rw (==_refl c) v.not_busy)
        (rw (==_refl c) (sym e)) (omega (arith, e)) (omega (arith, e))

-- A registration or login at the head of the queue, fresh and with a right checksum and length, a
-- thread of the pool that may take it, a send thread with nothing to do, and a system that takes
-- the whole reply: moves of the process lead to a state where the reply's packet has been put on
-- the connection's wire, behind what was sent before, the request is no longer in the queue, no
-- message waits to be sent, and the mutex is free.
pub request_gets_reply :
    (now code n k i : ℕ) (m : Message) (q : List (Option Message)) (p : Process)
    → IsReady i m q p
    → IsRequest code n m
    → pkg_header_len + n ≤ suc k
    → (p' : Process) × Moves p p'
      × (p'.world.sender.wire m.header.lp_curconn
          ≡ p.world.sender.wire m.header.lp_curconn ++ packet (reply_to code n m))
      × (p'.world.workers.msgqueue ≡ q)
      × (p'.world.sender.msg_list ≡ [])
      × (p'.world.sender.locked ≡ false)
      × (p'.send_place ≡ in_sem_wait)
unfolding thread_done
request_gets_reply now code n k i m q p v r room =
    let has = has_reply now code n k i m q p in
    let s = send_state now code n k i m q p in
    let d = reply_delivered now code n k i m q p v r room in
    let listed : s.msg_list ≡ reply_to code n m ∷ [] =
      ap (λ l. l ++ (reply_to code n m ∷ [])) v.none_waiting in
    let o = one_message (took k) (reply_to code n m) s listed d.0 in
    let pass = send_pass (λ j. took k) s in
    (
      walks_on (after_pass pass.0, pass.1) has,
      Moves-trans p (holds_request now code n k i m q p) _ (takes_request now code n k i m q p v) (
          Moves-trans _ has _ (queues_reply now code n k i m q p v r)
            (sends_reply now code n k i m q p v)),
      ap (λ w. w m.header.lp_curconn) o.3 ∙ d.1,
      refl,
      o.1,
      o.2,
      ap after_pass o.0,
    )
