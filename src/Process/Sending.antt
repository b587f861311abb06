-- ===== src/Process/Sending.antt =====
-- Sending leaves the descriptors and the received messages of all connections.
use my_nignx.Prelude.{
  Every, append-Every, ℕ, ◌≡◌, refl, ◌∙◌, List, [], ◌∷◌, Option, none, some, arith, ◌==◌,
  Bool-cases, inl, inr, update, pos, ltb_ℤ,
}
use my_nignx.Conn.{Connection, Message, judge_outdate}
use my_nignx.Epoll.{epoll_oper_event}
use my_nignx.Send.{
  SendOutcome, sendproc, Sender, drop_send, load_message, sent, Fate, stays, goes, thread_ends,
  transmit, send_message, written, event_writable_request_handler,
}
use my_nignx.Process.{SendPlace, in_sem_wait, walking, ended, walked, walk_one}
use my_nignx.Process.Pointers.{NamesIn}

-- Every connection keeps its descriptor and the message that it receives.
abbrev pub Leaves : (ℕ → Connection) → (ℕ → Connection) → Type 0
Leaves f g = (d : ℕ) → ((g d).fd ≡ (f d).fd) × ((g d).msgrecv ≡ (f d).msgrecv)

pub update-Leaves :
    (f : ℕ → Connection) (c : ℕ) (k : Connection)
    → k.fd ≡ (f c).fd
    → k.msgrecv ≡ (f c).msgrecv
    → Leaves f (update f c k)
update-Leaves f c k e r d = elim (Bool-cases (c == d)) [
  | inl same ↦ let i : c ≡ d = ground arith in rw (same, e, r, i) (refl, refl)
  | inr other ↦ rw other (refl, refl)
]

pub trans-Leaves : (f g h : ℕ → Connection) → Leaves f g → Leaves g h → Leaves f h
trans-Leaves f g h a b d = ((b d).0 ∙ (a d).0, (b d).1 ∙ (a d).1)

written-Leaves :
    (c : Connection) (n : Option ℕ)
    → ((written c n).0.fd ≡ c.fd) × ((written c n).0.msgrecv ≡ c.msgrecv)
unfolding epoll_oper_event
written-Leaves c none = (refl, refl)
written-Leaves c (some n) = (ground arith, ground arith)

pub writable_handler-Leaves :
    (o : SendOutcome) (k : ℕ) (s : Sender)
    → Leaves s.conn (event_writable_request_handler o k s).conn
unfolding event_writable_request_handler
writable_handler-Leaves o k s =
    let w = written (s.conn k) (sendproc (s.conn k).sendlen o) in
    let e = written-Leaves (s.conn k) (sendproc (s.conn k).sendlen o) in
    update-Leaves s.conn k w.0 e.0 e.1

pub msg_list-writable :
    (o : SendOutcome) (k : ℕ) (s : Sender)
    → (event_writable_request_handler o k s).msg_list ≡ s.msg_list
unfolding event_writable_request_handler
msg_list-writable o k s = refl

sent-Leaves :
    (c : Connection) (n : Option ℕ) → ((sent c n).0.fd ≡ c.fd) × ((sent c n).0.msgrecv ≡ c.msgrecv)
unfolding epoll_oper_event
sent-Leaves c none = (refl, refl)
sent-Leaves c (some n) = (ground arith, ground arith)

transmit-Leaves :
    (o : SendOutcome) (m : Message) (s : Sender) → Leaves s.conn (transmit o m s).1.conn
unfolding transmit
transmit-Leaves o m s =
    let k = m.header.lp_curconn in
    let c = load_message m (s.conn k) in
    let e = sent-Leaves c (sendproc c.sendlen o) in
    update-Leaves s.conn k (sent c (sendproc c.sendlen o)).0 e.0 e.1

send_message-Leaves :
    (o : SendOutcome) (m : Message) (s : Sender) → Leaves s.conn (send_message o m s).1.conn
unfolding send_message
send_message-Leaves o m s =
    let k = m.header.lp_curconn in
    elim (Bool-cases (judge_outdate (s.conn k) m.header.msg_cursequence)) [
      | inl fresh ↦ elim (Bool-cases (ltb_ℤ (pos 0) (s.conn k).throwsend_count)) [
        | inl busy ↦ rw (fresh, busy) (λ d. (refl, refl))
        | inr free ↦ rw (fresh, free) (transmit-Leaves o m s)
      ]
      | inr stale ↦ rw stale (update-Leaves s.conn k (drop_send (s.conn k)) refl refl)
    ]

pub walk_one-Leaves :
    (o : SendOutcome) (m : Message) (kept rest : List Message) (s : Sender)
    → Leaves s.conn (walk_one o m kept rest s).1.conn
unfolding walk_one
walk_one-Leaves o m kept rest s = send_message-Leaves o m s

abbrev pub WalksIn : ℕ → SendPlace → Type 0
WalksIn n in_sem_wait = Unit
WalksIn n (walking kept rest) = Every (NamesIn n) kept × Every (NamesIn n) rest
WalksIn n ended = Unit

walked-In :
    (n : ℕ) (f : Fate) (m : Message) (kept rest : List Message)
    → Every (NamesIn n) kept
    → Every (NamesIn n) (m ∷ rest)
    → WalksIn n (walked f m kept rest).0 × Every (NamesIn n) (walked f m kept rest).1
walked-In n stays m kept rest h k = (
  (append-Every (NamesIn n) kept (m ∷ []) h (k.0, tt), k.1),
  append-Every (NamesIn n) kept (m ∷ rest) h k,
)
walked-In n goes m kept rest h k = ((h, k.1), append-Every (NamesIn n) kept rest h k.1)
walked-In n thread_ends m kept rest h k = (tt, append-Every (NamesIn n) kept rest h k.1)

pub walk_one-In :
    (n : ℕ) (o : SendOutcome) (m : Message) (kept rest : List Message) (s : Sender)
    → Every (NamesIn n) kept
    → Every (NamesIn n) (m ∷ rest)
    → WalksIn n (walk_one o m kept rest s).0
      × Every (NamesIn n) (walk_one o m kept rest s).1.msg_list
unfolding walk_one
walk_one-In n o m kept rest s h k = walked-In n (send_message o m s).0 m kept rest h k
