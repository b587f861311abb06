-- ===== src/Logic/Dispatch.antt =====
-- Which messages `ThreadRecvProc` of socketlogic/c_socketlogic.cxx refuses, and what it does with the
-- others.
use my_nignx.Prelude.{
  ℕ, ◌+◌, ◌≡◌, ◌≢◌, zero, suc, refl, ap, ◌∙◌, ◌⊎◌, inl, inr, Bool, true, false, [], ◌∷◌, ◌++◌, some,
  arith, leb, ◌==◌, if◌then◌else◌, Bool-cases, replicate,
}
use my_nignx.Conn.{Message, pkg_header_len, judge_outdate}
use my_nignx.Recv.{pkg_len}
use my_nignx.Send.{Sender, at_conn, enqueued, msg_send_in_queue}
use my_nignx.Send.Queue.{is_congested}
use my_nignx.Crc.{get_crc}
use my_nignx.Logic.{
  cmd_ping, cmd_register, cmd_login, len_struct_register, len_struct_login, msg_code, is_crc_right,
  make_reply, Replied, queued, answer, handle_register, handle_login, handle_ping, command_of,
  run_command, thread_recv_proc,
}

abbrev pub is_fresh : Message → Sender → Bool
is_fresh m s = judge_outdate (s.conn m.header.lp_curconn) m.header.msg_cursequence

abbrev refused : Sender → Replied
refused s = some (false, s)

if-same {ℓ} : {A : Type ℓ} (b : Bool) (a : A) → (if b then a else a) ≡ a
if-same true a = refl
if-same false a = refl

-- The codes that name a command: 0, 5 and 6.
abbrev pub IsUnknown : ℕ → Type 0
IsUnknown code = (code ≢ 0) × (code ≢ cmd_register) × (code ≢ cmd_login)

unknown_code :
    (code now : ℕ) (m : Message) (s : Sender)
    → IsUnknown code
    → (if leb 7 code then refused s else run_command (command_of code) now m s) ≡ refused s
unknown_code zero now m s u = absurd (u.0 refl)
unknown_code (suc zero) now m s u = refl
unknown_code (suc (suc zero)) now m s u = refl
unknown_code (suc (suc (suc zero))) now m s u = refl
unknown_code (suc (suc (suc (suc zero)))) now m s u = refl
unknown_code (suc (suc (suc (suc (suc zero))))) now m s u = absurd (u.1 refl)
unknown_code (suc (suc (suc (suc (suc (suc zero)))))) now m s u = absurd (u.2 refl)
unknown_code (suc (suc (suc (suc (suc (suc (suc n))))))) now m s u =
    let large : leb 7 (suc (suc (suc (suc (suc (suc (suc n))))))) ≡ true = ground arith in
    rw large refl

-- A message of an earlier use of its connection, one with a wrong checksum, and one with any code but
-- 0 and those of registration and login, however large, are refused: no reply is queued, no connection
-- changes, and the table of handlers is not read past its end.
pub thread_recv_proc_refuses :
    (now : ℕ) (m : Message) (s : Sender)
    → (is_fresh m s ≡ false) ⊎ ((is_crc_right m.pkg ≡ false) ⊎ IsUnknown (msg_code m.pkg))
    → thread_recv_proc now m s ≡ some (false, s)
unfolding thread_recv_proc
thread_recv_proc_refuses now m s (inl stale) = rw stale refl
thread_recv_proc_refuses now m s (inr (inl wrong)) = elim (Bool-cases (is_fresh m s)) [
  | inl f ↦ rw (f, wrong) refl
  | inr f ↦ rw f refl
]
thread_recv_proc_refuses now m s (inr (inr unknown)) = elim (Bool-cases (is_fresh m s)) [
  | inl f ↦ elim (Bool-cases (is_crc_right m.pkg)) [
    | inl c ↦ rw (f, c) (unknown_code (msg_code m.pkg) now m s unknown)
    | inr c ↦ rw (f, c) refl
  ]
  | inr f ↦ rw f refl
]

-- A ping with the code that the header file gives to pings is refused, whatever else it holds: its
-- entry in the table of handlers is empty.
pub thread_recv_proc_ping :
    (now : ℕ) (m : Message) (s : Sender)
    → msg_code m.pkg ≡ cmd_ping
    → thread_recv_proc now m s ≡ some (false, s)
thread_recv_proc_ping now m s e = thread_recv_proc_refuses now m s (
    inr (
      inr ((λ z. other 0 z refl), (λ z. other cmd_register z refl), (λ z. other cmd_login z refl))))
  where
    other : (k : ℕ) → msg_code m.pkg ≡ k → (k == cmd_ping) ≡ false → ⊥
    other k z apart = ground (arith, e)

-- The state in which the reply goes into the queue.
abbrev pub replying : ℕ → Message → Sender → Sender
replying n m s =
    let k = m.header.lp_curconn in
    at_conn k (record (s.conn k) { sendlen_suppose = pkg_header_len + n }) s

send_reply :
    (r : Message) (s : Sender)
    → s.locked ≡ false
    → is_congested s r ≡ false
    → queued (msg_send_in_queue r s) ≡ some (true, enqueued r s)
unfolding msg_send_in_queue
send_reply r s free calm = rw (free, calm) refl

answer_lem :
    (code n : ℕ) (m : Message) (s : Sender)
    → is_fresh m s ≡ true
    → pkg_len m.pkg ≡ pkg_header_len + n
    → s.locked ≡ false
    → is_congested s m ≡ false
    → let r = make_reply code n (get_crc (replicate n 0)) m.header in
      answer code n m s ≡ some (true, enqueued r (replying n m s))
unfolding answer make_reply
answer_lem code n m s fresh len free calm =
    let b : (pkg_len m.pkg == pkg_header_len + n) ≡ true = ground arith in
    rw (b, fresh)
      (send_reply (make_reply code n (get_crc (replicate n 0)) m.header) (replying n m s) free
        (ground arith))

dispatched :
    (now : ℕ) (m : Message) (s : Sender)
    → is_fresh m s ≡ true
    → is_crc_right m.pkg ≡ true
    → leb 7 (msg_code m.pkg) ≡ false
    → thread_recv_proc now m s ≡ run_command (command_of (msg_code m.pkg)) now m s
unfolding thread_recv_proc
dispatched now m s fresh right known = rw (fresh, right, known) refl

-- The two commands that are answered with a body, and its length.
abbrev pub IsAnswered : ℕ → ℕ → Type 0
IsAnswered code n =
    ((code ≡ cmd_register) × (n ≡ len_struct_register))
    ⊎ ((code ≡ cmd_login) × (n ≡ len_struct_login))

run_answers :
    (now code n : ℕ) (m : Message) (s : Sender)
    → IsAnswered code n
    → run_command (command_of code) now m s ≡ answer code n m s
unfolding handle_register handle_login
run_answers now code n m s (inl (e, f)) = rw (e, f) refl
run_answers now code n m s (inr (e, f)) = rw (e, f) refl

answered_known : (code n : ℕ) → IsAnswered code n → leb 7 code ≡ false
answered_known code n (inl (e, f)) = rw e refl
answered_known code n (inr (e, f)) = rw e refl

-- The state that an answered message leaves.
pub thread_recv_proc_reply :
    (now code n : ℕ) (m : Message) (s : Sender)
    → IsAnswered code n
    → is_fresh m s ≡ true
    → is_crc_right m.pkg ≡ true
    → msg_code m.pkg ≡ code
    → pkg_len m.pkg ≡ pkg_header_len + n
    → s.locked ≡ false
    → is_congested s m ≡ false
    → let r = make_reply code n (get_crc (replicate n 0)) m.header in
      thread_recv_proc now m s ≡ some (true, enqueued r (replying n m s))
thread_recv_proc_reply now code n m s which fresh right is_code len free calm =
    let known : leb 7 (msg_code m.pkg) ≡ false = rw is_code (answered_known code n which) in
    dispatched now m s fresh right known
    ∙ ap (λ c. run_command (command_of c) now m s) is_code
    ∙ run_answers now code n m s which
    ∙ answer_lem code n m s fresh len free calm

-- A fresh message with a right checksum, the code of a registration or a login and a body of that
-- command's length is answered, when the mutex is free and nothing is congested: one reply with the
-- same code and a body of zeros of the same length goes to the end of the queue, and the length
-- that the send thread will check is the reply's.
pub thread_recv_proc_answers :
    (now code n : ℕ) (m : Message) (s : Sender)
    → IsAnswered code n
    → is_fresh m s ≡ true
    → is_crc_right m.pkg ≡ true
    → msg_code m.pkg ≡ code
    → pkg_len m.pkg ≡ pkg_header_len + n
    → s.locked ≡ false
    → is_congested s m ≡ false
    → (t : Sender) × (thread_recv_proc now m s ≡ some (true, t))
      × (t.msg_list ≡ s.msg_list ++ (make_reply code n (get_crc (replicate n 0)) m.header ∷ []))
      × ((t.conn m.header.lp_curconn).sendlen_suppose ≡ pkg_header_len + n)
      × (t.locked ≡ false)
unfolding make_reply
thread_recv_proc_answers now code n m s which fresh right is_code len free calm =
    let r = make_reply code n (get_crc (replicate n 0)) m.header in
    (
      enqueued r (replying n m s),
      thread_recv_proc_reply now code n m s which fresh right is_code len free calm,
      refl,
      ground arith,
      free,
    )

-- A fresh message of code 0 without a body is taken as a ping, when the mutex is free and nothing is
-- congested: the time of the last ping becomes `now`, and a reply with the code of pings is queued.
pub thread_recv_proc_code_0 :
    (now : ℕ) (m : Message) (s : Sender)
    → is_fresh m s ≡ true
    → is_crc_right m.pkg ≡ true
    → msg_code m.pkg ≡ 0
    → pkg_len m.pkg ≡ pkg_header_len
    → s.locked ≡ false
    → is_congested s m ≡ false
    → (t : Sender) × (thread_recv_proc now m s ≡ some (true, t))
      × (t.msg_list ≡ s.msg_list ++ (make_reply cmd_ping 0 0 m.header ∷ []))
      × ((t.conn m.header.lp_curconn).ping_update_time ≡ now)
unfolding make_reply handle_ping
thread_recv_proc_code_0 now m s fresh right is_code len free calm =
    let k = m.header.lp_curconn in
    let r = make_reply cmd_ping 0 0 m.header in
    let s' =
      at_conn k (record (s.conn k) { ping_update_time = now; sendlen_suppose = pkg_header_len })
        s in
    let b : (pkg_len m.pkg == pkg_header_len) ≡ true = ground arith in
    let known : leb 7 (msg_code m.pkg) ≡ false = rw is_code refl in
    let pinged : handle_ping now m s ≡ some (true, enqueued r s') =
      rw b (send_reply r s' free (ground arith)) in
    (
      enqueued r s',
      dispatched now m s fresh right known
          ∙ ap (λ c. run_command (command_of c) now m s) is_code
          ∙ pinged,
      refl,
      ground arith,
    )
