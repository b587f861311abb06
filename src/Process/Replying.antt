-- ===== src/Process/Replying.antt =====
-- The business logic leaves the descriptors and the received messages of all connections, and
-- queues replies to the connections of their requests.
use my_nignx.Prelude.{
  Every, append-Every, All, ℕ, ◌+◌, ◌<◌, ◌≡◌, refl, Bool, ◌||◌, [], ◌∷◌, Option, none, some, leb,
  ◌==◌, Bool-cases, inl, inr, pos, incr, ltb_ℤ, replicate,
}
use my_nignx.Conn.{Connection, Message, judge_outdate, pkg_header_len}
use my_nignx.Crc.{get_crc}
use my_nignx.Recv.{pkg_len}
use my_nignx.Send.{Sender, at_conn, enqueued, msg_send_in_queue}
use my_nignx.Logic.{
  cmd_ping, cmd_register, cmd_login, len_struct_register, len_struct_login, make_reply, queued,
  answer, handle_register, handle_login, handle_ping, Command, ping, register, login, run_command,
  msg_code, command_of, is_crc_right, thread_recv_proc,
}
use my_nignx.Process.Pointers.{NamesIn}
use my_nignx.Process.Sending.{Leaves, trans-Leaves, update-Leaves}

-- A reply, if the call returns.
abbrev pub Answers : ℕ → Sender → Bool × Sender → Type 0
Answers n s r = Leaves s.conn r.1.conn × Every (NamesIn n) r.1.msg_list

-- A message to its connection, some of whose fields have changed.
queue-Answers :
    (n : ℕ) (m : Message) (c : Connection) (s : Sender)
    → m.header.lp_curconn < n
    → c.fd ≡ (s.conn m.header.lp_curconn).fd
    → c.msgrecv ≡ (s.conn m.header.lp_curconn).msgrecv
    → Every (NamesIn n) s.msg_list
    → All (Answers n s) (queued (msg_send_in_queue m (at_conn m.header.lp_curconn c s)))
unfolding msg_send_in_queue
queue-Answers n m c s made e r v =
    let k = m.header.lp_curconn in
    let t = at_conn k c s in
    elim (Bool-cases s.locked) [
      | inl taken ↦ rw taken tt
      | inr free ↦
          elim (Bool-cases
            (ltb_ℤ (pos 1000) t.msgtosend_count || ltb_ℤ (pos 400) (t.conn k).isend_count)) [
              | inl full ↦ rw (free, full) (update-Leaves s.conn k c e r, v)
              | inr calm ↦
                  rw (free, calm)
                    (
                      trans-Leaves s.conn t.conn (enqueued m t).conn (update-Leaves s.conn k c e r)
                          (update-Leaves t.conn k
                            (record (t.conn k) { isend_count = incr (t.conn k).isend_count }) refl
                            refl),
                      append-Every (NamesIn n) s.msg_list (m ∷ []) v (made, tt),
                    )
            ]
    ]

answer-Answers :
    (n code len : ℕ) (m : Message) (s : Sender)
    → m.header.lp_curconn < n
    → Every (NamesIn n) s.msg_list
    → All (Answers n s) (answer code len m s)
unfolding answer
answer-Answers n code len m s made v =
    let k = m.header.lp_curconn in
    elim (Bool-cases (pkg_len m.pkg == pkg_header_len + len)) [
      | inl fits ↦ elim (Bool-cases (judge_outdate (s.conn k) m.header.msg_cursequence)) [
        | inl fresh ↦
            rw (fits, fresh)
              (queue-Answers n (make_reply code len (get_crc (replicate len 0)) m.header)
                (record (s.conn k) { sendlen_suppose = pkg_header_len + len }) s made refl refl v)
        | inr stale ↦ rw (fits, stale) (λ d. (refl, refl), v)
      ]
      | inr wrong ↦ rw wrong (λ d. (refl, refl), v)
    ]

ping-Answers :
    (n now : ℕ) (m : Message) (s : Sender)
    → m.header.lp_curconn < n
    → Every (NamesIn n) s.msg_list
    → All (Answers n s) (handle_ping now m s)
unfolding handle_ping
ping-Answers n now m s made v =
    let k = m.header.lp_curconn in
    elim (Bool-cases (pkg_len m.pkg == pkg_header_len)) [
      | inl fits ↦ rw fits (
          queue-Answers n (make_reply cmd_ping 0 0 m.header)
            (record (s.conn k) { ping_update_time = now; sendlen_suppose = pkg_header_len }) s made
            refl refl v)
      | inr wrong ↦ rw wrong (λ d. (refl, refl), v)
    ]

command-Answers :
    (n : ℕ) (c : Option (Option Command)) (now : ℕ) (m : Message) (s : Sender)
    → m.header.lp_curconn < n
    → Every (NamesIn n) s.msg_list
    → All (Answers n s) (run_command c now m s)
unfolding handle_register handle_login
command-Answers n none now m s made v = tt
command-Answers n (some none) now m s made v = (λ d. (refl, refl), v)
command-Answers n (some (some ping)) now m s made v = ping-Answers n now m s made v
command-Answers n (some (some register)) now m s made v =
    answer-Answers n cmd_register len_struct_register m s made v
command-Answers n (some (some login)) now m s made v =
    answer-Answers n cmd_login len_struct_login m s made v

pub thread_recv_proc-Answers :
    (n now : ℕ) (m : Message) (s : Sender)
    → m.header.lp_curconn < n
    → Every (NamesIn n) s.msg_list
    → All (Answers n s) (thread_recv_proc now m s)
unfolding thread_recv_proc
thread_recv_proc-Answers n now m s made v =
    elim (Bool-cases (judge_outdate (s.conn m.header.lp_curconn) m.header.msg_cursequence)) [
      | inl fresh ↦ elim (Bool-cases (is_crc_right m.pkg)) [
        | inl right ↦ elim (Bool-cases (leb 7 (msg_code m.pkg))) [
          | inl large ↦ rw (fresh, right, large) (λ d. (refl, refl), v)
          | inr known ↦
              rw (fresh, right, known)
                (command-Answers n (command_of (msg_code m.pkg)) now m s made v)
        ]
        | inr wrong ↦ rw (fresh, wrong) (λ d. (refl, refl), v)
      ]
      | inr stale ↦ rw stale (λ d. (refl, refl), v)
    ]
