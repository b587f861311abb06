-- ===== src/Logic/Tests.antt =====
-- The business logic of socketlogic/c_socketlogic.cxx with concrete messages.
use my_nignx.Prelude.{ℕ, ◌≡◌, refl, arith, inr, true, false, [], ◌∷◌, some, length, replicate, pos}
use my_nignx.Conn.{Message, MsgHeader, judge_outdate, through_int}
use my_nignx.Recv.Framing.{IsPacket}
use my_nignx.Pool.{new_connection}
use my_nignx.Send.{Sender}
use my_nignx.Send.Wire.{packet}
use my_nignx.Crc.{get_crc}
use my_nignx.Logic.{cmd_ping, cmd_login, make_reply, msg_code, is_crc_right, thread_recv_proc}
use my_nignx.Logic.Reply.{sum_of_zeros, make_reply-accepted}
use my_nignx.Logic.Dispatch.{
  thread_recv_proc_refuses, thread_recv_proc_ping, thread_recv_proc_answers,
  thread_recv_proc_code_0,
}

abbrev stamp : MsgHeader
stamp = record { lp_curconn = 4; msg_cursequence = 1 }

abbrev idle_sender : Sender
idle_sender = record {
  conn = λ k. record new_connection { fd = pos 9; sequence = 1 };
  msg_list = [];
  msgtosend_count = pos 0;
  sendsem = 0;
  locked = false;
  wire = λ k. [];
}

abbrev login_message : Message
login_message = make_reply cmd_login 96 (get_crc (replicate 96 0)) stamp

abbrev plain : ℕ → Message
plain code = record { header = stamp; pkg = 0 ∷ 8 ∷ 0 ∷ code ∷ 0 ∷ 0 ∷ 0 ∷ 0 ∷ 0 ∷ [] }

fresh : judge_outdate (idle_sender.conn 4) 1 ≡ true
unfolding judge_outdate through_int
fresh = refl

login_right : is_crc_right login_message.pkg ≡ true
unfolding is_crc_right get_crc make_reply
login_right = refl

plain_right : is_crc_right (plain 0).pkg ≡ true
unfolding is_crc_right
plain_right = refl

make_reply-accepted_example :
    let m = make_reply 6 96 (sum_of_zeros 96) stamp in
    IsPacket (packet m)
    × (length (packet m) ≡ 104)
    × (msg_code m.pkg ≡ 6)
    × (is_crc_right m.pkg ≡ true)
make_reply-accepted_example = make_reply-accepted 6 96 stamp (omega arith)

thread_recv_proc_refuses_example :
    thread_recv_proc 50 (plain 200) idle_sender ≡ some (false, idle_sender)
thread_recv_proc_refuses_example = thread_recv_proc_refuses 50 (plain 200) idle_sender (
    inr
      (inr ((λ e. absurd (omega arith)), (λ e. absurd (omega arith)), (λ e. absurd (omega arith)))))

thread_recv_proc_ping_sample : thread_recv_proc 50 (plain 1) idle_sender ≡ some (false, idle_sender)
thread_recv_proc_ping_sample = thread_recv_proc_ping 50 (plain 1) idle_sender refl

thread_recv_proc_answers_example :
    (t : Sender) × (thread_recv_proc 50 login_message idle_sender ≡ some (true, t))
    × (t.msg_list ≡ make_reply cmd_login 96 (get_crc (replicate 96 0)) stamp ∷ [])
    × ((t.conn 4).sendlen_suppose ≡ 104)
    × (t.locked ≡ false)
unfolding make_reply
thread_recv_proc_answers_example =
    thread_recv_proc_answers 50 6 96 login_message idle_sender (inr (refl, refl)) fresh login_right
      refl refl refl refl

ping_at_code_0 :
    (t : Sender) × (thread_recv_proc 50 (plain 0) idle_sender ≡ some (true, t))
    × (t.msg_list ≡ make_reply cmd_ping 0 0 stamp ∷ [])
    × ((t.conn 4).ping_update_time ≡ 50)
ping_at_code_0 =
    thread_recv_proc_code_0 50 (plain 0) idle_sender fresh plain_right refl refl refl refl
