-- ===== src/Send/Tests.antt =====
-- The send queue of net/c_socket.cxx and the send thread at a concrete state.
use my_nignx.Prelude.{ℕ, ◌≡◌, refl, arith, false, [], ◌∷◌, ◌++◌, none, some, pos}
use my_nignx.Conn.{Message, judge_outdate, through_int}
use my_nignx.Send.{
  SendOutcome, took, again, interrupted, Sender, sendproc, transmit, msg_send_in_queue, send_pass,
}
use my_nignx.Send.Queue.{msg_send_in_queue_lem, msg_send_in_queue_congested}
use my_nignx.Send.Wire.{AllFresh, pending}
use my_nignx.Send.Order.{send_pass-Conserves}
use my_nignx.Send.Writable.{writes}
use my_nignx.Send.Packet.{IsSent, transmit-writes}
use my_nignx.Pool.{new_connection}

abbrev reply : Message
reply = record {
  header = record { lp_curconn = 4; msg_cursequence = 1 };
  pkg = 0 ∷ 8 ∷ 0 ∷ 1 ∷ 0 ∷ 0 ∷ 0 ∷ 0 ∷ 0 ∷ [];
}

abbrev quiet_sender : Sender
quiet_sender = record {
  conn = λ k. record new_connection { fd = pos 9; sequence = 1; sendlen_suppose = 8 };
  msg_list = [];
  msgtosend_count = pos 0;
  sendsem = 0;
  locked = false;
  wire = λ k. [];
}

msg_send_in_queue_lem_sample :
    (t : Sender) × (msg_send_in_queue reply quiet_sender ≡ some t)
    × (t.msg_list ≡ reply ∷ [])
    × (t.msgtosend_count ≡ pos 1)
    × ((t.conn 4).isend_count ≡ pos 1)
    × (t.sendsem ≡ 1)
    × (t.locked ≡ false)
msg_send_in_queue_lem_sample = msg_send_in_queue_lem reply quiet_sender refl refl

abbrev full_sender : Sender
full_sender = record quiet_sender { msgtosend_count = pos 1001 }

msg_send_in_queue_congested_example :
    (t : Sender) × (msg_send_in_queue reply full_sender ≡ some t)
    × (t.msg_list ≡ [])
    × (msg_send_in_queue reply t ≡ none)
msg_send_in_queue_congested_example = msg_send_in_queue_congested reply reply full_sender refl refl

-- Two replies, the first of which finds room for five bytes only.
abbrev two_queued : Sender
two_queued = record quiet_sender { msg_list = reply ∷ reply ∷ []; msgtosend_count = pos 2 }

abbrev five_bytes : ℕ → SendOutcome
five_bytes i = took 4

two_queued-AllFresh : AllFresh two_queued.conn two_queued.msg_list
unfolding judge_outdate through_int
two_queued-AllFresh = (refl, (refl, tt))

send_pass-Conserves_example :
    let (alive, t) = send_pass five_bytes two_queued in
    t.wire 4 ++ pending 4 t t.msg_list
    ≡ two_queued.wire 4 ++ pending 4 two_queued two_queued.msg_list
send_pass-Conserves_example =
    send_pass-Conserves five_bytes (λ i. tt) 4 two_queued two_queued-AllFresh (λ k. refl)

-- Five bytes go out at once, and the three others in three calls, with a full buffer in between.
transmit-writes_example : IsSent reply 5 quiet_sender (
    writes
      (took 0 ∷ again ∷ took 0 ∷ interrupted (took 9) ∷ [])
      4
      (transmit (took 4) reply quiet_sender).1)
unfolding sendproc
transmit-writes_example =
    transmit-writes (took 4) (took 0 ∷ again ∷ took 0 ∷ interrupted (took 9) ∷ []) 5 reply
      quiet_sender tt (tt, (tt, (tt, (tt, tt)))) refl refl refl (omega arith) (omega arith)
