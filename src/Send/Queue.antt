-- ===== src/Send/Queue.antt =====
-- The queue of messages to send: net/c_socket.cxx, `MsgSendInQueue`.
use my_nignx.Prelude.{
  ◌+◌, ◌≡◌, refl, Bool, true, false, ◌||◌, [], ◌∷◌, ◌++◌, none, some, arith, pos, incr, ltb_ℤ,
}
use my_nignx.Conn.{Message}
use my_nignx.Send.{Sender, enqueued, msg_send_in_queue}

abbrev pub is_congested : Sender → Message → Bool
is_congested s m =
    ltb_ℤ (pos 1000) s.msgtosend_count || ltb_ℤ (pos 400) (s.conn m.header.lp_curconn).isend_count

-- While the mutex is free and neither the queue nor the connection is congested, a message goes to
-- the end of the queue, it is counted once for the queue and once for its connection, the send
-- thread is woken once, and the mutex is free again.
pub msg_send_in_queue_lem :
    (m : Message) (s : Sender)
    → s.locked ≡ false
    → is_congested s m ≡ false
    → (t : Sender) × (msg_send_in_queue m s ≡ some t)
      × (t.msg_list ≡ s.msg_list ++ (m ∷ []))
      × (t.msgtosend_count ≡ incr s.msgtosend_count)
      × ((t.conn m.header.lp_curconn).isend_count ≡ incr (s.conn m.header.lp_curconn).isend_count)
      × (t.sendsem ≡ s.sendsem + 1)
      × (t.locked ≡ false)
unfolding msg_send_in_queue
msg_send_in_queue_lem m s free calm =
    (enqueued m s, rw (free, calm), refl, refl, ground arith, refl, free)

-- A message that is dropped for congestion leaves the mutex locked: no later call returns.
pub msg_send_in_queue_congested :
    (m later : Message) (s : Sender)
    → s.locked ≡ false
    → is_congested s m ≡ true
    → (t : Sender) × (msg_send_in_queue m s ≡ some t)
      × (t.msg_list ≡ s.msg_list)
      × (msg_send_in_queue later t ≡ none)
unfolding msg_send_in_queue
msg_send_in_queue_congested m later s free full =
    (record s { locked = true }, ground arith, refl, refl)
