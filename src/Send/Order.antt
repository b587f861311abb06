-- ===== src/Send/Order.antt =====
-- What the send thread puts on the wire: packets whole, one after the other, in the order of the
-- queue.
use my_nignx.Prelude.{
  ℕ, ◌+◌, ◌≡◌, refl, ap, ◌∙◌, inl, inr, Bool, true, false, List, [], ◌∷◌, ◌++◌, append_assoc, ◌==◌,
  if◌then◌else◌, Bool-cases, ==_iff,
}
use my_nignx.Conn.{Connection, Message, judge_outdate}
use my_nignx.Send.{
  SendOutcome, Sender, Fate, stays, goes, thread_ends, send_message, Looped, after_fate, send_loop,
  send_pass,
}
use my_nignx.Send.Wire.{
  Succeeds, packet, is_busy, current, queued_for, pending, not-busy, to, AllFresh, NonNeg,
  AllFresh-stamps, Transmitted, transmit-Transmitted,
}

module _ (outs : ℕ → SendOutcome) (ok : (i : ℕ) → Succeeds (outs i)) where
  busy_message :
      (i : ℕ) (m : Message) (s : Sender)
      → judge_outdate (s.conn (to m)) m.header.msg_cursequence ≡ true
      → is_busy (s.conn (to m)) ≡ true
      → send_message (outs i) m s ≡ (stays, s)
  unfolding send_message
  busy_message i m s fresh busy = rw (fresh, busy)

  idle_message :
      (i : ℕ) (m : Message) (s : Sender)
      → judge_outdate (s.conn (to m)) m.header.msg_cursequence ≡ true
      → is_busy (s.conn (to m)) ≡ false
      → NonNeg s
      → let (fate, t) = send_message (outs i) m s in Transmitted (outs i) m s fate t
  unfolding send_message
  idle_message i m s fresh idle nn =
      rw (fresh, idle)
        (transmit-Transmitted (outs i) m s (ok i)
          (not-busy (s.conn (to m)).throwsend_count (nn (to m)) idle))

  -- How the loop leaves the wire of one connection and what is to come on it.
  abbrev Conserves : ℕ → Sender → List Message → List Message × Bool × Sender → Type 0
  Conserves k s ms r = r.2.wire k ++ pending k r.2 r.0 ≡ s.wire k ++ pending k s ms

  -- A busy connection is left alone.
  record Frozen (k : ℕ) (s : Sender) (ms : List Message) (r : List Message × Bool × Sender)
      : Type 0 where
    wire_same : r.2.wire k ≡ s.wire k
    conn_same : r.2.conn k ≡ s.conn k
    queue_same : queued_for k r.0 ≡ queued_for k ms

  busy-ne-idle :
      (conn : ℕ → Connection) (j k : ℕ)
      → is_busy (conn k) ≡ true
      → is_busy (conn j) ≡ false
      → (j == k) ≡ false
  busy-ne-idle conn j k busy idle = elim (Bool-cases (j == k)) [
    | inl same ↦ cc (rw ((==_iff j k).0 same) at idle)
    | inr other ↦ other
  ]

  Frozen-after :
      (k : ℕ) (fate : Fate) (m : Message) (ms : List Message) (s t : Sender) (r : Looped) (i : ℕ)
      → (to m == k) ≡ false
      → Transmitted (outs i) m s fate t
      → Frozen k t ms r
      → Frozen k s (m ∷ ms) (after_fate fate m ms t r)
  Frozen-after k stays m ms s t r i ne v ih = absurd (v.not_kept refl)
  Frozen-after k goes m ms s t r i ne v ih = record {
    wire_same = ih.wire_same ∙ (v.others k ne).0;
    conn_same = ih.conn_same ∙ (v.others k ne).1;
    queue_same = rw ne ih.queue_same;
  }
  Frozen-after k thread_ends m ms s t r i ne v ih = record {
    wire_same = (v.others k ne).0;
    conn_same = (v.others k ne).1;
    queue_same = rw ne;
  }

  loop-Frozen :
      (k i : ℕ) (ms : List Message) (s : Sender)
      → AllFresh s.conn ms
      → NonNeg s
      → is_busy (s.conn k) ≡ true
      → Frozen k s ms (send_loop outs i ms s)
  unfolding send_loop
  loop-Frozen k i [] s f nn busy = record { wire_same = refl; conn_same = refl; queue_same = refl }
  loop-Frozen k i (m ∷ ms) s f nn busy = elim (Bool-cases (is_busy (s.conn (to m)))) [
    | inl full ↦
        let ih = loop-Frozen k (i + 1) ms s f.1 nn busy in
        rw (send_loop, busy_message i m s f.0 full)
          (record {
            wire_same = ih.wire_same;
            conn_same = ih.conn_same;
            queue_same = ap (λ q. if to m == k then packet m ++ q else q) ih.queue_same;
          })
    | inr idle ↦
        let v = idle_message i m s f.0 idle nn in
        let t = (send_message (outs i) m s).1 in
        let ne = busy-ne-idle s.conn (to m) k busy idle in
        Frozen-after k (send_message (outs i) m s).0 m ms s t (send_loop outs (i + 1) ms t) i ne v (
          loop-Frozen k (i + 1) ms t (AllFresh-stamps s.conn t.conn ms v.stamps f.1)
            (λ j. (v.stamps j).nonneg (nn j)) (ap is_busy (v.others k ne).1 ∙ busy))
  ]

  took_one :
      (k : ℕ) (m : Message) (ms : List Message) (s t : Sender) (i : ℕ) {fate : Fate}
      → is_busy (s.conn (to m)) ≡ false
      → Transmitted (outs i) m s fate t
      → t.wire k ++ pending k t ms ≡ s.wire k ++ pending k s (m ∷ ms)
  took_one k m ms s t i idle v = elim (Bool-cases (to m == k)) [
    | inl own ↦
        let e = (==_iff (to m) k).0 own in
        let z = rw e at v.own in
        let none_now : current (s.conn k) ≡ [] = rw ((rw e at idle)) in
        rw (own, none_now, ← append_assoc, z) (append_assoc (s.wire k) (packet m) (queued_for k ms))
    | inr other ↦ rw (other, (v.others k other).0, (v.others k other).1)
  ]

  Conserves-after :
      (k : ℕ) (fate : Fate) (m : Message) (ms : List Message) (s t : Sender) (r : Looped) (i : ℕ)
      → is_busy (s.conn (to m)) ≡ false
      → Transmitted (outs i) m s fate t
      → Conserves k t ms r
      → Conserves k s (m ∷ ms) (after_fate fate m ms t r)
  Conserves-after k stays m ms s t r i idle v ih = absurd (v.not_kept refl)
  Conserves-after k goes m ms s t r i idle v ih = ih ∙ took_one k m ms s t i idle v
  Conserves-after k thread_ends m ms s t r i idle v ih = took_one k m ms s t i idle v

  loop-Conserves :
      (k i : ℕ) (ms : List Message) (s : Sender)
      → AllFresh s.conn ms
      → NonNeg s
      → Conserves k s ms (send_loop outs i ms s)
  unfolding send_loop
  loop-Conserves k i [] s f nn = refl
  loop-Conserves k i (m ∷ ms) s f nn = elim (Bool-cases (is_busy (s.conn (to m)))) [
    | inl full ↦
        rw (send_loop, busy_message i m s f.0 full)
          (elim (Bool-cases (to m == k)) [
            | inl own ↦
                let z = loop-Frozen k (i + 1) ms s f.1 nn (rw ((==_iff (to m) k).0 own) at full) in
                rw (own, z.wire_same, z.conn_same, z.queue_same)
            | inr other ↦ rw other (loop-Conserves k (i + 1) ms s f.1 nn)
          ])
    | inr idle ↦
        let v = idle_message i m s f.0 idle nn in
        let t = (send_message (outs i) m s).1 in
        Conserves-after k (send_message (outs i) m s).0 m ms s t (send_loop outs (i + 1) ms t) i
          idle v
          (loop-Conserves k (i + 1) ms t (AllFresh-stamps s.conn t.conn ms v.stamps f.1)
            (λ j. (v.stamps j).nonneg (nn j)))
  ]

  -- As long as every queued message is fresh, no `iThrowsendCount` is negative and no call of `send`
  -- fails, a pass of the send thread loses, repeats and mixes nothing: for each connection the bytes
  -- on the wire, followed by what is left of the packet under way and by the packets queued, are the
  -- same before and after.
  pub send_pass-Conserves :
      (k : ℕ) (s : Sender)
      → AllFresh s.conn s.msg_list
      → NonNeg s
      → let (alive, t) = send_pass outs s in
        t.wire k ++ pending k t t.msg_list ≡ s.wire k ++ pending k s s.msg_list
  unfolding send_pass
  send_pass-Conserves k s f nn = loop-Conserves k 0 s.msg_list s f nn
