-- ===== src/Process/Threads.antt =====
-- The threads of the pool keep the messages in their hands in order.
use my_nignx.Prelude.{
  Every, tail-Every, All, ℕ, ◌<◌, ◌≡◌, refl, not, ◌&&◌, List, [], ◌∷◌, Option, none, some, length,
  ◌==◌, Bool-cases, inl, inr,
}
use mathlib.Core.Path.{subst}
use my_nignx.Conn.{Message}
use my_nignx.Workers.{
  ThreadItem, before_lock, in_proc, ThreadPool, set_thread, pop_front, take_up, is_empty,
  thread_round, thread_done,
}
use my_nignx.Workers.Run.{works, IsOrderly, taken_by}
use my_nignx.Workers.Order.{
  in_waiting, at_end, round_waits, round_ends, round_takes, round-IsOrderly, done-IsOrderly,
}
use my_nignx.Process.Pointers.{NamesIn}
use my_nignx.Process.Worlds.{AreAtWork}

module _ (n : ℕ) where
  abbrev AreInHand : ThreadPool → Type 0
  AreInHand p = (j : ℕ) → All (NamesIn n) (p.threads j).msg_ptr

  set-AreInHand :
      (i : ℕ) (w : ThreadItem) (p : ThreadPool)
      → All (NamesIn n) w.msg_ptr
      → AreInHand p
      → AreInHand (set_thread i w p)
  set-AreInHand i w p h v j = elim (Bool-cases (i == j)) [
    | inl same ↦ rw same h
    | inr other ↦ rw other (v j)
  ]

  take-AreInHand :
      (i : ℕ) (q : List (Option Message)) (p : ThreadPool)
      → Every (All (NamesIn n)) q
      → AreInHand p
      → AreInHand (take_up i (pop_front q p))
  take-AreInHand i [] p h v =
      set-AreInHand i (record (p.threads i) { msg_ptr = none; place = before_lock }) p tt v
  take-AreInHand i (none ∷ q) p h v =
      set-AreInHand i (record (p.threads i) { msg_ptr = none; place = before_lock }) p tt v
  take-AreInHand i (some m ∷ q) p h v =
      set-AreInHand i (record (p.threads i) { msg_ptr = some m; place = in_proc }) p h.0 v

  round-AreInHand :
      (i : ℕ) (p : ThreadPool)
      → Every (All (NamesIn n)) p.msgqueue
      → AreInHand p
      → AreInHand (thread_round i p)
  round-AreInHand i p h v =
      elim (Bool-cases (is_empty p.msgqueue && not (p.threads i).ifshutdown)) [
        | inl b ↦ rw (round_waits i p b) (set-AreInHand i (in_waiting (p.threads i)) p (v i) v)
        | inr b ↦ elim (Bool-cases (p.threads i).ifshutdown) [
          | inl told ↦ rw (round_ends i p b told) (set-AreInHand i (at_end (p.threads i)) p (v i) v)
          | inr go ↦ rw (round_takes i p b go) (take-AreInHand i p.msgqueue p h v)
        ]
      ]

  -- The pool as it is, with nothing put in or taken out.
  resting :
      (p : ThreadPool)
      → p.msgqueue_size ≡ length p.msgqueue
      → AreAtWork n p
      → IsOrderly p.msgqueue [] p
  resting p counted v = record { in_order = refl; counted = counted; busy = v.busy }

  pub round-at_work :
      (i : ℕ) (p : ThreadPool)
      → i < p.create_thread
      → works (p.threads i) ≡ 0
      → p.msgqueue_size ≡ length p.msgqueue
      → AreAtWork n p
      → ((thread_round i p).msgqueue_size ≡ length (thread_round i p).msgqueue)
        × AreAtWork n (thread_round i p)
  round-at_work i p h idle counted v =
      let o = round-IsOrderly p.msgqueue [] p i h idle (resting p counted v) in
      (
        o.counted,
        record {
          queued =
              tail-Every (All (NamesIn n)) (taken_by i p) (thread_round i p).msgqueue
                (subst (Every (All (NamesIn n))) o.in_order v.queued);
          in_hand = round-AreInHand i p v.queued v.in_hand;
          busy = o.busy;
        },
      )

  pub done-at_work :
      (i : ℕ) (p : ThreadPool)
      → i < p.create_thread
      → works (p.threads i) ≡ 1
      → p.msgqueue_size ≡ length p.msgqueue
      → AreAtWork n p
      → ((thread_done i p).msgqueue_size ≡ length (thread_done i p).msgqueue)
        × AreAtWork n (thread_done i p)
  unfolding thread_done
  done-at_work i p h busy counted v =
      let o = done-IsOrderly p.msgqueue [] p i h busy (resting p counted v) in
      (
        o.counted,
        record {
          queued = v.queued;
          in_hand =
              set-AreInHand i (record (p.threads i) { msg_ptr = none; place = before_lock }) p tt
                v.in_hand;
          busy = o.busy;
        },
      )
