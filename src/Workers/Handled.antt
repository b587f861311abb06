-- ===== src/Workers/Handled.antt =====
-- What the threads of the pool hand to `ThreadRecvProc`.
use my_nignx.Prelude.{
  ℕ, ◌≡◌, refl, sym, ap, ◌∙◌, not, ◌&&◌, List, [], ◌∷◌, ◌++◌, Option, none, some, Bool-cases, inl,
  inr, ==_refl,
}
use my_nignx.Conn.{Message}
use my_nignx.Workers.{ThreadPool, pop_front, take_up, is_empty, thread_round}
use my_nignx.Workers.Run.{
  first_of, taken_by, messages, in_hand, Run, created, receives, goes_round, is_done, stops,
  IsOrderly, IsHandled,
}
use my_nignx.Workers.Order.{
  round_waits, round_ends, round_takes, taken_waiting, taken_ending, taken_taking, create-IsOrderly,
  receives-IsOrderly, round-IsOrderly, done-IsOrderly, stop-IsOrderly,
}

messages-append : (xs ys : List (Option Message)) → messages (xs ++ ys) ≡ messages xs ++ messages ys
messages-append [] ys = refl
messages-append (none ∷ xs) ys = messages-append xs ys
messages-append (some m ∷ xs) ys = ap (◌∷◌ m) (messages-append xs ys)

popped_in_hand :
    (i : ℕ) (p : ThreadPool) (q : List (Option Message))
    → in_hand ((take_up i (pop_front q p)).threads i) ≡ messages (first_of q)
popped_in_hand i p [] = rw (==_refl i) refl
popped_in_hand i p (none ∷ q) = rw (==_refl i) refl
popped_in_hand i p (some m ∷ q) = rw (==_refl i) refl

-- What leaves the queue in a thread's round is in the thread's hands.
round_in_hand :
    (i : ℕ) (p : ThreadPool) → in_hand ((thread_round i p).threads i) ≡ messages (taken_by i p)
round_in_hand i p = elim (Bool-cases (is_empty p.msgqueue && not (p.threads i).ifshutdown)) [
  | inl b ↦ rw (round_waits i p b, taken_waiting i p b, ==_refl i) refl
  | inr b ↦ elim (Bool-cases (p.threads i).ifshutdown) [
    | inl told ↦ rw (round_ends i p b told, taken_ending i p told, ==_refl i) refl
    | inr go ↦ rw (round_takes i p b go, taken_taking i p go) (popped_in_hand i p p.msgqueue)
  ]
]

Run-IsOrderly :
    (put : List (Option Message)) (handled : List Message) (p : ThreadPool)
    → Run put handled p
    → (taken : List (Option Message)) × (messages taken ≡ handled) × IsOrderly put taken p
Run-IsOrderly _ _ _ (created n) = ([], refl, create-IsOrderly n)
Run-IsOrderly _ handled _ (receives put _ p m r) =
    let (t, e, v) = Run-IsOrderly put handled p r in (t, e, receives-IsOrderly put t p m v)
Run-IsOrderly put _ _ (goes_round _ handled p i h idle on r) =
    let (t, e, v) = Run-IsOrderly put handled p r in
    (
      t ++ taken_by i p,
      messages-append t (taken_by i p)
          ∙ ap (λ l. l ++ messages (taken_by i p)) e
          ∙ ap (λ l. handled ++ l) (sym (round_in_hand i p)),
      round-IsOrderly put t p i h idle v,
    )
Run-IsOrderly put handled _ (is_done _ _ p i h busy r) =
    let (t, e, v) = Run-IsOrderly put handled p r in (t, e, done-IsOrderly put t p i h busy v)
Run-IsOrderly put handled _ (stops _ _ p r) =
    let (t, e, v) = Run-IsOrderly put handled p r in (t, e, stop-IsOrderly put t p v)

-- Whatever clients and threads do, and in whatever order: the messages put into the queue, the null
-- ones aside, are those that the threads have handed to `ThreadRecvProc`, in the same order, followed by
-- those still in the queue; so none is lost, handled twice or overtaken on its way to a thread. The size
-- counter is the length of the queue, and the counter of running threads is the number of threads that
-- work on a message.
pub Run-IsHandled :
    (put : List (Option Message)) (handled : List Message) (p : ThreadPool)
    → Run put handled p
    → IsHandled put handled p
Run-IsHandled put handled p r =
    let (t, e, v) = Run-IsOrderly put handled p r in
    record {
      in_order =
          ap messages v.in_order
          ∙ messages-append t p.msgqueue
          ∙ ap (λ l. l ++ messages p.msgqueue) e;
      counted = v.counted;
      busy = v.busy;
    }
