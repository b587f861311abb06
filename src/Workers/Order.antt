-- ===== src/Workers/Order.antt =====
-- The messages of the thread pool come out in the order in which they went in.
use my_nignx.Prelude.{
  ℕ, zero, suc, ◌+◌, ◌<◌, ◌≡◌, refl, sym, ap, ◌∙◌, Bool, true, false, not, ◌&&◌, List, [], ◌∷◌,
  ◌++◌, append-nil, append_assoc, Option, none, some, arith, length, length-append, ltb,
  if◌then◌else◌, Bool-cases, inl, inr, pos, incr, decr, update,
}
use my_nignx.Conn.{Message}
use my_nignx.Workers.{
  new_thread, before_lock, in_wait, in_proc, past_loop, ThreadItem, ThreadPool, create_threads,
  in_msg_recv, get_msg_item, set_thread, take_up, pop_front, is_empty, thread_round, thread_done,
  stop_all,
}
use my_nignx.Workers.Run.{works, working, working-update, first_of, taken_by, IsOrderly}

pub receives-IsOrderly :
    (put taken : List (Option Message)) (p : ThreadPool) (m : Option Message)
    → IsOrderly put taken p
    → IsOrderly (put ++ (m ∷ [])) taken (in_msg_recv m p)
unfolding in_msg_recv
receives-IsOrderly put taken p m v = record {
  in_order = ap (λ l. l ++ (m ∷ [])) v.in_order ∙ append_assoc taken p.msgqueue (m ∷ []);
  counted = omega (arith, v.counted, length-append p.msgqueue (m ∷ []));
  busy = v.busy;
}

-- A thread that changes, and with it the number of threads that work.
thread-IsOrderly :
    (put taken : List (Option Message)) (p : ThreadPool) (i : ℕ) (w : ThreadItem)
    → i < p.create_thread
    → works w ≡ works (p.threads i)
    → IsOrderly put taken p
    → IsOrderly put taken (set_thread i w p)
thread-IsOrderly put taken p i w h e v = record {
  in_order = v.in_order;
  counted = v.counted;
  busy = v.busy ∙ ap pos (omega (arith, working-update p.threads i p.create_thread w h, e));
}

incr-pos : (n : ℕ) → incr (pos n) ≡ pos (n + 1)
incr-pos n = ground arith

popped-IsOrderly :
    (put taken : List (Option Message)) (p : ThreadPool) (i : ℕ) (q : List (Option Message))
    → p.msgqueue ≡ q
    → i < p.create_thread
    → works (p.threads i) ≡ 0
    → IsOrderly put taken p
    → IsOrderly put (taken ++ first_of q) (take_up i (pop_front q p))
popped-IsOrderly put taken p i [] e h idle v =
    let w : ThreadItem = record (p.threads i) { msg_ptr = none; place = before_lock } in
    rw (append-nil taken) (thread-IsOrderly put taken p i w h (sym idle) v)
popped-IsOrderly put taken p i (none ∷ q) e h idle v =
    let w : ThreadItem = record (p.threads i) { msg_ptr = none; place = before_lock } in
    record {
      in_order = v.in_order ∙ ap (λ l. taken ++ l) e ∙ sym (append_assoc taken (none ∷ []) q);
      counted = ground (arith, v.counted, ap length e);
      busy = v.busy ∙ ap pos (omega (arith, working-update p.threads i p.create_thread w h, idle));
    }
popped-IsOrderly put taken p i (some m ∷ q) e h idle v =
    let w : ThreadItem = record (p.threads i) { msg_ptr = some m; place = in_proc } in
    let more : working p.threads p.create_thread + 1
        ≡ working (update p.threads i w) p.create_thread =
      omega (arith, working-update p.threads i p.create_thread w h, idle) in
    record {
      in_order = v.in_order ∙ ap (λ l. taken ++ l) e ∙ sym (append_assoc taken (some m ∷ []) q);
      counted = ground (arith, v.counted, ap length e);
      busy = ap incr v.busy ∙ incr-pos (working p.threads p.create_thread) ∙ ap pos more;
    }

abbrev pub in_waiting : ThreadItem → ThreadItem
in_waiting w = record w { running = true; place = in_wait }

abbrev pub at_end : ThreadItem → ThreadItem
at_end w = record w { running = false; place = past_loop }

pub round_waits :
    (i : ℕ) (p : ThreadPool)
    → (is_empty p.msgqueue && not (p.threads i).ifshutdown) ≡ true
    → thread_round i p ≡ set_thread i (in_waiting (p.threads i)) p
unfolding thread_round
round_waits i p b = rw b

pub round_ends :
    (i : ℕ) (p : ThreadPool)
    → (is_empty p.msgqueue && not (p.threads i).ifshutdown) ≡ false
    → (p.threads i).ifshutdown ≡ true
    → thread_round i p ≡ set_thread i (at_end (p.threads i)) p
unfolding thread_round
round_ends i p b told = rw (b, told)

pub round_takes :
    (i : ℕ) (p : ThreadPool)
    → (is_empty p.msgqueue && not (p.threads i).ifshutdown) ≡ false
    → (p.threads i).ifshutdown ≡ false
    → thread_round i p ≡ take_up i (pop_front p.msgqueue p)
unfolding thread_round get_msg_item
round_takes i p b go = rw (b, go)

nothing_first : (q : List (Option Message)) (b : Bool) → (is_empty q && b) ≡ true → first_of q ≡ []
nothing_first [] b e = refl
nothing_first (m ∷ q) b e = absurd (ground arith)

pub taken_waiting :
    (i : ℕ) (p : ThreadPool)
    → (is_empty p.msgqueue && not (p.threads i).ifshutdown) ≡ true
    → taken_by i p ≡ []
taken_waiting i p b = ground (arith, nothing_first p.msgqueue (not (p.threads i).ifshutdown) b)

pub taken_ending : (i : ℕ) (p : ThreadPool) → (p.threads i).ifshutdown ≡ true → taken_by i p ≡ []
taken_ending i p told = rw told

pub taken_taking :
    (i : ℕ) (p : ThreadPool) → (p.threads i).ifshutdown ≡ false → taken_by i p ≡ first_of p.msgqueue
taken_taking i p go = rw go

pub round-IsOrderly :
    (put taken : List (Option Message)) (p : ThreadPool) (i : ℕ)
    → i < p.create_thread
    → works (p.threads i) ≡ 0
    → IsOrderly put taken p
    → IsOrderly put (taken ++ taken_by i p) (thread_round i p)
round-IsOrderly put taken p i h idle v =
    elim (Bool-cases (is_empty p.msgqueue && not (p.threads i).ifshutdown)) [
      | inl b ↦
          rw (taken_waiting i p b, round_waits i p b, append-nil taken)
            (thread-IsOrderly put taken p i (in_waiting (p.threads i)) h (sym idle) v)
      | inr b ↦ elim (Bool-cases (p.threads i).ifshutdown) [
        | inl told ↦
            rw (taken_ending i p told, round_ends i p b told, append-nil taken)
              (thread-IsOrderly put taken p i (at_end (p.threads i)) h (sym idle) v)
        | inr go ↦
            rw (taken_taking i p go, round_takes i p b go)
              (popped-IsOrderly put taken p i p.msgqueue refl h idle v)
      ]
    ]

pub done-IsOrderly :
    (put taken : List (Option Message)) (p : ThreadPool) (i : ℕ)
    → i < p.create_thread
    → works (p.threads i) ≡ 1
    → IsOrderly put taken p
    → IsOrderly put taken (thread_done i p)
unfolding thread_done
done-IsOrderly put taken p i h busy v =
    let w : ThreadItem = record (p.threads i) { msg_ptr = none; place = before_lock } in
    let less : working p.threads p.create_thread
        ≡ suc (working (update p.threads i w) p.create_thread) =
      omega (arith, working-update p.threads i p.create_thread w h, busy) in
    record {
      in_order = v.in_order;
      counted = v.counted;
      busy = ap decr (v.busy ∙ ap pos less) ∙ ground arith;
    }

-- Told to end, the threads still do what they did.
working-told :
    (f : ℕ → ThreadItem) (m n : ℕ)
    → working (λ i. if ltb i m then record (f i) { ifshutdown = true } else f i) n ≡ working f n
working-told f m zero = refl
working-told f m (suc n) = elim (Bool-cases (ltb n m)) [
  | inl b ↦ rw b (ap (λ k. works (f n) + k) (working-told f m n))
  | inr b ↦ rw b (ap (λ k. works (f n) + k) (working-told f m n))
]

pub stop-IsOrderly :
    (put taken : List (Option Message)) (p : ThreadPool)
    → IsOrderly put taken p
    → IsOrderly put taken (stop_all p).1
unfolding stop_all
stop-IsOrderly put taken p v = elim (Bool-cases p.shutdown) [
  | inl again ↦ rw again (record { in_order = v.in_order; counted = v.counted; busy = v.busy })
  | inr first ↦ rw first (record {
    in_order = v.in_order;
    counted = v.counted;
    busy = v.busy ∙ ap pos (sym (working-told p.threads p.create_thread p.create_thread));
  })
]

pub create-IsOrderly : (n : ℕ) → IsOrderly [] [] (create_threads n)
create-IsOrderly n =
    unfold create_threads in
    (record { in_order = refl; counted = refl; busy = ap pos (sym (none_at_first n)) })
  where
    none_at_first : (n : ℕ) → working (λ i. new_thread) n ≡ 0
    none_at_first zero = refl
    none_at_first (suc n) = omega (arith, none_at_first n)
