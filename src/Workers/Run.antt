-- ===== src/Workers/Run.antt =====
-- The runs of the thread pool, and the number of threads that work.
use my_nignx.Prelude.{
  ℕ, zero, suc, ◌+◌, ◌≤◌, ◌<◌, ◌≡◌, ◌≢◌, refl, ap, false, List, [], ◌∷◌, ◌++◌, Option, none, some,
  arith, length, ◌==◌, if◌then◌else◌, Bool-cases, inl, inr, pos, update,
}
use my_nignx.Conn.{Message}
use my_nignx.Workers.{
  before_lock, in_wait, in_proc, past_loop, ThreadItem, ThreadPool, create_threads, in_msg_recv,
  thread_round, thread_done, stop_all,
}

abbrev pub works : ThreadItem → ℕ
works w = elim w.place [ before_lock ↦ 0 | in_wait ↦ 0 | in_proc ↦ 1 | past_loop ↦ 0 ]

abbrev pub working : (ℕ → ThreadItem) → ℕ → ℕ
working f zero = 0
working f (suc n) = works (f n) + working f n

working-above :
    (f : ℕ → ThreadItem) (i n : ℕ) (w : ThreadItem) → n ≤ i → working (update f i w) n ≡ working f n
working-above f i zero w h = refl
working-above f i (suc n) w h =
    let ne : (i == n) ≡ false = ground arith in
    rw ne (ap (λ k. works (f n) + k) (working-above f i n w (omega arith)))

pub working-update :
    (f : ℕ → ThreadItem) (i n : ℕ) (w : ThreadItem)
    → i < n
    → working (update f i w) n + works (f i) ≡ working f n + works w
working-update f i zero w h = absurd (omega arith)
working-update f i (suc n) w h = elim (Bool-cases (i == n)) [
  | inl same ↦
      let e : i ≡ n = ground arith in
      let a = working-above f i n w (omega arith) in
      let e' : works (f i) ≡ works (f n) = ap (λ k. works (f k)) e in rw same (omega (arith, a, e'))
  | inr other ↦ let ih = working-update f i n w (ground arith) in rw other (omega (arith, ih))
]

-- What a thread's round takes out of the queue.
abbrev pub first_of : List (Option Message) → List (Option Message)
first_of [] = []
first_of (m ∷ ms) = m ∷ []

abbrev pub taken_by : ℕ → ThreadPool → List (Option Message)
taken_by i p = if (p.threads i).ifshutdown then [] else first_of p.msgqueue

-- The messages of a queue, without the null ones.
abbrev pub messages : List (Option Message) → List Message
messages [] = []
messages (none ∷ ms) = messages ms
messages (some m ∷ ms) = m ∷ messages ms

abbrev pub held : Option Message → List Message
held none = []
held (some m) = m ∷ []

-- What a thread hands to `ThreadRecvProc`.
abbrev pub in_hand : ThreadItem → List Message
in_hand w = elim w.place [
  | before_lock ↦ []
  | in_wait ↦ []
  | in_proc ↦ held w.msg_ptr
  | past_loop ↦ []
]

-- A run of the pool: what was put in so far, and what the threads have handed to `ThreadRecvProc`, in
-- the order in which they did.
pub data Run : List (Option Message) → List Message → ThreadPool → Type 0 where
  created : (n : ℕ) → Run [] [] (create_threads n)
  receives :
      (put : List (Option Message)) (handled : List Message) (p : ThreadPool) (m : Option Message)
      → Run put handled p
      → Run (put ++ (m ∷ [])) handled (in_msg_recv m p)
  goes_round :
      (put : List (Option Message)) (handled : List Message) (p : ThreadPool) (i : ℕ)
      → i < p.create_thread
      → works (p.threads i) ≡ 0
      → (p.threads i).place ≢ past_loop
      → Run put handled p
      → Run put (handled ++ in_hand ((thread_round i p).threads i)) (thread_round i p)
  is_done :
      (put : List (Option Message)) (handled : List Message) (p : ThreadPool) (i : ℕ)
      → i < p.create_thread
      → works (p.threads i) ≡ 1
      → Run put handled p
      → Run put handled (thread_done i p)
  stops :
      (put : List (Option Message)) (handled : List Message) (p : ThreadPool)
      → Run put handled p
      → Run put handled (stop_all p).1

-- `taken` is what has left the queue.
pub record IsOrderly (put taken : List (Option Message)) (p : ThreadPool) : Type 0 where
  pub in_order : put ≡ taken ++ p.msgqueue
  pub counted : p.msgqueue_size ≡ length p.msgqueue
  pub busy : p.running_thread ≡ pos (working p.threads p.create_thread)

pub record IsHandled (put : List (Option Message)) (handled : List Message) (p : ThreadPool)
    : Type 0 where
  pub in_order : messages put ≡ handled ++ messages p.msgqueue
  pub counted : p.msgqueue_size ≡ length p.msgqueue
  pub busy : p.running_thread ≡ pos (working p.threads p.create_thread)
