-- ===== src/Cycle/Settled.antt =====
-- The threads of the pool after `Create`: each has come to its first wait.
use my_nignx.Prelude.{
  Every, ℕ, zero, suc, ◌+◌, ◌<◌, ◌≤◌, ◌≡◌, ◌≢◌, refl, sym, ap, ◌∙◌, true, false, ◌||◌, List, [],
  ◌∷◌, arith, length, contains, Bool-cases, inl, inr, ◌==◌, update,
}
use mathlib.Core.Path.{subst}
use my_nignx.Pool.{Pool}
use my_nignx.Accept.{Server}
use my_nignx.Workers.{past_loop, ThreadPool, create_threads, set_thread, is_empty, thread_round}
use my_nignx.Workers.Run.{works}
use my_nignx.Workers.Order.{in_waiting, round_waits}
use my_nignx.Process.{Process, with_workers, started, goes_round, Reached, moves}
use my_nignx.Cycle.{settled}

-- No thread has a message, was told to end or has ended, and no message waits.
pub record IsIdle (p : ThreadPool) : Type 0 where
  pub no_message : p.msgqueue ≡ []
  pub not_told : (i : ℕ) → (p.threads i).ifshutdown ≡ false
  pub not_working : (i : ℕ) → works (p.threads i) ≡ 0
  pub not_ended : (i : ℕ) → (p.threads i).place ≢ past_loop

create-IsIdle : (n : ℕ) → IsIdle (create_threads n)
unfolding create_threads
create-IsIdle n = record {
  no_message = refl;
  not_told = λ i. refl;
  not_working = λ i. refl;
  not_ended = λ i e. cc;
}

-- What a round of an idle pool does.
idle_round :
    (i : ℕ) (p : ThreadPool)
    → IsIdle p
    → thread_round i p ≡ set_thread i (in_waiting (p.threads i)) p
idle_round i p v =
    let none_there : is_empty p.msgqueue ≡ true = rw (v.no_message) refl in
    round_waits i p (rw (none_there, v.not_told i) refl)

waiting-IsIdle :
    (i : ℕ) (p : ThreadPool) → IsIdle p → IsIdle (set_thread i (in_waiting (p.threads i)) p)
waiting-IsIdle i p v = record {
  no_message = v.no_message;
  not_told = λ j. told j;
  not_working = λ j. working j;
  not_ended = λ j. on j;
}
  where
    told : (j : ℕ) → (update p.threads i (in_waiting (p.threads i)) j).ifshutdown ≡ false
    told j = elim (Bool-cases (i == j)) [
      | inl same ↦ rw same (v.not_told i)
      | inr other ↦ rw other (v.not_told j)
    ]

    working : (j : ℕ) → works (update p.threads i (in_waiting (p.threads i)) j) ≡ 0
    working j = elim (Bool-cases (i == j)) [
      | inl same ↦ rw same refl
      | inr other ↦ rw other (v.not_working j)
    ]

    on : (j : ℕ) → (update p.threads i (in_waiting (p.threads i)) j).place ≢ past_loop
    on j = elim (Bool-cases (i == j)) [
      | inl same ↦ rw same (λ e. cc)
      | inr other ↦ rw other (v.not_ended j)
    ]

-- A process whose threads have all come to their wait.
pub record IsSettled (ts : List ℕ) (p q : Process) : Type 0 where
  pub is_reached : Reached q
  pub same_number : q.world.workers.create_thread ≡ p.world.workers.create_thread
  pub all_run :
      (t : ℕ)
      → ((p.world.workers.threads t).running || contains t ts) ≡ true
      → (q.world.workers.threads t).running ≡ true

settled-IsSettled :
    (ts : List ℕ) (p : Process)
    → Reached p
    → IsIdle p.world.workers
    → Every (λ t. t < p.world.workers.create_thread) ts
    → IsSettled ts p (settled ts p)
settled-IsSettled [] p r v h = record {
  is_reached = r;
  same_number = refl;
  all_run = λ t e. ground arith;
}
settled-IsSettled (t ∷ ts) p r v h =
    let w = p.world.workers in
    let q = with_workers (thread_round t) p in
    let e = idle_round t w v in
    let m = moves p q r (goes_round t h.0 (v.not_working t) (v.not_ended t)) in
    let number : q.world.workers.create_thread ≡ w.create_thread = ap (λ x. x.create_thread) e in
    let h' : Every (λ u. u < q.world.workers.create_thread) ts =
      subst (λ n. Every (λ u. u < n) ts) (sym number) h.1 in
    let ih = settled-IsSettled ts q m (subst IsIdle (sym e) (waiting-IsIdle t w v)) h' in
    record {
      is_reached = ih.is_reached;
      same_number = ih.same_number ∙ number;
      all_run =
          λ u on. ih.all_run u (ap (λ x. (x.threads u).running || contains u ts) e ∙ either u on);
    }
  where
    either :
        (u : ℕ)
        → ((p.world.workers.threads u).running || contains u (t ∷ ts)) ≡ true
        → ((update p.world.workers.threads t (in_waiting (p.world.workers.threads t)) u).running
            || contains u ts)
          ≡ true
    either u on = elim (Bool-cases (t == u)) [
      | inl same ↦ rw same refl
      | inr other ↦ rw other (rw other at on)
    ]

-- The numbers of `n` threads from `i` on.
abbrev pub numbers_from : ℕ → ℕ → List ℕ
numbers_from i zero = []
numbers_from i (suc n) = i ∷ numbers_from (i + 1) n

pub length-numbers_from : (n i : ℕ) → length (numbers_from i n) ≡ n
length-numbers_from zero i = refl
length-numbers_from (suc n) i = omega (arith, length-numbers_from n (i + 1))

numbers_below : (n i m : ℕ) → i + n ≤ m → Every (λ t. t < m) (numbers_from i n)
numbers_below zero i m h = tt
numbers_below (suc n) i m h = (omega arith, numbers_below n (i + 1) m (omega arith))

contains-numbers_from : (n i t : ℕ) → i ≤ t → t < i + n → contains t (numbers_from i n) ≡ true
contains-numbers_from zero i t low high = absurd (omega arith)
contains-numbers_from (suc n) i t low high = elim (Bool-cases (i == t)) [
  | inl same ↦ rw same refl
  | inr other ↦
      let above : i + 1 ≤ t = ground arith in
      rw other (contains-numbers_from n (i + 1) t above (omega arith))
]

-- The process started with `n` threads, when they have settled.
pub started-IsSettled :
    (n wait : ℕ) (q : Pool) (s : Server)
    → Reached (started n wait q s)
    → let p = settled (numbers_from 0 n) (started n wait q s) in
      Reached p
      × (p.world.workers.create_thread ≡ n)
      × ((t : ℕ) → t < n → (p.world.workers.threads t).running ≡ true)
started-IsSettled n wait q s r =
    let made : (create_threads n).create_thread ≡ n = unfold create_threads in refl in
    let v =
      settled-IsSettled (numbers_from 0 n) (started n wait q s) r (create-IsIdle n)
        (numbers_below n 0 (create_threads n).create_thread (omega (arith, made))) in
    (v.is_reached, v.same_number ∙ made, λ t h. v.all_run t (there t h))
  where
    there :
        (t : ℕ)
        → t < n
        → (((create_threads n).threads t).running || contains t (numbers_from 0 n)) ≡ true
    there t h =
        let c = contains-numbers_from n 0 t (omega arith) (omega arith) in
        unfold create_threads in c
