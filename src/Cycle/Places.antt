-- ===== src/Cycle/Places.antt =====
-- Where the processes are after `start_worker_process`.
use my_nignx.Prelude.{
  ℕ, zero, suc, ◌+◌, ◌<◌, ◌≤◌, ◌≡◌, ◌≢◌, refl, sym, ap, ◌∙◌, List, [], ◌∷◌, ◌++◌, append_assoc,
  append-nil, arith, ℤ, pos_part, ◌==◌, Bool-cases, inl, inr,
}
use mathlib.Core.Path.{subst}
use my_nignx.Daemon.{Fork, fork_failed, in_parent, in_child, Pids}
use my_nignx.Cycle.{
  Place, as_master, as_worker, child_pids, spawn_process, start_loop, start_worker_process,
}

-- The child that a call of `fork` has made, in its parent.
abbrev pub made_by : Fork → List ℕ
made_by fork_failed = []
made_by (in_parent child) = child ∷ []
made_by in_child = []

unfoldable pub made : (ℕ → Fork) → ℕ → ℕ → List ℕ
made forks zero i = []
made forks (suc n) i = made_by (forks i) ++ made forks n (i + 1)

-- In the master process no `fork` was the child's, and its children are those that were made; a worker
-- process has the number of the first `fork` that was the child's, and knows its parent.
abbrev pub IsPlaced : (ℕ → Fork) → (ℕ → ℕ) → ℕ → ℕ → Pids → List ℕ → Place → Type 0
IsPlaced forks getpid n i p children (as_master cs) =
    (cs ≡ children ++ made forks n i) × ((j : ℕ) → i ≤ j → j < i + n → forks j ≢ in_child)
IsPlaced forks getpid n i p children (as_worker k q) =
    (i ≤ k)
    × (k < i + n)
    × (forks k ≡ in_child)
    × ((j : ℕ) → i ≤ j → j < k → forks j ≢ in_child)
    × (q ≡ child_pids (getpid k) p)

failed-ne : fork_failed ≢ in_child
failed-ne = λ e. cc

parent-ne : (child : ℕ) → in_parent child ≢ in_child
parent-ne child = λ e. cc

module _ (forks : ℕ → Fork) (getpid : ℕ → ℕ) (p : Pids) where
  not_at_or_after :
      (i m : ℕ)
      → forks i ≢ in_child
      → ((j : ℕ) → i + 1 ≤ j → j < m → forks j ≢ in_child)
      → (j : ℕ) → i ≤ j
      → j < m
      → forks j ≢ in_child
  not_at_or_after i m ne later j h k = elim (Bool-cases (i == j)) [
    | inl same ↦ let e : i ≡ j = ground arith in subst (λ a. forks a ≢ in_child) e ne
    | inr other ↦ later j (ground arith) k
  ]

  -- One call of `fork` that was not the child's, before the others.
  one_more :
      (n i : ℕ) (children : List ℕ) (place : Place)
      → forks i ≢ in_child
      → IsPlaced forks getpid n (i + 1) p (children ++ made_by (forks i)) place
      → IsPlaced forks getpid (suc n) i p children place
  unfolding made
  one_more n i children (as_master cs) ne v = (
    v.0 ∙ append_assoc children (made_by (forks i)) (made forks n (i + 1)),
    not_at_or_after i (i + suc n) ne (λ j h k. v.1 j h (omega (arith, k))),
  )
  one_more n i children (as_worker k q) ne v =
      (omega (arith, v.0), omega (arith, v.1), v.2, not_at_or_after i k ne v.3, v.4)

  loop-IsPlaced :
      (n i : ℕ) (children : List ℕ)
      → IsPlaced forks getpid n i p children (start_loop forks getpid n i p children)
  unfolding start_loop made
  loop-IsPlaced zero i children = (sym (append-nil children), λ j h k. absurd (omega arith))
  loop-IsPlaced (suc n) i children = by_fork (forks i) refl (λ cs. loop-IsPlaced n (i + 1) cs)
    where
      by_fork :
          (f : Fork)
          → forks i ≡ f
          → ((cs : List ℕ)
              → IsPlaced forks getpid n (i + 1) p cs (start_loop forks getpid n (i + 1) p cs))
          → IsPlaced forks getpid
              (suc n)
              i
              p
              children
              (spawn_process f (getpid i) i p children (start_loop forks getpid n (i + 1) p))
      by_fork fork_failed e later =
          one_more n i children (start_loop forks getpid n (i + 1) p children)
            (λ c. absurd (failed-ne (sym e ∙ c)))
            (subst
              (λ cs.
                IsPlaced forks getpid n (i + 1) p cs (start_loop forks getpid n (i + 1) p children))
              (sym (ap (λ f. children ++ made_by f) e ∙ append-nil children)) (later children))
      by_fork (in_parent child) e later =
          let cs = children ++ (child ∷ []) in
          one_more n i children (start_loop forks getpid n (i + 1) p cs)
            (λ c. absurd (parent-ne child (sym e ∙ c)))
            (subst
              (λ l. IsPlaced forks getpid n (i + 1) p l (start_loop forks getpid n (i + 1) p cs))
              (sym (ap (λ f. children ++ made_by f) e)) (later cs))
      by_fork in_child e later = (omega arith, omega arith, e, λ j h k. absurd (omega arith), refl)

-- Whatever the calls of `fork` return, a process that `start_worker_process` leaves is the master
-- process, whose children are those that the calls made, in their order, or the worker process of
-- the first call that returned in a child, with that call's number, which is less than the number
-- asked for, and with the master process as its parent: no worker makes processes of its own.
pub start_worker_process-IsPlaced :
    (forks : ℕ → Fork) (getpid : ℕ → ℕ) (process_count : ℤ) (p : Pids)
    → IsPlaced forks getpid
        (pos_part process_count)
        0
        p
        []
        (start_worker_process forks getpid process_count p)
unfolding start_worker_process
start_worker_process-IsPlaced forks getpid process_count p =
    loop-IsPlaced forks getpid p (pos_part process_count) 0 []
