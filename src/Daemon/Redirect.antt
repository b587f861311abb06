-- ===== src/Daemon/Redirect.antt =====
-- What `daemon_process` leaves when it reports success.
use my_nignx.Prelude.{
  ℕ, ◌≤◌, ◌<◌, ◌≡◌, ◌≢◌, refl, Bool, true, false, Option, none, some, arith, ltb, ◌==◌,
  if◌then◌else◌, Bool-cases, inl, inr, ℤ, pos, negsuc, update, All,
}
use my_nignx.Daemon.{
  Fork, fork_failed, in_parent, in_child, File, dev_null, Daemon, DaemonCalls, failure, close_null,
  redirect, detach, as_daemon, forked, daemon_process,
}

-- A daemon made of `d`: it reads from and writes to /dev/null, the descriptors from 3 on are as
-- they were, and the process numbers say who is who.
pub record IsDaemon (pid : ℕ) (d d' : Daemon) : Type 0 where
  pub reads_null : d'.files 0 ≡ some dev_null
  pub writes_null : d'.files 1 ≡ some dev_null
  pub others : (f : ℕ) → 2 < f → d'.files f ≡ d.files f
  pub is_master : (d'.pids.cur_pid ≡ pid) × (d'.pids.master_pid ≡ pid)
  pub child_of : d'.pids.parent_pid ≡ d.pids.cur_pid

minus_one : negsuc 0 ≢ pos 0
minus_one e = ground arith

one : pos 1 ≢ pos 0
one e = ground arith

-- The descriptors with the first two on /dev/null.
abbrev nulls : ℕ → (ℕ → Option File) → ℕ → Option File
nulls fd files =
    update (update (update files fd (some dev_null)) 0 (some dev_null)) 1 (some dev_null)

kept_file : (fd f : ℕ) (files : ℕ → Option File) → fd ≤ 2 → 2 < f → nulls fd files f ≡ files f
kept_file fd f files low high =
    let a : (1 == f) ≡ false = ground arith in
    let b : (0 == f) ≡ false = ground arith in
    let c : (fd == f) ≡ false = ground arith in rw (a, b, c) refl

closed_file :
    (fd f : ℕ) (files : ℕ → Option File)
    → files fd ≡ none
    → 2 < f
    → update (nulls fd files) fd none f ≡ files f
closed_file fd f files unused high = elim (Bool-cases (fd == f)) [
  | inl same ↦
      let e : fd ≡ f = ground arith in let u : files f ≡ none = rw e at unused in rw (same, u) refl
  | inr other ↦
      let a : (1 == f) ≡ false = ground arith in
      let b : (0 == f) ≡ false = ground arith in rw (other, a, b) refl
]

-- A result that is a daemon if it reports success.
abbrev Succeeds : ℕ → Daemon → ℤ × Daemon → Type 0
Succeeds pid d r = r.0 ≡ pos 0 → IsDaemon pid d r.1

failure_lem : (pid : ℕ) (d d' : Daemon) → Succeeds pid d (failure d')
failure_lem pid d d' ok = absurd (minus_one ok)

close-IsDaemon :
    (e : DaemonCalls) (fd : ℕ) (d : Daemon)
    → d.files fd ≡ none
    → Succeeds e.getpid d (close_null e fd (record (as_daemon e d) { files = nulls fd d.files }))
close-IsDaemon e fd d unused = elim (Bool-cases (ltb 2 fd)) [
  | inl high ↦ elim (Bool-cases e.closes) [
    | inl closes ↦
        let a : (fd == 0) ≡ false = ground arith in
        let b : (fd == 1) ≡ false = ground arith in
        rw (high, closes)
          (λ ok. record {
            reads_null = rw a refl;
            writes_null = rw b refl;
            others = λ f h. closed_file fd f d.files unused h;
            is_master = (refl, refl);
            child_of = refl;
          })
    | inr fails ↦ rw (high, fails) (failure_lem e.getpid d _)
  ]
  | inr low ↦ rw low (λ ok. record {
    reads_null = refl;
    writes_null = refl;
    others = λ f h. kept_file fd f d.files (ground arith) h;
    is_master = (refl, refl);
    child_of = refl;
  })
]

redirect-IsDaemon :
    (e : DaemonCalls) (fd : ℕ) (d : Daemon)
    → d.files fd ≡ none
    → Succeeds e.getpid d (redirect e fd (as_daemon e d))
redirect-IsDaemon e fd d unused = elim (Bool-cases e.dup_stdin) [
  | inl i ↦ elim (Bool-cases e.dup_stdout) [
    | inl o ↦ rw (i, o) (close-IsDaemon e fd d unused)
    | inr o ↦ rw (i, o) (failure_lem e.getpid d _)
  ]
  | inr i ↦ rw i (failure_lem e.getpid d _)
]

detach-IsDaemon :
    (e : DaemonCalls) (opened : Option ℕ) (d : Daemon)
    → All (λ fd. d.files fd ≡ none) opened
    → Succeeds e.getpid d (detach e opened (as_daemon e d))
detach-IsDaemon e none d unused = failure_lem e.getpid d _
detach-IsDaemon e (some fd) d unused = redirect-IsDaemon e fd d unused

-- If `daemon_process` reports 0, and the descriptor opened was not in use: `fork` has returned in
-- the child, which reads from and writes to /dev/null, has its other descriptors from 3 on as its
-- parent had them, and knows itself as the master process and the process before as its parent.
pub daemon_process-IsDaemon :
    (e : DaemonCalls) (d : Daemon)
    → All (λ fd. d.files fd ≡ none) e.opened
    → (daemon_process e d).0 ≡ pos 0
    → (e.fork ≡ in_child) × IsDaemon e.getpid d (daemon_process e d).1
unfolding daemon_process
daemon_process-IsDaemon e d unused ok = by_fork e.fork ok
  where
    by_fork :
        (f : Fork)
        → (forked f e d).0 ≡ pos 0
        → (f ≡ in_child) × IsDaemon e.getpid d (forked f e d).1
    by_fork fork_failed ok = absurd (minus_one ok)
    by_fork (in_parent child) ok = absurd (one ok)
    by_fork in_child ok = (refl, by_setsid e.setsid ok)
      where
        by_setsid :
            (b : Bool)
            → Succeeds e.getpid d
                (if b then detach e e.opened (as_daemon e d) else failure (as_daemon e d))
        by_setsid true = detach-IsDaemon e e.opened d unused
        by_setsid false = failure_lem e.getpid d (as_daemon e d)
