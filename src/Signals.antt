-- ===== src/Signals.antt =====
-- Signals: signal/signal.cxx. What the handler logs goes through Format; the children that it waits
-- for are those that `waitpid` reports, call by call.
pub mod Logged
pub mod Reaping
mod Tests
use my_nignx.Prelude.{
  ℕ, zero, suc, ◌+◌, Bool, true, false, ◌&&◌, List, [], ◌∷◌, ◌++◌, Option, none, some, ◌==◌,
  if◌then◌else◌, ℤ, pos, negsuc, codes,
}
use my_nignx.Sys.{Errno, no_errno, eagain, eintr, econnreset, enosys, echild, other_errno}
use my_nignx.Fmt.{Buf}
use my_nignx.Format.{Arg, int_arg, string_arg, fmt_string}

pub record Signal : Type 0 where
  pub signo : ℕ
  pub signame : List ℕ
  pub handled : Bool

abbrev pub sigchld : ℕ
sigchld = 17

-- The table without its end, on Linux.
abbrev pub signals : List Signal
signals =
    record { signo = 1; signame = codes "SIGHUP"; handled = true }
    ∷ record { signo = 2; signame = codes "SIGINT"; handled = true }
    ∷ record { signo = 15; signame = codes "SIGTERM"; handled = true }
    ∷ record { signo = sigchld; signame = codes "SIGCHLD"; handled = true }
    ∷ record { signo = 3; signame = codes "SIGQUIT"; handled = true }
    ∷ record { signo = 29; signame = codes "SIGIO"; handled = true }
    ∷ record { signo = 10; signame = codes "SIGUSR1"; handled = true }
    ∷ record { signo = 31; signame = codes "SIGSYS, SIG_IGN"; handled = false }
    ∷ []

-- The name in the table; the entry at its end has a null pointer, `none`.
unfoldable pub name_of : List Signal → ℕ → Option (List ℕ)
name_of [] signo = none
name_of (s ∷ rest) signo = if s.signo == signo then some s.signame else name_of rest signo

-- The text that the handler logs: the format and the arguments, `action` being empty. Printing a
-- null name is undefined.
abbrev pub logged : ℕ → Option ℕ → Option (List ℕ) → Buf → ℕ → Option Buf
logged signo sender none b last = none
logged signo none (some name) b last =
    fmt_string b last (codes "signal %d (%s) received %s")
      (int_arg (pos signo) ∷ string_arg name ∷ string_arg [] ∷ [])
logged signo (some pid) (some name) b last =
    fmt_string b last (codes "signal %d (%s) received from %P%s")
      (int_arg (pos signo) ∷ string_arg name ∷ int_arg (pos pid) ∷ string_arg [] ∷ [])

unfoldable pub handler_text : ℕ → Option ℕ → Buf → ℕ → Option Buf
unfolding name_of fmt_string
handler_text signo sender b last = logged signo sender (name_of signals signo) b last

-- What one `waitpid` returns: no child has changed, a failure, or a child that ended by a signal (or
-- 0) with an exit code.
pub data WaitPid : Type 0 where
  none_changed : WaitPid
  failed : Errno → WaitPid
  ended : ℕ → ℕ → ℕ → WaitPid

-- Whether the loop of `process_get_status` goes on, and the child reaped.
abbrev pub goes_on : WaitPid → Bool
goes_on none_changed = false
goes_on (failed eintr) = true
goes_on (failed _) = false
goes_on (ended pid signal code) = true

abbrev pub child_of : WaitPid → List ℕ
child_of none_changed = []
child_of (failed e) = []
child_of (ended pid signal code) = pid ∷ []

-- `calls i` is what the call of round `i` returns; the result is the children reaped. `none` stands for
-- too little fuel.
unfoldable pub process_get_status : (ℕ → WaitPid) → ℕ → ℕ → Option (List ℕ)
process_get_status calls zero i = none
process_get_status calls (suc fuel) i =
    let rest = process_get_status calls fuel (i + 1) in
    if goes_on (calls i) then with_child (child_of (calls i)) rest else some []
  where
    with_child : List ℕ → Option (List ℕ) → Option (List ℕ)
    with_child c none = none
    with_child c (some cs) = some (c ++ cs)

-- The flag `reap` of a master process, and what is reaped.
pub data Form : Type 0 where
  master worker : Form

abbrev pub new_reap : Form → ℕ → Bool → Bool
new_reap master signo reap = if signo == sigchld then true else reap
new_reap worker signo reap = reap

-- The calls of `sigaction`: those before the first that fails, and the return value.
unfoldable pub init_signals : (ℕ → Bool) → List Signal → ℤ × List ℕ
init_signals succeeds [] = (pos 0, [])
init_signals succeeds (s ∷ rest) =
    let r = init_signals succeeds rest in
    if succeeds s.signo then (r.0, s.signo ∷ r.1) else (negsuc 0, [])
