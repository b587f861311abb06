-- ===== src/Daemon.antt =====
-- The daemon: proc/proc_deamon.cxx. The process is seen from the side on which `fork` returns; its
-- descriptors are a function to what they are open on.
pub mod Redirect
mod Tests
use my_nignx.Prelude.{
  ℕ, Bool, true, false, Option, none, some, ltb, ◌==◌, if◌then◌else◌, ℤ, pos, negsuc, update,
}

-- What `fork` returns: a failure, the child's number in the parent, or 0 in the child.
pub data Fork : Type 0 where
  fork_failed : Fork
  in_parent : ℕ → Fork
  in_child : Fork

-- The global process numbers.
pub record Pids : Type 0 where
  pub cur_pid : ℕ
  pub parent_pid : ℕ
  pub master_pid : ℕ

-- What a descriptor is open on: something of the process that started it, or /dev/null.
pub data File : Type 0 where
  inherited : ℕ → File
  dev_null : File

pub record Daemon : Type 0 where
  pub pids : Pids
  pub files : ℕ → Option File

-- What the system calls return: `opened` is the descriptor of /dev/null.
pub record DaemonCalls : Type 0 where
  pub fork : Fork
  pub getpid : ℕ
  pub setsid : Bool
  pub opened : Option ℕ
  pub dup_stdin : Bool
  pub dup_stdout : Bool
  pub closes : Bool

abbrev pub failure : Daemon → ℤ × Daemon
failure d = (negsuc 0, d)

abbrev pub set_file : ℕ → Option File → Daemon → Daemon
set_file fd f d = record d { files = update d.files fd f }

-- The descriptor of /dev/null is given back, unless it is one of the first three.
abbrev pub close_null : DaemonCalls → ℕ → Daemon → ℤ × Daemon
close_null e fd d =
    if ltb 2 fd then (if e.closes then (pos 0, set_file fd none d) else failure d) else (pos 0, d)

abbrev pub redirect : DaemonCalls → ℕ → Daemon → ℤ × Daemon
redirect e fd d =
    let d0 = set_file fd (some dev_null) d in
    let d1 = set_file 0 (some dev_null) d0 in
    let d2 = set_file 1 (some dev_null) d1 in
    if e.dup_stdin then (if e.dup_stdout then close_null e fd d2 else failure d1) else failure d0

abbrev pub detach : DaemonCalls → Option ℕ → Daemon → ℤ × Daemon
detach e none d = failure d
detach e (some fd) d = redirect e fd d

abbrev pub as_daemon : DaemonCalls → Daemon → Daemon
as_daemon e d = record d {
  pids = record { cur_pid = e.getpid; parent_pid = d.pids.cur_pid; master_pid = e.getpid };
}

abbrev pub forked : Fork → DaemonCalls → Daemon → ℤ × Daemon
forked fork_failed e d = failure d
forked (in_parent child) e d = (pos 1, d)
forked in_child e d =
    let d' = as_daemon e d in if e.setsid then detach e e.opened d' else failure d'

unfoldable pub daemon_process : DaemonCalls → Daemon → ℤ × Daemon
daemon_process e d = forked e.fork e d
