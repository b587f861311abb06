-- ===== src/Startup.antt =====
-- The start of the program: `main` and `freeresource` of app/nginx.cxx, over the parts that it
-- calls. A result `none` is undefined behaviour in one of them.
pub mod Ends
pub mod Main
mod Tests
use my_nignx.Prelude.{
  ◌>>=◌, ℕ, ◌+◌, Bool, true, false, ◌||◌, List, [], ◌∷◌, Option, none, some, if◌then◌else◌, ℤ, pos,
  negsuc, eqb_ℤ, codes,
}
use my_nignx.Conf.{ConfItem, load, get_int}
use my_nignx.Log.{LogState, stderr_fd, init_log}
use my_nignx.Signals.{signals, init_signals}
use my_nignx.Listen.{Settings, Sockets, SocketCalls, initialize}
use my_nignx.Title.{sizes, read_string, Copies, init_setproctitle, Area, setproctitle, master_title}
use my_nignx.Daemon.{Fork, Pids, Daemon, DaemonCalls, daemon_process}
use my_nignx.Cycle.{Place, master_process_cycle}

-- What the start meets: the bytes of nginx.conf, or none if it cannot be opened; what `open` gives
-- for the log file, which signals can be handled, the calls for the listening sockets, and those of
-- `fork` and its like.
pub record Calls : Type 0 where
  pub file : Option (List ℕ)
  pub opened_log : ℤ
  pub handles : ℕ → Bool
  pub sockets : ℕ → SocketCalls
  pub daemon : DaemonCalls
  pub forks : ℕ → Fork
  pub getpid : ℕ → ℕ

-- What the globals own: the copies of arguments and environment, the log, and the sockets of
-- `g_socket`.
pub record Resources : Type 0 where
  pub copies : Option Copies
  pub log : LogState
  pub sockets : Sockets

-- The globals before `main`.
abbrev pub at_first : Sockets → Resources
at_first s = record { copies = none; log = record { fd = pos 0; log_level = pos 0 }; sockets = s }

-- The log's descriptor is closed, unless it is that of standard error or -1; the result is
-- the descriptor closed. The sockets stay as they are.
unfoldable pub freeresource : Resources → Option ℤ × Resources
freeresource r =
    if eqb_ℤ r.log.fd stderr_fd || eqb_ℤ r.log.fd (negsuc 0)
    then (none, record r { copies = none })
    else (some r.log.fd, record r { copies = none; log = record r.log { fd = negsuc 0 } })

-- How `main` ends, or that it does not: the process is in the loop of the master process or of a
-- worker process.
pub data End : Type 0 where
  exits : ℤ → Option ℤ × Resources → End
  goes_on : Place → Resources → End

abbrev pub exit_with : ℤ → Resources → Option End
exit_with code r = some (exits code (freeresource r))

-- `master_process_cycle`, its title first.
abbrev pub run_master :
    Calls → List (List ℕ) → List (List ℕ) → List ConfItem → Area → Pids → Resources → Option End
run_master e environ argv items a p r = do
  title ← master_title (sizes argv + sizes environ) argv
  b ← setproctitle (read_string title 0) (sizes argv + sizes environ) a
  place ← master_process_cycle items e.forks e.getpid p
  some (goes_on place r)

-- What follows `daemon_process`.
abbrev pub after_daemon :
    ℤ × Daemon
    → Calls
    → List (List ℕ)
    → List (List ℕ)
    → List ConfItem
    → Area
    → Resources
    → Option End
after_daemon (n, d) e environ argv items a r =
    if eqb_ℤ n (negsuc 0)
    then exit_with (pos 1) r
    else (if eqb_ℤ n (pos 1)
        then exit_with (pos 0) r
        else run_master e environ argv items a d.pids r)

-- From `init_setproctitle` on.
abbrev pub with_title :
    Calls → List (List ℕ) → List (List ℕ) → List ConfItem → Area → Daemon → Resources → Option End
with_title e environ argv items a d r = do
  c ← init_setproctitle environ argv
  daemon ← get_int items (codes "Daemon") (pos 1)
  if eqb_ℤ daemon (pos 1)
      then after_daemon (daemon_process e.daemon d) e environ argv items a
          (record r { copies = some c })
      else run_master e environ argv items a d.pids (record r { copies = some c })

abbrev pub if_listening :
    Calls
    → List (List ℕ)
    → List (List ℕ)
    → List ConfItem
    → Area
    → Daemon
    → Resources
    → Bool
    → Option End
if_listening e environ argv items a d r true = with_title e environ argv items a d r
if_listening e environ argv items a d r false = exit_with (pos 1) r

-- From `init_log` on.
abbrev pub with_config :
    Calls
    → List (List ℕ)
    → List (List ℕ)
    → List ConfItem
    → Area
    → Daemon
    → Settings
    → Sockets
    → Option End
with_config e environ argv items a d c s = do
  log ← init_log items e.opened_log
  if eqb_ℤ (init_signals e.handles signals).0 (pos 0)
      then (do
        l ← initialize items e.sockets c s
        if_listening e environ argv items a d (record (at_first l.2) { log = log.1 }) l.0)
      else exit_with (pos 1) (record (at_first s) { log = log.1 })

abbrev pub if_loaded :
    Calls
    → List (List ℕ)
    → List (List ℕ)
    → Area
    → Daemon
    → Settings
    → Sockets
    → Bool × List ConfItem
    → Option End
if_loaded e environ argv a d c s (true, items) = with_config e environ argv items a d c s
if_loaded e environ argv a d c s (false, items) = exit_with (pos 2) (at_first s)

-- `environ` and `argv` are the strings of environment and arguments, in the block `a`; `d` has the
-- process numbers and the descriptors.
unfoldable pub main :
    Calls → List (List ℕ) → List (List ℕ) → Area → Daemon → Settings → Sockets → Option End
unfolding load init_log init_signals initialize init_setproctitle setproctitle master_title
    daemon_process master_process_cycle freeresource
main e environ argv a d c s = do l ← load e.file []; if_loaded e environ argv a d c s l
