-- ===== src/Daemon/Tests.antt =====
-- A daemon that gets descriptor 5 for /dev/null.
use my_nignx.Prelude.{◌≡◌, refl, none, some, true, ltb, if◌then◌else◌}
use my_nignx.Daemon.{in_child, inherited, Daemon, DaemonCalls, daemon_process}
use my_nignx.Daemon.Redirect.{IsDaemon, daemon_process-IsDaemon}

abbrev calls : DaemonCalls
calls = record {
  fork = in_child;
  getpid = 301;
  setsid = true;
  opened = some 5;
  dup_stdin = true;
  dup_stdout = true;
  closes = true;
}

abbrev started_by : Daemon
started_by = record {
  pids = record { cur_pid = 300; parent_pid = 20; master_pid = 0 };
  files = λ fd. if ltb fd 5 then some (inherited fd) else none;
}

daemon_process-IsDaemon_example :
    (calls.fork ≡ in_child) × IsDaemon 301 started_by (daemon_process calls started_by).1
unfolding daemon_process
daemon_process-IsDaemon_example = daemon_process-IsDaemon calls started_by refl refl

-- Messages to standard error still go where they went before.
keeps_stderr : (daemon_process calls started_by).1.files 2 ≡ some (inherited 2)
unfolding daemon_process
keeps_stderr = refl
