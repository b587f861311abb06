-- ===== src/Startup/Tests.antt =====
-- A start from an empty configuration, and one without a configuration.
use my_nignx.Prelude.{
  All, ℕ, ◌+◌, ◌≡◌, refl, List, [], ◌∷◌, none, some, true, false, pos, negsuc, codes, replicate,
  ltb, if◌then◌else◌,
}
use my_nignx.Conf.{load}
use my_nignx.Listen.{Settings, default_settings, Sockets}
use my_nignx.Title.{Area}
use my_nignx.Daemon.{in_parent, in_child, inherited, Daemon}
use my_nignx.Startup.{Calls, exits, main, freeresource}
use my_nignx.Startup.Main.{Explained, main-Explained}

abbrev calls : Calls
calls = record {
  file = some [];
  opened_log = pos 3;
  handles = λ s. true;
  sockets = λ i. record {
    socket = some (i + 4);
    reuseaddr = true;
    reuseport = true;
    nonblocking = true;
    binds = true;
    listens = true;
  };
  daemon = record {
    fork = in_child;
    getpid = 301;
    setsid = true;
    opened = some 6;
    dup_stdin = true;
    dup_stdout = true;
    closes = true;
  };
  forks = λ i. in_parent (i + 400);
  getpid = λ i. i + 400;
}

abbrev program : List ℕ
program = codes "./nginx"

abbrev home : List ℕ
home = codes "HOME=/home/user"

abbrev area : Area
area = record { block = replicate 24 7; one_argument = false }

abbrev shell_child : Daemon
shell_child = record {
  pids = record { cur_pid = 300; parent_pid = 20; master_pid = 0 };
  files = λ fd. if ltb fd 6 then some (inherited fd) else none;
}

abbrev no_sockets : Sockets
no_sockets = record { listen_list = []; open_fds = [] }

abbrev settings : Settings
settings = default_settings (pos 0)

abbrev no_file : Calls
no_file = record calls { file = none }

main-Explained_example :
    All
      (Explained calls shell_child settings no_sockets)
      (main calls (home ∷ []) (program ∷ []) area shell_child settings no_sockets)
main-Explained_example =
    main-Explained calls (home ∷ []) (program ∷ []) area shell_child settings no_sockets

-- Without a configuration the program exits with 2, and closes the descriptor 0 as if it were a log.
exit_code_two :
    main no_file (home ∷ []) (program ∷ []) area shell_child settings no_sockets
    ≡ some (
        exits (pos 2) (
          some (pos 0),
          record {
            copies = none;
            log = record { fd = negsuc 0; log_level = pos 0 };
            sockets = no_sockets;
          },
        ))
unfolding main load freeresource
exit_code_two = refl
