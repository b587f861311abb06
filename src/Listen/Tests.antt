-- ===== src/Listen/Tests.antt =====
-- Start of the server from a small configuration.
use my_nignx.Prelude.{ℕ, ◌+◌, true, List, [], ◌∷◌, some, ◌≡◌, refl, codes, pos}
use my_nignx.Text.{decimal}
use my_nignx.Conf.{ConfItem, get_int, get_string, atoi, skip_spaces, digits_value}
use my_nignx.Listen.{
  Settings, default_settings, read_conf, SocketCalls, Sockets, open_listen_sockets, open_loop,
}
use my_nignx.Listen.Opening.{Opens, open_listen_sockets-Opens}
use my_nignx.Listen.Reading.{IsWaiting, AllInts, read_conf-IsWaiting}

abbrev items : List ConfItem
items =
    record { itemname = codes "ListenPort1"; itemvalue = codes "8001" }
    ∷ record { itemname = codes "Sock_MaxWaitTime"; itemvalue = codes "2" }
    ∷ []

items-AllInts : AllInts items
unfolding atoi skip_spaces digits_value
items-AllInts = ((pos 8001, refl), ((pos 2, refl), tt))

abbrev calls : ℕ → SocketCalls
calls i = record {
  socket = some (i + 5);
  reuseaddr = true;
  reuseport = true;
  nonblocking = true;
  binds = true;
  listens = true;
}

abbrev none_open : Sockets
none_open = record { listen_list = []; open_fds = [] }

open_two :
    open_listen_sockets items calls (pos 2) none_open
    ≡ some (
      true,
      record {
        listen_list = record { fd = 5; port = pos 9000 } ∷ record { fd = 6; port = pos 8001 } ∷ [];
        open_fds = 6 ∷ 5 ∷ [];
      },
    )
unfolding open_listen_sockets open_loop get_int get_string atoi skip_spaces digits_value decimal
open_two = refl

read_conf-IsWaiting_sample :
    (s : Settings) × (read_conf items (default_settings (pos 0)) ≡ some s) × IsWaiting s
read_conf-IsWaiting_sample = read_conf-IsWaiting items (default_settings (pos 0)) items-AllInts

open_listen_sockets-Opens_example :
    Opens 2 none_open (open_listen_sockets items calls (pos 2) none_open)
open_listen_sockets-Opens_example =
    open_listen_sockets-Opens items calls (pos 2) none_open items-AllInts (λ fd. refl)
