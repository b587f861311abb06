-- ===== src/Recv/Tests.antt =====
-- The receiving machine of net/socket_request.cxx at a concrete stream.
use my_nignx.Prelude.{
  ℕ, ◌≡◌, refl, suc, zero, replicate, arith, true, false, List, [], ◌∷◌, ◌++◌, none, some,
}
use my_nignx.Sys.{eagain, econnreset}
use my_nignx.Conn.{Connection, pkg_bd_init, live, in_message}
use my_nignx.Recv.{got, failed, returned_zero, Handled, event_readable_request_handler}
use my_nignx.Recv.Framing.{IsPacket, concat}
use my_nignx.Recv.State.{Holds, idle, bodied, messages}
use my_nignx.Recv.Stream.{Event, ready, interrupted, serve, Delivers, serve-Delivers, serve-packets}
use my_nignx.Recv.Faults.{effects, no_bytes_effects, body_eagain-faults}
use my_nignx.Pool.{new_connection}

abbrev ping : List ℕ
ping = 0 ∷ 8 ∷ 0 ∷ 1 ∷ 0 ∷ 0 ∷ 0 ∷ 0 ∷ []

abbrev login : List ℕ
login = 0 ∷ 10 ∷ 0 ∷ 6 ∷ 1 ∷ 2 ∷ 3 ∷ 4 ∷ 65 ∷ 66 ∷ []

ping-IsPacket : IsPacket ping
ping-IsPacket = record { long_enough = omega arith; short_enough = omega arith; says = refl }

login-IsPacket : IsPacket login
login-IsPacket = record { long_enough = omega arith; short_enough = omega arith; says = refl }

abbrev small_reads : ℕ → List Event
small_reads zero = interrupted ∷ []
small_reads (suc n) = ready 2 ∷ small_reads n

abbrev two_packets : List (List ℕ)
two_packets = ping ∷ login ∷ []

waiting : Holds 3 new_connection []
waiting = idle refl refl

serve-packets_example :
    (after : Connection) × (serve 3 new_connection (small_reads 18) (concat two_packets)
      ≡ some (record { conn = after; queued = messages 3 new_connection two_packets; unread = [] }))
    × Holds 3 after []
serve-packets_example =
    serve-packets 3 new_connection two_packets (small_reads 18) refl
      (ping-IsPacket, (login-IsPacket, tt)) (omega arith)

serve-Delivers_example :
    Delivers 3 new_connection [] login
      (ready 4 ∷ interrupted ∷ ready 9 ∷ [])
      (serve 3 new_connection (ready 4 ∷ interrupted ∷ ready 9 ∷ []) login)
serve-Delivers_example =
    serve-Delivers 3 (ready 4 ∷ interrupted ∷ ready 9 ∷ []) new_connection [] login waiting

abbrev piece : List ℕ
piece = 0 ∷ 10 ∷ 0 ∷ []

no_bytes_effects_example :
    effects (event_readable_request_handler 3 new_connection (returned_zero econnreset))
    ≡ some (true, [])
no_bytes_effects_example =
    no_bytes_effects 3 new_connection [] (returned_zero econnreset) waiting tt

abbrev login_header : List ℕ
login_header = 0 ∷ 10 ∷ 0 ∷ 6 ∷ 1 ∷ 2 ∷ 3 ∷ 4 ∷ []

-- A connection that has read the header of `login`.
abbrev in_body : Connection
in_body = record new_connection {
  curstat = pkg_bd_init;
  headerinfo = live login_header;
  msgrecv = some (record {
    header = record { lp_curconn = 3; msg_cursequence = 0 };
    pkg = login_header ++ replicate 3 0;
  });
  recvbuf = in_message 8;
  recvlen = 2;
}

in_body-Holds : Holds 3 in_body login_header
in_body-Holds = bodied login_header refl refl refl refl refl (omega arith) (omega arith) refl

body_eagain-faults_example :
    (h : Handled) × (event_readable_request_handler 3 in_body (failed eagain) ≡ some h)
    × (h.closes ≡ false)
    × (event_readable_request_handler 3 h.conn (got (65 ∷ [])) ≡ none)
body_eagain-faults_example = body_eagain-faults 3 in_body login_header 65 [] in_body-Holds refl
