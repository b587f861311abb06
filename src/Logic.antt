-- ===== src/Logic.antt =====
-- The business logic: socketlogic/c_socketlogic.cxx. A message is given by its memory; a handler is
-- one step, so that its two checks of the connection see the same state.
pub mod Dispatch
pub mod Reply
mod Tests
use my_nignx.Prelude.{
  ℕ, ◌+◌, ◌-◌, ◌*◌, ◌/◌, ◌%◌, ◌^◌, Bool, true, false, not, List, [], ◌∷◌, ◌++◌, Option, none, some,
  take, drop, get_or, get_elem?, replicate, ltb, leb, ◌==◌, if◌then◌else◌,
}
use my_nignx.Conn.{Connection, Message, MsgHeader, pkg_header_len, judge_outdate}
use my_nignx.Recv.{pkg_len}
use my_nignx.Send.{Sender, at_conn, msg_send_in_queue}
use my_nignx.Crc.{get_crc}

abbrev pub cmd_ping : ℕ
cmd_ping = 1

abbrev pub cmd_register : ℕ
cmd_register = 5

abbrev pub cmd_login : ℕ
cmd_login = 6

abbrev pub len_struct_register : ℕ
len_struct_register = 100

abbrev pub len_struct_login : ℕ
len_struct_login = 96

-- `ntohs(msgCode)` and `ntohl(crc32)`.
abbrev pub msg_code : List ℕ → ℕ
msg_code h = get_or h 2 0 * 256 + get_or h 3 0

abbrev pub crc_field : List ℕ → ℕ
crc_field h = ((get_or h 4 0 * 256 + get_or h 5 0) * 256 + get_or h 6 0) * 256 + get_or h 7 0

-- The body's length as a `uint16_t`.
abbrev pub body_len : List ℕ → ℕ
body_len h = (pkg_len h + 2 ^ 16 - pkg_header_len) % 2 ^ 16

abbrev pub body_of : List ℕ → List ℕ
body_of h = take (body_len h) (drop pkg_header_len h)

abbrev pub big_endian2 : ℕ → List ℕ
big_endian2 n = n / 256 % 256 ∷ n % 256 ∷ []

abbrev pub big_endian4 : ℕ → List ℕ
big_endian4 n = n / 2 ^ 24 % 256 ∷ n / 2 ^ 16 % 256 ∷ big_endian2 n

-- A reply of `n` zero bytes, one byte of memory past it.
unfoldable pub make_reply : ℕ → ℕ → ℕ → MsgHeader → Message
make_reply code n crc h = record {
  header = h;
  pkg =
      big_endian2 (pkg_header_len + n)
      ++ (big_endian2 code ++ (big_endian4 crc ++ replicate (n + 1) 0));
}

-- The result of a call that may wait for the mutex for ever, or be undefined behaviour.
abbrev pub Replied : Type 0
Replied = Option (Bool × Sender)

abbrev pub queued : Option Sender → Replied
queued none = none
queued (some s) = some (true, s)

-- What `_HandleRegister` and `_HandleLogin` have in common: they differ in the code and the length.
unfoldable pub answer : ℕ → ℕ → Message → Sender → Replied
unfolding make_reply
answer code n m s =
    let k = m.header.lp_curconn in
    if not (pkg_len m.pkg == pkg_header_len + n)
    then some (false, s)
    else (if not (judge_outdate (s.conn k) m.header.msg_cursequence)
        then some (false, s)
        else queued (
            msg_send_in_queue (make_reply code n (get_crc (replicate n 0)) m.header)
              (at_conn k (record (s.conn k) { sendlen_suppose = pkg_header_len + n }) s)))

unfoldable pub handle_register : Message → Sender → Replied
handle_register m s = answer cmd_register len_struct_register m s

unfoldable pub handle_login : Message → Sender → Replied
handle_login m s = answer cmd_login len_struct_login m s

-- `now` is what `time(NULL)` returns.
unfoldable pub handle_ping : ℕ → Message → Sender → Replied
unfolding make_reply
handle_ping now m s =
    let k = m.header.lp_curconn in
    if not (pkg_len m.pkg == pkg_header_len)
    then some (false, s)
    else queued (
        msg_send_in_queue (make_reply cmd_ping 0 0 m.header) (
          at_conn k (record (s.conn k) { ping_update_time = now; sendlen_suppose = pkg_header_len })
            s))

-- The entries of `status_handleset`.
pub data Command : Type 0 where
  ping register login : Command

abbrev pub status_handleset : List (Option Command)
status_handleset = some ping ∷ none ∷ none ∷ none ∷ none ∷ some register ∷ some login ∷ []

-- An entry of the table; `none` is a read past its end.
abbrev pub command_of : ℕ → Option (Option Command)
command_of code = get_elem? status_handleset code

abbrev pub run_handler : Option Command → ℕ → Message → Sender → Replied
run_handler none now m s = some (false, s)
run_handler (some ping) now m s = handle_ping now m s
run_handler (some register) now m s = handle_register m s
run_handler (some login) now m s = handle_login m s

-- A read past the table's end is undefined behaviour.
abbrev pub run_command : Option (Option Command) → ℕ → Message → Sender → Replied
run_command none now m s = none
run_command (some c) now m s = run_handler c now m s

-- The check of the checksum, which a message without a body has as 0.
unfoldable pub is_crc_right : List ℕ → Bool
is_crc_right h =
    if body_len h == 0 then crc_field h == 0 else get_crc (body_of h) % 2 ^ 32 == crc_field h

-- `false` stands for -1.
unfoldable pub thread_recv_proc : ℕ → Message → Sender → Replied
thread_recv_proc now m s =
    if not (judge_outdate (s.conn m.header.lp_curconn) m.header.msg_cursequence)
    then some (false, s)
    else (if not (is_crc_right m.pkg)
        then some (false, s)
        else (if leb 7 (msg_code m.pkg)
            then some (false, s)
            else run_command (command_of (msg_code m.pkg)) now m s))
