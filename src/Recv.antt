-- ===== src/Recv.antt =====
-- Receiving a packet: `recvproc`, `event_readable_request_handler` and the `pkg_*` functions of
-- net/socket_request.cxx. A result `none` of the type `Option` is undefined behaviour: an access
-- through a null or dangling pointer, a write out of bounds, or a double free.
pub mod Framing
pub mod Memory
pub mod State
pub mod Header
pub mod Body
pub mod Machine
pub mod Stream
pub mod Faults
mod Tests
use my_nignx.Prelude.{
  ◌>>=◌, ℕ, ◌+◌, ◌-◌, ◌*◌, ◌%◌, ◌^◌, Bool, true, false, ◌||◌, List, [], ◌∷◌, ◌++◌, Option, none,
  some, length, take, drop, get_or, replicate, ltb, leb, ◌==◌, if◌then◌else◌,
}
use my_nignx.Sys.{Errno, no_errno, eagain, eintr, econnreset, enosys, echild, other_errno}
use my_nignx.Conn.{
  Connection, Stat, pkg_hd_init, pkg_hd_recving, pkg_bd_init, pkg_bd_recving, MsgHeader, Message,
  Ptr, nullptr, live, freed, RecvBuf, nowhere, in_header, in_message, pkg_header_len,
  pkg_max_length, put_to_state_mach,
}

-- What one `recv` does: it stores bytes (one at least), returns 0, or fails. `errno` after a
-- return of 0 is left by earlier calls.
pub data RecvCall : Type 0 where
  got : List ℕ → RecvCall
  returned_zero failed : Errno → RecvCall

-- A step's connection, its return value (`none` for -1), and whether it closes the connection.
abbrev pub Received : Type 0
Received = Connection × Option ℕ × Bool

-- Bytes written over an array from an index on.
abbrev pub overwrite : List ℕ → ℕ → List ℕ → Option (List ℕ)
overwrite xs k bs =
    if leb (k + length bs) (length xs)
    then some (take k xs ++ (bs ++ drop (k + length bs) xs))
    else none

abbrev pub write_header : Connection → Ptr (List ℕ) → ℕ → List ℕ → Option Connection
write_header c nullptr k bs = none
write_header c (live h) k bs = do h' ← overwrite h k bs; some (record c { headerinfo = live h' })
write_header c freed k bs = none

abbrev pub write_message : Connection → Option Message → ℕ → List ℕ → Option Connection
write_message c none k bs = none
write_message c (some m) k bs = do
  p ← overwrite m.pkg k bs
  some (record c { msgrecv = some (record m { pkg = p }) })

-- The bytes that `recv` stores at `p_recvbuf`.
abbrev pub write_recvbuf : Connection → RecvBuf → List ℕ → Option Connection
write_recvbuf c nowhere bs = none
write_recvbuf c (in_header k) bs = write_header c c.headerinfo k bs
write_recvbuf c (in_message k) bs = write_message c c.msgrecv k bs

-- How `recvproc` answers a `recv` that returned 0: 0, -1, or -1 after a close.
abbrev pub zero_reply : Errno → Option ℕ × Bool
zero_reply no_errno = (some 0, false)
zero_reply eagain = (none, false)
zero_reply _ = (none, true)

-- The same for a failed one.
abbrev pub failure_reply : Errno → Option ℕ × Bool
failure_reply eintr = (some 0, false)
failure_reply eagain = (none, false)
failure_reply _ = (none, true)

unfoldable pub recvproc : Connection → RecvCall → Option Received
recvproc c (got bs) = do c' ← write_recvbuf c c.recvbuf bs; some (c', some (length bs), false)
recvproc c (returned_zero e) = let (n, closes) = zero_reply e in some (c, n, closes)
recvproc c (failed e) = let (n, closes) = failure_reply e in some (c, n, closes)

abbrev pub shift : RecvBuf → ℕ → RecvBuf
shift nowhere n = nowhere
shift (in_header k) n = in_header (k + n)
shift (in_message k) n = in_message (k + n)

-- The bookkeeping after `n` bytes.
abbrev pub advance : Connection → ℕ → Connection
advance c n =
    let seen = (c.recvlen_already + n) % 2 ^ 64 in
    if ltb n c.recvlen
    then record c { recvbuf = shift c.recvbuf n; recvlen = c.recvlen - n; recvlen_already = seen }
    else record c { recvlen_already = seen }

abbrev pub is_header_stat : Stat → Bool
is_header_stat pkg_hd_init = true
is_header_stat pkg_hd_recving = true
is_header_stat pkg_bd_init = false
is_header_stat pkg_bd_recving = false

abbrev pub is_body_stat : Stat → Bool
is_body_stat pkg_hd_init = false
is_body_stat pkg_hd_recving = false
is_body_stat pkg_bd_init = true
is_body_stat pkg_bd_recving = true

abbrev pub counted : Received → Received
counted (c, none, closes) = (c, none, closes)
counted (c, some n, closes) = (advance c n, some n, closes)

unfoldable pub pkg_header_recv : Connection → RecvCall → Option Received
pkg_header_recv c call =
    if is_header_stat c.curstat
    then (do r ← recvproc c call; some (counted r))
    else some (c, none, false)

-- `delete[]` of live memory; of null it does nothing, and of freed memory it is undefined.
abbrev pub free_memory {ℓ} : {A : Type ℓ} → Ptr A → Option (Ptr A)
free_memory nullptr = some nullptr
free_memory (live a) = some freed
free_memory freed = none

-- A body that could not be read gives its message up.
abbrev pub body_counted : Received → Received
body_counted (c, none, closes) = (record c { msgrecv = none }, none, closes)
body_counted (c, some n, closes) = (advance c n, some n, closes)

unfoldable pub pkg_body_recv : Connection → RecvCall → Option Received
pkg_body_recv c call =
    if is_body_stat c.curstat then (do r ← recvproc c call; some (body_counted r)) else (do
      h ← free_memory c.headerinfo
      some (record c { msgrecv = none; headerinfo = h }, none, false))

-- What a step of the machine leaves: the connection, the messages put into the queue of the thread
-- pool (a null pointer would be `none`), and whether the connection is closed.
pub record Handled : Type 0 where
  pub conn : Connection
  pub queued : List (Option Message)
  pub closes : Bool

abbrev pub quiet : Connection → Bool → Handled
quiet c b = record { conn = c; queued = []; closes = b }

unfoldable pub pkg_body_proc : Connection → Option Handled
unfolding put_to_state_mach
pkg_body_proc c = do
  h ← free_memory c.headerinfo
  some (record {
    conn = put_to_state_mach (record c { recvbuf = nowhere; msgrecv = none; headerinfo = h });
    queued = c.msgrecv ∷ [];
    closes = false;
  })

-- `ntohs(p->pkgLen)`: the first two bytes, high byte first.
abbrev pub pkg_len : List ℕ → ℕ
pkg_len h = get_or h 0 0 * 256 + get_or h 1 0

abbrev pub is_bad_len : ℕ → Bool
is_bad_len n = ltb n pkg_header_len || ltb (pkg_max_length - 1000) n

-- The new message: its header, the packet header, and zeros up to one byte past the packet.
-- `self` is the connection's own address.
abbrev pub start_message : ℕ → Connection → List ℕ → Connection
start_message self c h = record c {
  msgrecv = some (record {
    header = record { lp_curconn = self; msg_cursequence = c.sequence };
    pkg = take pkg_header_len h ++ replicate (pkg_len h + 1 - pkg_header_len) 0;
  });
  recvbuf = in_message pkg_header_len;
  recvlen = pkg_len h - pkg_header_len;
}

abbrev pub header_done : ℕ → Connection → Ptr (List ℕ) → Option Handled
header_done self c nullptr = none
header_done self c (live h) =
    let c' = start_message self c h in
    if is_bad_len (pkg_len h)
    then some (quiet (record c { headerinfo = freed; curstat = pkg_hd_init }) false)
    else (if pkg_len h == pkg_header_len
        then pkg_body_proc c'
        else some (quiet (record c' { curstat = pkg_bd_init }) false))
header_done self c freed = none

unfoldable pub pkg_header_proc : ℕ → Connection → Option Handled
unfolding pkg_body_proc
pkg_header_proc self c = header_done self c c.headerinfo

-- What follows a read of the header: processing if it is complete, and else more reading.
abbrev pub after_header : ℕ → ℕ → Received → Option Handled
after_header self suppose (c, none, closes) = some (quiet c closes)
after_header self suppose (c, some n, closes) =
    if n == suppose
    then pkg_header_proc self c
    else some (quiet (record c { curstat = pkg_hd_recving }) false)

abbrev pub after_body : ℕ → Received → Option Handled
after_body suppose (c, none, closes) = some (quiet c closes)
after_body suppose (c, some n, closes) =
    if n == suppose
    then pkg_body_proc c
    else some (quiet (record c { curstat = pkg_bd_recving }) false)

-- A header that was being read when another is allocated is not given back.
abbrev pub alloc_header : Connection → Connection
alloc_header c = record c {
  headerinfo = live (replicate pkg_header_len 0);
  recvbuf = in_header 0;
  recvlen = pkg_header_len;
}

abbrev pub read_on : ℕ → Connection → RecvCall → Stat → Option Handled
read_on self c call pkg_hd_init = do
  r ← pkg_header_recv (alloc_header c) call
  after_header self pkg_header_len r
read_on self c call pkg_hd_recving =
    if c.recvlen == 0
    then some (quiet c false)
    else (do r ← pkg_header_recv c call; after_header self c.recvlen r)
read_on self c call pkg_bd_init =
    if c.recvlen == 0
    then some (quiet c false)
    else (do r ← pkg_body_recv c call; after_body c.recvlen r)
read_on self c call pkg_bd_recving =
    if c.recvlen == 0
    then some (quiet c false)
    else (do r ← pkg_body_recv c call; after_body c.recvlen r)

unfoldable pub event_readable_request_handler : ℕ → Connection → RecvCall → Option Handled
event_readable_request_handler self c call = read_on self c call c.curstat
