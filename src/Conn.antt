-- ===== src/Conn.antt =====
-- The connection object: `connection_s` and the packed message structs of _include/comm.h, with
-- the member functions of net/socket_conn.cxx. A connection is named by a number, in place of its
-- address. The target is 64-bit: `sizeof(STRUC_MSG_HEADER)` is 16.
pub mod Outdate
mod Tests
use my_nignx.Prelude.{
  ℕ, ◌+◌, ◌-◌, ◌%◌, ◌^◌, Bool, true, false, not, ◌||◌, List, Option, none, ltb, ◌==◌, if◌then◌else◌,
  ℤ, pos, negsuc, leb_ℤ,
}

abbrev pub pkg_header_len : ℕ
pkg_header_len = 8

abbrev pub pkg_max_length : ℕ
pkg_max_length = 30000

-- The four states of the receiving machine.
pub data Stat : Type 0 where
  pkg_hd_init pkg_hd_recving pkg_bd_init pkg_bd_recving : Stat

pub record MsgHeader : Type 0 where
  pub lp_curconn : ℕ
  pub msg_cursequence : ℕ

-- A message in memory: the message header, then the bytes from the packet header on.
pub record Message : Type 0 where
  pub header : MsgHeader
  pub pkg : List ℕ

-- A plain pointer to memory of its own.
pub data Ptr {ℓ} (A : Type ℓ) : Type ℓ where
  nullptr : Ptr A
  live : A → Ptr A
  freed : Ptr A

-- `p_recvbuf` points into the header memory, or into the message from its packet header on.
pub data RecvBuf : Type 0 where
  nowhere : RecvBuf
  in_header : ℕ → RecvBuf
  in_message : ℕ → RecvBuf

-- The member functions that `rhandler` and `whandler` may hold.
pub data Handler : Type 0 where
  unset accept_handler readable_handler writable_handler : Handler

pub record Connection : Type 0 where
  pub fd : ℤ
  pub rhandler : Handler
  pub whandler : Handler
  pub sequence : ℕ
  pub events : ℕ
  pub curstat : Stat
  pub headerinfo : Ptr (List ℕ)
  pub msgrecv : Option Message
  pub recvbuf : RecvBuf
  pub recvlen : ℕ
  pub recvlen_already : ℕ
  pub msgsend : Option Message
  pub sendbuf : Option ℕ
  pub throwsend_count : ℤ
  pub sendlen : ℕ
  pub sendlen_suppose : ℕ
  pub sendlen_already : ℕ
  pub isend_count : ℤ
  pub listenitem : Option ℕ
  pub inrevy_time : ℕ
  pub in_recy_list : Bool
  pub ping_update_time : ℕ
  pub istimeout : Bool

-- `++sequence` on a `uint64_t`.
abbrev pub next_sequence : ℕ → ℕ
next_sequence s = (s + 1) % 2 ^ 64

unfoldable pub put_to_state_mach : Connection → Connection
put_to_state_mach c = record c {
  headerinfo = nullptr;
  recvbuf = nowhere;
  recvlen = pkg_header_len;
  msgrecv = none;
  curstat = pkg_hd_init;
  recvlen_already = 0;
}

-- `now` is what `time(NULL)` returns.
unfoldable pub get_one_to_use : ℕ → Connection → Connection
unfolding put_to_state_mach
get_one_to_use now c = put_to_state_mach (record c {
  sequence = next_sequence c.sequence;
  fd = negsuc 0;
  events = 0;
  throwsend_count = pos 0;
  sendlen_already = 0;
  isend_count = pos 0;
  in_recy_list = false;
  istimeout = false;
  ping_update_time = now;
})

unfoldable pub put_one_to_free : Connection → Connection
put_one_to_free c = record c {
  sequence = next_sequence c.sequence;
  recvbuf = nowhere;
  msgrecv = none;
  sendbuf = none;
  msgsend = none;
  throwsend_count = pos 0;
}

-- A `uint64_t` passed as an `int` and compared with a `uint64_t`: cut to 32 bits, then extended
-- by its sign.
unfoldable pub through_int : ℕ → ℕ
through_int n = let w = n % 2 ^ 32 in if ltb w (2 ^ 31) then w else w + (2 ^ 64 - 2 ^ 32)

-- `false` says that the connection is out of date.
unfoldable pub judge_outdate : Connection → ℕ → Bool
unfolding through_int
judge_outdate c cur =
    if leb_ℤ c.fd (pos 0) || c.in_recy_list || not (c.sequence == through_int cur)
    then false
    else true
