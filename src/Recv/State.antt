-- ===== src/Recv/State.antt =====
-- What a connection holds of the packet under way, in each of the four states of the receiving
-- machine, and when a step of it settles the bytes read.
use my_nignx.Prelude.{
  ◌>>=◌, ℕ, ◌+◌, ◌-◌, ◌≤◌, ◌<◌, ◌≡◌, refl, ◌∙◌, true, false, List, [], ◌∷◌, ◌++◌, Option, some,
  arith, length, ◌==◌,
}
use my_nignx.Conn.{
  Connection, Stat, pkg_hd_init, pkg_hd_recving, pkg_bd_init, pkg_bd_recving, MsgHeader, Message,
  live, in_header, in_message, pkg_header_len,
}
use my_nignx.Recv.{
  RecvCall, is_body_stat, pkg_header_recv, pkg_body_recv, Handled, pkg_len, is_bad_len,
  after_header, after_body, read_on,
}
use my_nignx.Recv.Framing.{settle, settle_more, settle_header, wanted, IsPartial}
use my_nignx.Recv.Memory.{padded}

module _ (self : ℕ) where
  abbrev pub stamp : Connection → MsgHeader
  stamp c = record { lp_curconn = self; msg_cursequence = c.sequence }

  pub data Holds (c : Connection) (x : List ℕ) : Type 0 where
    idle : c.curstat ≡ pkg_hd_init → x ≡ [] → Holds c x
    heading :
        c.curstat ≡ pkg_hd_recving
        → c.headerinfo ≡ live (padded 8 x)
        → c.recvbuf ≡ in_header (length x)
        → c.recvlen ≡ 8 - length x
        → length x < 8
        → Holds c x
    bodied :
        (h : List ℕ)
        → is_body_stat c.curstat ≡ true
        → c.headerinfo ≡ live h
        → c.msgrecv ≡ some (record { header = stamp c; pkg = padded (pkg_len x + 1) x })
        → c.recvbuf ≡ in_message (length x)
        → c.recvlen ≡ pkg_len x - length x
        → 8 ≤ length x
        → length x < pkg_len x
        → is_bad_len (pkg_len x) ≡ false
        → Holds c x

  abbrev pub messages : Connection → List (List ℕ) → List (Option Message)
  messages c [] = []
  messages c (p ∷ ps) = some (record { header = stamp c; pkg = p ++ (0 ∷ []) }) ∷ messages c ps

  -- A result that settles the bytes `y`.
  pub record Settles (c : Connection) (y : List ℕ) (r : Option Handled) : Type 0 where
    pub out : Handled
    pub returns : r ≡ some out
    pub stays_open : out.closes ≡ false
    pub queues : out.queued ≡ messages c (settle y).1
    pub holds : Holds out.conn (settle y).0
    pub same_sequence : out.conn.sequence ≡ c.sequence

  pub messages_eq :
      (c d : Connection) (ps : List (List ℕ))
      → d.sequence ≡ c.sequence
      → messages d ps ≡ messages c ps
  messages_eq c d [] e = refl
  messages_eq c d (p ∷ ps) e = cc (messages_eq c d ps e)

  -- A result for the connection before the bookkeeping is one for the connection after.
  pub Settles-same :
      (c d : Connection) (y : List ℕ) {r s : Option Handled}
      → d.sequence ≡ c.sequence
      → s ≡ r
      → Settles d y r
      → Settles c y s
  Settles-same c d y e f v = record {
    out = v.out;
    returns = f ∙ v.returns;
    stays_open = v.stays_open;
    queues = v.queues ∙ messages_eq c d (settle y).1 e;
    holds = v.holds;
    same_sequence = v.same_sequence ∙ e;
  }

  -- A chunk of header bytes.

  pub read_heading :
      (c : Connection) (call : RecvCall)
      → 0 < c.recvlen
      → read_on self c call pkg_hd_recving
        ≡ (pkg_header_recv c call >>= after_header self c.recvlen)
  read_heading c call long = let z : (c.recvlen == 0) ≡ false = ground arith in rw z

  pub read_body :
      (c : Connection) (call : RecvCall) (s : Stat)
      → is_body_stat s ≡ true
      → 0 < c.recvlen
      → read_on self c call s ≡ (pkg_body_recv c call >>= after_body c.recvlen)
  read_body c call pkg_hd_init e long = cc
  read_body c call pkg_hd_recving e long = cc
  read_body c call pkg_bd_init e long = let z : (c.recvlen == 0) ≡ false = ground arith in rw z
  read_body c call pkg_bd_recving e long = let z : (c.recvlen == 0) ≡ false = ground arith in rw z

  pub Holds-IsPartial : (c : Connection) (x : List ℕ) → Holds c x → IsPartial x
  Holds-IsPartial c x (idle st e) = rw (e, settle_header [] (omega arith))
  Holds-IsPartial c x (heading st hi rb rl lt) = settle_header x lt
  Holds-IsPartial c x (bodied h st hi mr rb rl long lt good) = settle_more x long lt good

  -- What the code asks `recv` for is what the packet under way wants.
  pub asked : Connection → ℕ
  asked c = elim c.curstat [ pkg_hd_init ↦ pkg_header_len | _ ↦ c.recvlen ]

  pub asked-wanted : (c : Connection) (x : List ℕ) → Holds c x → asked c ≡ wanted x
  unfolding asked
  asked-wanted c x (idle st e) = ground arith
  asked-wanted c x (heading st hi rb rl lt) = ground arith
  asked-wanted c x (bodied h st hi mr rb rl long lt good) = ground arith

  pub asked_pos : (c : Connection) (x : List ℕ) → Holds c x → 0 < asked c
  unfolding asked
  asked_pos c x (idle st e) = ground arith
  asked_pos c x (heading st hi rb rl lt) = ground arith
  asked_pos c x (bodied h st hi mr rb rl long lt good) = ground arith
