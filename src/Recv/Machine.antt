-- ===== src/Recv/Machine.antt =====
-- The receiving machine refines the decoding of the byte stream: whatever its four states and its
-- pointers do, a chunk of bytes leaves it holding the bytes of the packet under way, and the
-- packets that the chunk completes are the messages queued.
use my_nignx.Prelude.{
  ℕ, ◌+◌, ◌≤◌, ◌<◌, ◌≡◌, ◌≢◌, refl, sym, ap, ◌∙◌, List, [], ◌++◌, append-nil, some, arith, length,
}
use my_nignx.Conn.{
  Connection, Stat, pkg_hd_init, pkg_hd_recving, pkg_bd_init, pkg_bd_recving, live, in_header,
  in_message,
}
use my_nignx.Sys.{eintr}
use my_nignx.Recv.{
  RecvCall, got, failed, overwrite, write_recvbuf, recvproc, is_header_stat, is_body_stat,
  pkg_header_recv, pkg_body_recv, pkg_len, alloc_header, read_on, event_readable_request_handler,
}
use my_nignx.Recv.Framing.{wanted}
use my_nignx.Recv.Memory.{padded, overwrite-padded}
use my_nignx.Recv.State.{
  stamp, Holds, Settles, Settles-same, read_heading, read_body, idle, heading, bodied,
}
use my_nignx.Recv.Header.{header-Settles}
use my_nignx.Recv.Body.{body-Settles}

module _ (self : ℕ) where
  -- A chunk that fits what the connection waits for is decoded: it leaves the rest of the packet
  -- under way, and queues the packet if it completes it.
  pub chunk-Settles :
      (c : Connection) (x bs : List ℕ)
      → Holds self c x
      → length bs ≤ wanted x
      → Settles self c (x ++ bs) (event_readable_request_handler self c (got bs))
  unfolding event_readable_request_handler
  chunk-Settles c x bs (idle st e) fits =
      let z : List ℕ = [] in
      rw e (
        Settles-same self c (alloc_header c) bs refl (ap (read_on self c (got bs)) st) (
          header-Settles self (alloc_header c) z bs (ap is_header_stat st) refl refl refl
            (omega arith) (ground arith)))
  chunk-Settles c x bs (heading st hi rb rl lt) fits =
      Settles-same self c c (x ++ bs) refl
        (ap (read_on self c (got bs)) st ∙ read_heading self c (got bs) (omega arith))
        (header-Settles self c x bs (rw st refl) hi rb rl lt (ground arith))
  chunk-Settles c x bs (bodied h st hi mr rb rl long lt good) fits =
      Settles-same self c c (x ++ bs) refl (read_body self c (got bs) c.curstat st (omega arith))
        (body-Settles self c x bs h st hi mr rb rl long (ground arith) good)

  write_nothing :
      (n : ℕ) (x : List ℕ) → length x ≤ n → overwrite (padded n x) (length x) [] ≡ some (padded n x)
  write_nothing n x h =
      overwrite-padded n x [] (omega arith) ∙ ap (λ y. some (padded n y)) (append-nil x)

  same_recv :
      (c : Connection)
      → write_recvbuf c c.recvbuf [] ≡ some c
      → recvproc c (failed eintr) ≡ recvproc c (got [])
  unfolding recvproc
  same_recv c e = rw e

  -- Past the first state the machine learns of the call from `recvproc` alone.
  read_on-same :
      (c : Connection) (a b : RecvCall) (s : Stat)
      → recvproc c a ≡ recvproc c b
      → s ≢ pkg_hd_init
      → read_on self c a s ≡ read_on self c b s
  unfolding pkg_header_recv pkg_body_recv
  read_on-same c a b pkg_hd_init e ne = absurd (ne refl)
  read_on-same c a b pkg_hd_recving e ne = rw e
  read_on-same c a b pkg_bd_init e ne = rw e
  read_on-same c a b pkg_bd_recving e ne = rw e

  header_write_nothing :
      (c : Connection) (x : List ℕ)
      → c.headerinfo ≡ live (padded 8 x)
      → c.recvbuf ≡ in_header (length x)
      → length x < 8
      → write_recvbuf c c.recvbuf [] ≡ some c
  header_write_nothing c x hi rb lt = ground (arith, write_nothing 8 x)

  message_write_nothing :
      (c : Connection) (x : List ℕ)
      → c.msgrecv ≡ some (record { header = stamp self c; pkg = padded (pkg_len x + 1) x })
      → c.recvbuf ≡ in_message (length x)
      → length x < pkg_len x
      → write_recvbuf c c.recvbuf [] ≡ some c
  message_write_nothing c x mr rb lt = ground (arith, write_nothing (pkg_len x + 1) x)

  first_same :
      (c : Connection)
      → read_on self c (failed eintr) pkg_hd_init ≡ read_on self c (got []) pkg_hd_init
  unfolding pkg_header_recv recvproc
  first_same c = refl

  -- An interrupted read is a read of no bytes.
  interrupted_eq :
      (c : Connection) (x : List ℕ)
      → Holds self c x
      → event_readable_request_handler self c (failed eintr)
        ≡ event_readable_request_handler self c (got [])
  unfolding event_readable_request_handler
  interrupted_eq c x (idle st e) =
      ap (read_on self c (failed eintr)) st ∙ first_same c ∙ sym (ap (read_on self c (got [])) st)
  interrupted_eq c x (heading st hi rb rl lt) =
      read_on-same c (failed eintr) (got []) c.curstat
        (same_recv c (header_write_nothing c x hi rb lt)) (λ e. cc)
  interrupted_eq c x (bodied h st hi mr rb rl long lt good) =
      read_on-same c (failed eintr) (got []) c.curstat
        (same_recv c (message_write_nothing c x mr rb lt)) (λ e. cc (ap is_body_stat e))

  -- So it changes nothing of what the connection holds.
  pub interrupted-Settles :
      (c : Connection) (x : List ℕ)
      → Holds self c x
      → Settles self c x (event_readable_request_handler self c (failed eintr))
  interrupted-Settles c x v =
      Settles-same self c c x refl (interrupted_eq c x v)
        (rw (append-nil x) at (chunk-Settles c x [] v (omega arith)))
