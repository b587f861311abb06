-- ===== src/Events/Kept.antt =====
-- The descriptor of a connection through the handlers for reading and writing: neither touches it.
use my_nignx.Prelude.{
  All, bind-All, ◌>>=◌, ℕ, ◌≡◌, refl, List, Option, none, some, arith, ◌==◌, ℤ, Bool-cases, inl,
  inr, if◌then◌else◌, false,
}
use my_nignx.Conn.{
  Connection, Stat, pkg_hd_init, pkg_hd_recving, pkg_bd_init, pkg_bd_recving, Message, Ptr, nullptr,
  live, freed, RecvBuf, nowhere, in_header, in_message, put_to_state_mach, pkg_header_len,
}
use my_nignx.Recv.{
  RecvCall, got, returned_zero, failed, Received, overwrite, write_header, write_message,
  write_recvbuf, recvproc, counted, body_counted, pkg_header_recv, pkg_body_recv, free_memory,
  Handled, quiet, pkg_body_proc, pkg_len, is_bad_len, start_message, header_done, pkg_header_proc,
  after_header, after_body, alloc_header, read_on, event_readable_request_handler, is_header_stat,
  is_body_stat,
}
use my_nignx.Send.{written, Sender, SendOutcome, sendproc, event_writable_request_handler}
use my_nignx.Epoll.{epoll_oper_event}

module _ (fd : ℤ) where
  abbrev Any {ℓ} : {A : Type ℓ} → A → Type 0
  Any a = Unit

  abbrev Same : Connection → Type 0
  Same c = c.fd ≡ fd

  abbrev SameReceived : Received → Type 0
  SameReceived r = r.0.fd ≡ fd

  abbrev pub SameHandled : Handled → Type 0
  SameHandled h = h.conn.fd ≡ fd

  always {ℓ} : {A : Type ℓ} (r : Option A) → All Any r
  always none = tt
  always (some a) = tt

  recvbuf-Same :
      (c : Connection) (p : RecvBuf) (bs : List ℕ) → c.fd ≡ fd → All Same (write_recvbuf c p bs)
  recvbuf-Same c nowhere bs e = tt
  recvbuf-Same c (in_header k) bs e = header_cases c.headerinfo
    where
      header_cases : (p : Ptr (List ℕ)) → All Same (write_header c p k bs)
      header_cases nullptr = tt
      header_cases (live h) = bind-All Any Same (overwrite h k bs) _ (always _) (λ h' u. e)
      header_cases freed = tt
  recvbuf-Same c (in_message k) bs e = message_cases c.msgrecv
    where
      message_cases : (p : Option Message) → All Same (write_message c p k bs)
      message_cases none = tt
      message_cases (some m) = bind-All Any Same (overwrite m.pkg k bs) _ (always _) (λ h' u. e)

  recvproc-Same :
      (c : Connection) (call : RecvCall) → c.fd ≡ fd → All SameReceived (recvproc c call)
  unfolding recvproc
  recvproc-Same c (got bs) e =
      bind-All Same SameReceived (write_recvbuf c c.recvbuf bs) _ (recvbuf-Same c c.recvbuf bs e)
        (λ d s. s)
  recvproc-Same c (returned_zero x) e = e
  recvproc-Same c (failed x) e = e

  counted-Same : (r : Received) → r.0.fd ≡ fd → (counted r).0.fd ≡ fd
  counted-Same (c, none, b) e = e
  counted-Same (c, some n, b) e = ground (arith, e)

  body_counted-Same : (r : Received) → r.0.fd ≡ fd → (body_counted r).0.fd ≡ fd
  body_counted-Same (c, none, b) e = e
  body_counted-Same (c, some n, b) e = ground (arith, e)

  pkg_header_recv-Same :
      (c : Connection) (call : RecvCall) → c.fd ≡ fd → All SameReceived (pkg_header_recv c call)
  unfolding pkg_header_recv
  pkg_header_recv-Same c call e = elim (Bool-cases (is_header_stat c.curstat)) [
    | inl h ↦ rw h (
        bind-All SameReceived SameReceived (recvproc c call) _ (recvproc-Same c call e)
          counted-Same)
    | inr h ↦ rw h e
  ]

  pkg_body_recv-Same :
      (c : Connection) (call : RecvCall) → c.fd ≡ fd → All SameReceived (pkg_body_recv c call)
  unfolding pkg_body_recv
  pkg_body_recv-Same c call e = elim (Bool-cases (is_body_stat c.curstat)) [
    | inl h ↦ rw h (
        bind-All SameReceived SameReceived (recvproc c call) _ (recvproc-Same c call e)
          body_counted-Same)
    | inr h ↦ rw h (bind-All Any SameReceived (free_memory c.headerinfo) _ (always _) (λ p u. e))
  ]

  pkg_body_proc-Same : (c : Connection) → c.fd ≡ fd → All SameHandled (pkg_body_proc c)
  unfolding pkg_body_proc put_to_state_mach
  pkg_body_proc-Same c e =
      bind-All Any SameHandled (free_memory c.headerinfo) _ (always _) (λ p u. e)

  header_done-Same :
      (self : ℕ) (c : Connection) (p : Ptr (List ℕ))
      → c.fd ≡ fd
      → All SameHandled (header_done self c p)
  header_done-Same self c nullptr e = tt
  header_done-Same self c (live h) e = elim (Bool-cases (is_bad_len (pkg_len h))) [
    | inl bad ↦ rw bad e
    | inr good ↦ elim (Bool-cases (pkg_len h == pkg_header_len)) [
      | inl short ↦ rw (good, short) (pkg_body_proc-Same (start_message self c h) e)
      | inr long ↦ rw (good, long) e
    ]
  ]
  header_done-Same self c freed e = tt

  after_header-Same :
      (self n : ℕ) (r : Received) → r.0.fd ≡ fd → All SameHandled (after_header self n r)
  unfolding pkg_header_proc
  after_header-Same self n (c, none, b) e = e
  after_header-Same self n (c, some k, b) e = elim (Bool-cases (k == n)) [
    | inl all ↦ rw all (header_done-Same self c c.headerinfo e)
    | inr part ↦ rw part e
  ]

  after_body-Same : (n : ℕ) (r : Received) → r.0.fd ≡ fd → All SameHandled (after_body n r)
  after_body-Same n (c, none, b) e = e
  after_body-Same n (c, some k, b) e = elim (Bool-cases (k == n)) [
    | inl all ↦ rw all (pkg_body_proc-Same c e)
    | inr part ↦ rw part e
  ]

  body_read-Same :
      (c : Connection) (call : RecvCall)
      → c.fd ≡ fd
      → All SameHandled (
          if c.recvlen == 0
          then some (quiet c false)
          else (do r ← pkg_body_recv c call; after_body c.recvlen r))
  body_read-Same c call e = elim (Bool-cases (c.recvlen == 0)) [
    | inl z ↦ rw z e
    | inr z ↦ rw z (
        bind-All SameReceived SameHandled (pkg_body_recv c call) _ (pkg_body_recv-Same c call e)
          (after_body-Same c.recvlen))
  ]

  read_on-Same :
      (self : ℕ) (c : Connection) (call : RecvCall) (s : Stat)
      → c.fd ≡ fd
      → All SameHandled (read_on self c call s)
  read_on-Same self c call pkg_hd_init e =
      bind-All SameReceived SameHandled (pkg_header_recv (alloc_header c) call) _
        (pkg_header_recv-Same (alloc_header c) call e) (after_header-Same self pkg_header_len)
  read_on-Same self c call pkg_hd_recving e = elim (Bool-cases (c.recvlen == 0)) [
    | inl z ↦ rw z e
    | inr z ↦ rw z (
        bind-All SameReceived SameHandled (pkg_header_recv c call) _ (pkg_header_recv-Same c call e)
          (after_header-Same self c.recvlen))
  ]
  read_on-Same self c call pkg_bd_init e = body_read-Same c call e
  read_on-Same self c call pkg_bd_recving e = body_read-Same c call e

-- A step of the receiving machine leaves the descriptor.
pub readable_handler-Same :
    (self : ℕ) (c : Connection) (call : RecvCall)
    → All (SameHandled c.fd) (event_readable_request_handler self c call)
unfolding event_readable_request_handler
readable_handler-Same self c call = read_on-Same c.fd self c call c.curstat refl

written-fd : (c : Connection) (n : Option ℕ) → (written c n).0.fd ≡ c.fd
unfolding epoll_oper_event
written-fd c none = refl
written-fd c (some n) = ground arith

-- So does the handler for writing, of every connection.
pub writable_handler-fd :
    (o : SendOutcome) (k d : ℕ) (s : Sender)
    → ((event_writable_request_handler o k s).conn d).fd ≡ (s.conn d).fd
unfolding event_writable_request_handler epoll_oper_event
writable_handler-fd o k d s =
    let n = sendproc (s.conn k).sendlen o in ground (arith, written-fd (s.conn k) n)
