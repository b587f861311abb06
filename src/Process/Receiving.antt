-- ===== src/Process/Receiving.antt =====
-- The receiving machine names only its own connection: what it queues, and the message that it has in
-- hand.
use my_nignx.Prelude.{
  Every, All, bind-All, ◌>>=◌, ℕ, ◌<◌, ◌≡◌, false, List, Option, none, some, arith, ◌==◌,
  if◌then◌else◌, Bool-cases, inl, inr,
}
use my_nignx.Conn.{
  Connection, Stat, pkg_hd_init, pkg_hd_recving, pkg_bd_init, pkg_bd_recving, Message, Ptr, nullptr,
  live, freed, RecvBuf, nowhere, in_header, in_message, put_to_state_mach, pkg_header_len,
}
use my_nignx.Recv.{
  RecvCall, got, returned_zero, failed, Received, overwrite, write_header, write_message,
  write_recvbuf, recvproc, advance, counted, body_counted, pkg_header_recv, pkg_body_recv,
  free_memory, Handled, quiet, pkg_body_proc, pkg_len, is_bad_len, start_message, header_done,
  pkg_header_proc, after_header, after_body, alloc_header, read_on, event_readable_request_handler,
  is_header_stat, is_body_stat,
}
use my_nignx.Process.Pointers.{NamesIn}

msgrecv-advance : (c : Connection) (k : ℕ) → (advance c k).msgrecv ≡ c.msgrecv
msgrecv-advance c k = ground arith

-- After a step of the machine.
abbrev pub QueuesIn : ℕ → Handled → Type 0
QueuesIn n h = All (NamesIn n) h.conn.msgrecv × Every (All (NamesIn n)) h.queued

module _ (n self : ℕ) (made : self < n) where
  abbrev Reads : Received → Type 0
  Reads r = All (NamesIn n) r.0.msgrecv

  abbrev Queues : Handled → Type 0
  Queues h = QueuesIn n h

  always {ℓ} : {A : Type ℓ} (r : Option A) → All (λ a. Unit {0}) r
  always none = tt
  always (some a) = tt

  written-Knows :
      (c : Connection) (p : RecvBuf) (bs : List ℕ)
      → All (NamesIn n) c.msgrecv
      → All (λ d. All (NamesIn n) d.msgrecv) (write_recvbuf c p bs)
  written-Knows c nowhere bs v = tt
  written-Knows c (in_header k) bs v = header_cases c.headerinfo
    where
      header_cases :
          (p : Ptr (List ℕ)) → All (λ d. All (NamesIn n) d.msgrecv) (write_header c p k bs)
      header_cases nullptr = tt
      header_cases (live h) =
          bind-All (λ a. Unit {0}) (λ d. All (NamesIn n) d.msgrecv) (overwrite h k bs) _ (always _)
            (λ h' u. v)
      header_cases freed = tt
  written-Knows c (in_message k) bs v = message_cases c.msgrecv v
    where
      message_cases :
          (p : Option Message)
          → All (NamesIn n) p
          → All (λ d. All (NamesIn n) d.msgrecv) (write_message c p k bs)
      message_cases none v = tt
      message_cases (some m) v =
          bind-All (λ a. Unit {0}) (λ d. All (NamesIn n) d.msgrecv) (overwrite m.pkg k bs) _
            (always _) (λ h' u. v)

  recvproc-Reads :
      (c : Connection) (call : RecvCall) → All (NamesIn n) c.msgrecv → All Reads (recvproc c call)
  unfolding recvproc
  recvproc-Reads c (got bs) v =
      bind-All (λ d. All (NamesIn n) d.msgrecv) Reads (write_recvbuf c c.recvbuf bs) _
        (written-Knows c c.recvbuf bs v) (λ d s. s)
  recvproc-Reads c (returned_zero x) v = v
  recvproc-Reads c (failed x) v = v

  counted-Reads : (r : Received) → Reads r → Reads (counted r)
  counted-Reads (c, none, b) v = v
  counted-Reads (c, some k, b) v = rw (msgrecv-advance c k) v

  body_counted-Reads : (r : Received) → Reads r → Reads (body_counted r)
  body_counted-Reads (c, none, b) v = tt
  body_counted-Reads (c, some k, b) v = rw (msgrecv-advance c k) v

  header_recv-Reads :
      (c : Connection) (call : RecvCall)
      → All (NamesIn n) c.msgrecv
      → All Reads (pkg_header_recv c call)
  unfolding pkg_header_recv
  header_recv-Reads c call v = elim (Bool-cases (is_header_stat c.curstat)) [
    | inl h ↦
        rw h (bind-All Reads Reads (recvproc c call) _ (recvproc-Reads c call v) counted-Reads)
    | inr h ↦ rw h v
  ]

  body_recv-Reads :
      (c : Connection) (call : RecvCall)
      → All (NamesIn n) c.msgrecv
      → All Reads (pkg_body_recv c call)
  unfolding pkg_body_recv
  body_recv-Reads c call v = elim (Bool-cases (is_body_stat c.curstat)) [
    | inl h ↦
        rw h (bind-All Reads Reads (recvproc c call) _ (recvproc-Reads c call v) body_counted-Reads)
    | inr h ↦
        rw h (bind-All (λ a. Unit {0}) Reads (free_memory c.headerinfo) _ (always _) (λ p u. tt))
  ]

  body_proc-Queues : (c : Connection) → All (NamesIn n) c.msgrecv → All Queues (pkg_body_proc c)
  unfolding pkg_body_proc put_to_state_mach
  body_proc-Queues c v =
      bind-All (λ a. Unit {0}) Queues (free_memory c.headerinfo) _ (always _) (λ p u. (tt, (v, tt)))

  header_done-Queues :
      (c : Connection) (p : Ptr (List ℕ))
      → All (NamesIn n) c.msgrecv
      → All Queues (header_done self c p)
  header_done-Queues c nullptr v = tt
  header_done-Queues c (live h) v = elim (Bool-cases (is_bad_len (pkg_len h))) [
    | inl bad ↦ rw bad (v, tt)
    | inr good ↦ elim (Bool-cases (pkg_len h == pkg_header_len)) [
      | inl short ↦ rw (good, short) (body_proc-Queues (start_message self c h) made)
      | inr long ↦ rw (good, long) (made, tt)
    ]
  ]
  header_done-Queues c freed v = tt

  after_header-Queues : (k : ℕ) (r : Received) → Reads r → All Queues (after_header self k r)
  unfolding pkg_header_proc
  after_header-Queues k (c, none, b) v = (v, tt)
  after_header-Queues k (c, some j, b) v = elim (Bool-cases (j == k)) [
    | inl all ↦ rw all (header_done-Queues c c.headerinfo v)
    | inr part ↦ rw part (v, tt)
  ]

  after_body-Queues : (k : ℕ) (r : Received) → Reads r → All Queues (after_body k r)
  after_body-Queues k (c, none, b) v = (v, tt)
  after_body-Queues k (c, some j, b) v = elim (Bool-cases (j == k)) [
    | inl all ↦ rw all (body_proc-Queues c v)
    | inr part ↦ rw part (v, tt)
  ]

  body_read-Queues :
      (c : Connection) (call : RecvCall)
      → All (NamesIn n) c.msgrecv
      → All Queues (
          if c.recvlen == 0
          then some (quiet c false)
          else (do r ← pkg_body_recv c call; after_body c.recvlen r))
  body_read-Queues c call v = elim (Bool-cases (c.recvlen == 0)) [
    | inl z ↦ rw z (v, tt)
    | inr z ↦ rw z (
        bind-All Reads Queues (pkg_body_recv c call) _ (body_recv-Reads c call v)
          (after_body-Queues c.recvlen))
  ]

  read_on-Queues :
      (c : Connection) (call : RecvCall) (s : Stat)
      → All (NamesIn n) c.msgrecv
      → All Queues (read_on self c call s)
  read_on-Queues c call pkg_hd_init v =
      bind-All Reads Queues (pkg_header_recv (alloc_header c) call) _
        (header_recv-Reads (alloc_header c) call v) (after_header-Queues pkg_header_len)
  read_on-Queues c call pkg_hd_recving v = elim (Bool-cases (c.recvlen == 0)) [
    | inl z ↦ rw z (v, tt)
    | inr z ↦ rw z (
        bind-All Reads Queues (pkg_header_recv c call) _ (header_recv-Reads c call v)
          (after_header-Queues c.recvlen))
  ]
  read_on-Queues c call pkg_bd_init v = body_read-Queues c call v
  read_on-Queues c call pkg_bd_recving v = body_read-Queues c call v

  pub readable_handler-Queues :
      (c : Connection) (call : RecvCall)
      → All (NamesIn n) c.msgrecv
      → All Queues (event_readable_request_handler self c call)
  unfolding event_readable_request_handler
  readable_handler-Queues c call v = read_on-Queues c call c.curstat v
