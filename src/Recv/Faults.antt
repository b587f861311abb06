-- ===== src/Recv/Faults.antt =====
-- What the receiving functions make of a `recv` that stores nothing.
use my_nignx.Prelude.{
  ◌>>=◌, ℕ, ◌<◌, ◌≡◌, refl, ap, ◌∙◌, ◌⊎◌, inl, inr, Bool, true, false, List, [], ◌∷◌, Option, none,
  some, arith, length,
}
use my_nignx.Sys.{Errno, no_errno, eagain, eintr, econnreset, enosys, echild, other_errno}
use my_nignx.Conn.{Connection, Message, in_message}
use my_nignx.Recv.{
  RecvCall, quiet, got, failed, returned_zero, recvproc, Handled, event_readable_request_handler,
  pkg_header_recv, pkg_body_recv, read_on, after_header, after_body, alloc_header, is_body_stat,
  is_header_stat,
}
use my_nignx.Recv.State.{Holds, idle, heading, bodied, read_heading, read_body}

-- The calls after which the connection is to be closed, as the comments of `recvproc` have it.
abbrev pub is_fatal_zero : Errno → Bool
is_fatal_zero no_errno = false
is_fatal_zero eagain = false
is_fatal_zero _ = true

abbrev pub is_fatal_failure : Errno → Bool
is_fatal_failure eintr = false
is_fatal_failure eagain = false
is_fatal_failure _ = true

-- Whether a step closes the connection, and what it queues (`none` for a fault).
abbrev pub effects : Option Handled → Option (Bool × List (Option Message))
effects none = none
effects (some h) = some (h.closes, h.queued)

-- The calls after which the connection is closed.
abbrev pub is_fatal : RecvCall → Bool
is_fatal (got bs) = false
is_fatal (returned_zero e) = is_fatal_zero e
is_fatal (failed e) = is_fatal_failure e

abbrev pub StoresNothing : RecvCall → Type 0
StoresNothing (got bs) = ⊥
StoresNothing (returned_zero e) = Unit {0}
StoresNothing (failed e) = Unit {0}

-- `recvproc` returns -1, or 0 with no close, and leaves the connection.
abbrev Reply : RecvCall → Type 0
Reply call =
    (r : Option ℕ) × ((r ≡ none) ⊎ ((r ≡ some 0) × (is_fatal call ≡ false)))
    × ((c : Connection) → recvproc c call ≡ some (c, r, is_fatal call))

Reply-total : (call : RecvCall) → StoresNothing call → Reply call
unfolding recvproc
Reply-total (got bs) u = elim u [ ]
Reply-total (returned_zero no_errno) u = (some 0, inr (refl, refl), λ c. refl)
Reply-total (returned_zero eagain) u = (none, inl refl, λ c. refl)
Reply-total (returned_zero eintr) u = (none, inl refl, λ c. refl)
Reply-total (returned_zero econnreset) u = (none, inl refl, λ c. refl)
Reply-total (returned_zero enosys) u = (none, inl refl, λ c. refl)
Reply-total (returned_zero echild) u = (none, inl refl, λ c. refl)
Reply-total (returned_zero other_errno) u = (none, inl refl, λ c. refl)
Reply-total (failed no_errno) u = (none, inl refl, λ c. refl)
Reply-total (failed eagain) u = (none, inl refl, λ c. refl)
Reply-total (failed eintr) u = (some 0, inr (refl, refl), λ c. refl)
Reply-total (failed econnreset) u = (none, inl refl, λ c. refl)
Reply-total (failed enosys) u = (none, inl refl, λ c. refl)
Reply-total (failed echild) u = (none, inl refl, λ c. refl)
Reply-total (failed other_errno) u = (none, inl refl, λ c. refl)

module _ (self : ℕ) where
  header_effects :
      (c : Connection) (call : RecvCall) (n : ℕ) (closes : Bool) (r : Option ℕ)
      → is_header_stat c.curstat ≡ true
      → recvproc c call ≡ some (c, r, closes)
      → 0 < n
      → (r ≡ none) ⊎ ((r ≡ some 0) × (closes ≡ false))
      → effects (pkg_header_recv c call >>= after_header self n) ≡ some (closes, [])
  unfolding pkg_header_recv
  header_effects c call n closes r st e long k = ground arith

  body_effects :
      (c : Connection) (call : RecvCall) (n : ℕ) (closes : Bool) (r : Option ℕ)
      → is_body_stat c.curstat ≡ true
      → recvproc c call ≡ some (c, r, closes)
      → 0 < n
      → (r ≡ none) ⊎ ((r ≡ some 0) × (closes ≡ false))
      → effects (pkg_body_recv c call >>= after_body n) ≡ some (closes, [])
  unfolding pkg_body_recv
  body_effects c call n closes r st e long k = ground arith

  -- For a connection in a proper state, a `recv` that stores nothing never faults and queues
  -- nothing, and the connection is closed exactly after a return of 0 with `errno` other than 0 and
  -- EAGAIN, or a failure other than EINTR and EAGAIN.
  pub no_bytes_effects :
      (c : Connection) (x : List ℕ) (call : RecvCall)
      → Holds self c x
      → StoresNothing call
      → effects (event_readable_request_handler self c call) ≡ some (is_fatal call, [])
  unfolding event_readable_request_handler
  no_bytes_effects c x call (idle st e) u =
      let (r, k, reply) = Reply-total call u in
      ap (λ s. effects (read_on self c call s)) st
      ∙ header_effects (alloc_header c) call 8 (is_fatal call) r (ap is_header_stat st)
          (reply (alloc_header c)) (omega arith) k
  no_bytes_effects c x call (heading st hi rb rl lt) u =
      let (r, k, reply) = Reply-total call u in
      ap (λ s. effects (read_on self c call s)) st
      ∙ ap effects (read_heading self c call (omega arith))
      ∙ header_effects c call c.recvlen (is_fatal call) r (ap is_header_stat st) (reply c)
          (omega arith) k
  no_bytes_effects c x call (bodied h st hi mr rb rl long lt good) u =
      let (r, k, reply) = Reply-total call u in
      ap effects (read_body self c call c.curstat st (omega arith))
      ∙ body_effects c call c.recvlen (is_fatal call) r st (reply c) (omega arith) k

  eagain_body :
      (c : Connection) (n : ℕ)
      → is_body_stat c.curstat ≡ true
      → (pkg_body_recv c (failed eagain) >>= after_body n)
        ≡ some (quiet (record c { msgrecv = none }) false)
  unfolding pkg_body_recv recvproc
  eagain_body c n st = ground arith

  dangling_body :
      (c : Connection) (n k : ℕ) (bs : List ℕ)
      → is_body_stat c.curstat ≡ true
      → c.msgrecv ≡ none
      → c.recvbuf ≡ in_message k
      → (pkg_body_recv c (got bs) >>= after_body n) ≡ none
  unfolding pkg_body_recv recvproc
  dangling_body c n k bs st mr rb = ground arith

  -- While a body is being read, a `recv` that fails with EAGAIN gives the message up and leaves the
  -- machine where it was: the bytes of the next read are stored through a dangling pointer.
  pub body_eagain-faults :
      (c : Connection) (x : List ℕ) (b' : ℕ) (bs : List ℕ)
      → Holds self c x
      → is_body_stat c.curstat ≡ true
      → (h : Handled) × (event_readable_request_handler self c (failed eagain) ≡ some h)
        × (h.closes ≡ false)
        × (event_readable_request_handler self h.conn (got (b' ∷ bs)) ≡ none)
  unfolding event_readable_request_handler
  body_eagain-faults c x b' bs (idle st e) b = cc (ap is_body_stat st)
  body_eagain-faults c x b' bs (heading st hi rb rl lt) b = cc (ap is_body_stat st)
  body_eagain-faults c x b' bs (bodied h st hi mr rb rl long lt good) b = (
    quiet (record c { msgrecv = none }) false,
    read_body self c (failed eagain) c.curstat st (omega arith) ∙ eagain_body c c.recvlen st,
    refl,
    read_body self (record c { msgrecv = none }) (got (b' ∷ bs)) c.curstat st (omega arith)
        ∙ dangling_body (record c { msgrecv = none }) c.recvlen (length x) (b' ∷ bs) st refl rb,
  )
