-- ===== src/Recv/Header.antt =====
-- The two states in which the header is read.
use my_nignx.Prelude.{
  ◌>>=◌, ℕ, ◌+◌, ◌-◌, ◌≤◌, ◌<◌, ◌≡◌, refl, ap, true, false, List, [], ◌∷◌, ◌++◌, none, some, arith,
  length, length-append, ◌==◌, replicate, ◌%◌, ◌^◌, Bool-cases, ==_iff, inl, inr,
}
use my_nignx.Conn.{
  Connection, pkg_hd_init, pkg_hd_recving, pkg_bd_init, live, freed, nowhere, in_header, in_message,
  put_to_state_mach,
}
use my_nignx.Recv.{
  got, recvproc, is_header_stat, pkg_header_recv, quiet, pkg_len, is_bad_len, start_message,
  pkg_header_proc, after_header,
}
use my_nignx.Recv.Framing.{settle, settle_more, settle_header, pkg_len-append}
use my_nignx.Recv.Memory.{padded, overwrite-padded, take-append_exact, replicate_eq}
use my_nignx.Recv.State.{stamp, Holds, Settles, Settles-same, idle, heading, bodied}

module _ (self : ℕ) where
  header_read :
      (c : Connection) (x bs : List ℕ)
      → is_header_stat c.curstat ≡ true
      → c.headerinfo ≡ live (padded 8 x)
      → c.recvbuf ≡ in_header (length x)
      → c.recvlen ≡ 8 - length x
      → length x < 8
      → length x + length bs < 8
      → (pkg_header_recv c (got bs) >>= after_header self c.recvlen)
        ≡ some (
            quiet
              (record c {
                headerinfo = live (padded 8 (x ++ bs));
                recvbuf = in_header (length (x ++ bs));
                recvlen = 8 - length (x ++ bs);
                recvlen_already = (c.recvlen_already + length bs) % 2 ^ 64;
                curstat = pkg_hd_recving;
              })
              false)
  unfolding pkg_header_recv recvproc
  header_read c x bs st hi rb rl lt short =
      ground (arith, overwrite-padded 8 x bs, length-append x bs)

  -- A read that completes the header.
  header_full :
      (c : Connection) (x bs : List ℕ)
      → is_header_stat c.curstat ≡ true
      → c.headerinfo ≡ live (padded 8 x)
      → c.recvbuf ≡ in_header (length x)
      → c.recvlen ≡ 8 - length x
      → length x < 8
      → length x + length bs ≡ 8
      → (pkg_header_recv c (got bs) >>= after_header self c.recvlen)
        ≡ pkg_header_proc self (record c {
          headerinfo = live (padded 8 (x ++ bs));
          recvlen_already = (c.recvlen_already + length bs) % 2 ^ 64;
        })
  unfolding pkg_header_recv recvproc
  header_full c x bs st hi rb rl lt full =
      ground (arith, overwrite-padded 8 x bs, length-append x bs)

  -- The messages self that carry packets: stamped, and with a zero behind.

  header_proc_bad :
      (c : Connection) (y : List ℕ)
      → length y ≡ 8
      → c.headerinfo ≡ live (padded 8 y)
      → is_bad_len (pkg_len y) ≡ true
      → Settles self c y (pkg_header_proc self c)
  unfolding pkg_header_proc settle
  header_proc_bad c y e hi bad = record {
    out = quiet (record c { headerinfo = freed; curstat = pkg_hd_init }) false;
    returns = ground (arith, pkg_len-append y (replicate (8 - length y) 0));
    stays_open = refl;
    queues = ground arith;
    holds = idle refl (ground arith);
    same_sequence = refl;
  }

  -- A packet with no body is complete with its header.
  header_proc_whole :
      (c : Connection) (y : List ℕ)
      → length y ≡ 8
      → c.headerinfo ≡ live (padded 8 y)
      → pkg_len y ≡ 8
      → Settles self c y (pkg_header_proc self c)
  unfolding pkg_header_proc settle
  header_proc_whole c y e hi l = record {
    out = record {
      conn = put_to_state_mach (record (start_message self c (padded 8 y)) {
        recvbuf = nowhere;
        msgrecv = none;
        headerinfo = freed;
      });
      queued = some (record { header = stamp self c; pkg = y ++ (0 ∷ []) }) ∷ [];
      closes = false;
    };
    returns = ground (
      arith,
      pkg_len-append y (replicate (8 - length y) 0),
      take-append_exact y (replicate (8 - length y) 0),
      replicate_eq (pkg_len (padded 8 y) + 1 - 8) 1,
    );
    stays_open = refl;
    queues = ground arith;
    holds = idle refl (ground arith);
    same_sequence = refl;
  }

  started_Holds :
      (c : Connection) (y : List ℕ)
      → length y ≡ 8
      → c.headerinfo ≡ live (padded 8 y)
      → 8 < pkg_len y
      → is_bad_len (pkg_len y) ≡ false
      → Holds self (record (start_message self c (padded 8 y)) { curstat = pkg_bd_init }) y
  started_Holds c y e hi l good =
      bodied (padded 8 y) refl hi
        (ground (
          arith,
          pkg_len-append y (replicate (8 - length y) 0),
          take-append_exact y (replicate (8 - length y) 0),
          replicate_eq (pkg_len (padded 8 y) + 1 - 8) (pkg_len y + 1 - length y),
        ))
        (ap in_message (omega arith)) (omega (arith, pkg_len-append y (replicate (8 - length y) 0)))
        (omega arith) (omega arith) good

  header_proc_body :
      (c : Connection) (y : List ℕ)
      → length y ≡ 8
      → c.headerinfo ≡ live (padded 8 y)
      → 8 < pkg_len y
      → is_bad_len (pkg_len y) ≡ false
      → Settles self c y (pkg_header_proc self c)
  unfolding pkg_header_proc settle
  header_proc_body c y e hi l good = record {
    out = quiet (record (start_message self c (padded 8 y)) { curstat = pkg_bd_init }) false;
    returns = ground (arith, pkg_len-append y (replicate (8 - length y) 0));
    stays_open = refl;
    queues = ground arith;
    holds = rw (settle_more y (omega arith) (omega arith) good) (started_Holds c y e hi l good);
    same_sequence = refl;
  }

  header_proc-Settles :
      (c : Connection) (y : List ℕ)
      → length y ≡ 8
      → c.headerinfo ≡ live (padded 8 y)
      → Settles self c y (pkg_header_proc self c)
  header_proc-Settles c y e hi = elim (Bool-cases (is_bad_len (pkg_len y))) [
    | inl bad ↦ header_proc_bad c y e hi bad
    | inr good ↦ elim (Bool-cases (pkg_len y == 8)) [
      | inl whole ↦ header_proc_whole c y e hi ((==_iff _ _).0 whole)
      | inr more ↦ header_proc_body c y e hi (ground arith) good
    ]
  ]

  pub header-Settles :
      (c : Connection) (x bs : List ℕ)
      → is_header_stat c.curstat ≡ true
      → c.headerinfo ≡ live (padded 8 x)
      → c.recvbuf ≡ in_header (length x)
      → c.recvlen ≡ 8 - length x
      → length x < 8
      → length x + length bs ≤ 8
      → Settles self c (x ++ bs) (pkg_header_recv c (got bs) >>= after_header self c.recvlen)
  header-Settles c x bs st hi rb rl lt fits = elim (Bool-cases (length x + length bs == 8)) [
    | inl full ↦
        Settles-same self c _ (x ++ bs) refl (header_full c x bs st hi rb rl lt (ground arith)) (
          header_proc-Settles
            (record c {
              headerinfo = live (padded 8 (x ++ bs));
              recvlen_already = (c.recvlen_already + length bs) % 2 ^ 64;
            })
            (x ++ bs) (omega (arith, length-append x bs, (==_iff _ _).0 full)) refl)
    | inr short ↦ record {
      out =
          quiet
            (record c {
              headerinfo = live (padded 8 (x ++ bs));
              recvbuf = in_header (length (x ++ bs));
              recvlen = 8 - length (x ++ bs);
              recvlen_already = (c.recvlen_already + length bs) % 2 ^ 64;
              curstat = pkg_hd_recving;
            })
            false;
      returns = header_read c x bs st hi rb rl lt (ground arith);
      stays_open = refl;
      queues = rw (settle_header (x ++ bs) (ground (arith, length-append x bs)));
      holds =
          rw (settle_header (x ++ bs) (ground (arith, length-append x bs)))
            (heading refl refl refl refl (ground (arith, length-append x bs)));
      same_sequence = refl;
    }
  ]
