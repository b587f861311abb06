-- ===== src/Recv/Body.antt =====
-- The two states in which the body is read.
use my_nignx.Prelude.{
  ◌>>=◌, ℕ, ◌+◌, ◌-◌, ◌≤◌, ◌<◌, ◌≡◌, refl, ap, true, false, List, [], ◌∷◌, ◌++◌, none, some, arith,
  length, length-append, ◌==◌, ◌%◌, ◌^◌, Bool-cases, ==_iff, inl, inr,
}
use my_nignx.Conn.{Connection, pkg_bd_recving, live, freed, nowhere, in_message, put_to_state_mach}
use my_nignx.Recv.{
  got, recvproc, is_body_stat, pkg_body_recv, Handled, quiet, pkg_body_proc, pkg_len, is_bad_len,
  after_body,
}
use my_nignx.Recv.Framing.{settle_more, settle_whole, pkg_len-append}
use my_nignx.Recv.Memory.{padded, overwrite-padded, replicate_eq}
use my_nignx.Recv.State.{stamp, Settles, idle, bodied}

module _ (self : ℕ) where
  -- A read of the body that leaves more to come.
  body_read :
      (c : Connection) (x bs h : List ℕ)
      → is_body_stat c.curstat ≡ true
      → c.msgrecv ≡ some (record { header = stamp self c; pkg = padded (pkg_len x + 1) x })
      → c.recvbuf ≡ in_message (length x)
      → c.recvlen ≡ pkg_len x - length x
      → 8 ≤ length x
      → length x + length bs < pkg_len x
      → (pkg_body_recv c (got bs) >>= after_body c.recvlen)
        ≡ some (
            quiet
              (record c {
                msgrecv =
                    some (record { header = stamp self c; pkg = padded (pkg_len x + 1) (x ++ bs) });
                recvbuf = in_message (length (x ++ bs));
                recvlen = pkg_len x - length (x ++ bs);
                recvlen_already = (c.recvlen_already + length bs) % 2 ^ 64;
                curstat = pkg_bd_recving;
              })
              false)
  unfolding pkg_body_recv recvproc
  body_read c x bs h st mr rb rl long short =
      ground (arith, overwrite-padded (pkg_len x + 1) x bs, length-append x bs)

  abbrev finished : Connection → List ℕ → List ℕ → Handled
  finished c x bs = record {
    conn = put_to_state_mach (record c {
      msgrecv = none;
      recvbuf = nowhere;
      headerinfo = freed;
      recvlen_already = (c.recvlen_already + length bs) % 2 ^ 64;
    });
    queued = some (record { header = stamp self c; pkg = padded (pkg_len x + 1) (x ++ bs) }) ∷ [];
    closes = false;
  }

  -- A read that completes the body.
  body_full :
      (c : Connection) (x bs h : List ℕ)
      → is_body_stat c.curstat ≡ true
      → c.headerinfo ≡ live h
      → c.msgrecv ≡ some (record { header = stamp self c; pkg = padded (pkg_len x + 1) x })
      → c.recvbuf ≡ in_message (length x)
      → c.recvlen ≡ pkg_len x - length x
      → 8 ≤ length x
      → length x + length bs ≡ pkg_len x
      → (pkg_body_recv c (got bs) >>= after_body c.recvlen) ≡ some (finished c x bs)
  unfolding pkg_body_recv pkg_body_proc recvproc
  body_full c x bs h st hi mr rb rl long full =
      ground (arith, overwrite-padded (pkg_len x + 1) x bs, length-append x bs)

  pub body-Settles :
      (c : Connection) (x bs h : List ℕ)
      → is_body_stat c.curstat ≡ true
      → c.headerinfo ≡ live h
      → c.msgrecv ≡ some (record { header = stamp self c; pkg = padded (pkg_len x + 1) x })
      → c.recvbuf ≡ in_message (length x)
      → c.recvlen ≡ pkg_len x - length x
      → 8 ≤ length x
      → length x + length bs ≤ pkg_len x
      → is_bad_len (pkg_len x) ≡ false
      → Settles self c (x ++ bs) (pkg_body_recv c (got bs) >>= after_body c.recvlen)
  body-Settles c x bs h st hi mr rb rl long fits good =
      let same = pkg_len-append x bs long in
      let sum = length-append x bs in
      elim (Bool-cases (length x + length bs == pkg_len x)) [
        | inl full ↦
            let whole =
              settle_whole (x ++ bs) (omega (arith, sum))
                (omega (arith, sum, same, (==_iff _ _).0 full)) (rw same good) in
            record {
              out = finished c x bs;
              returns = body_full c x bs h st hi mr rb rl long ((==_iff _ _).0 full);
              stays_open = refl;
              queues = rw whole (
                  ap (λ z. some (record { header = stamp self c; pkg = (x ++ bs) ++ z }) ∷ [])
                    (replicate_eq (pkg_len x + 1 - length (x ++ bs)) 1
                      (omega (arith, sum, (==_iff _ _).0 full))));
              holds = rw whole (idle (unfold put_to_state_mach in refl) refl);
              same_sequence = unfold put_to_state_mach in refl;
            }
        | inr part ↦
            let short : length x + length bs < pkg_len x = ground arith in
            let more =
              settle_more (x ++ bs) (omega (arith, sum)) (omega (arith, sum, same))
                (rw same good) in
            record {
              out =
                  quiet
                    (record c {
                      msgrecv = some (record {
                        header = stamp self c;
                        pkg = padded (pkg_len x + 1) (x ++ bs);
                      });
                      recvbuf = in_message (length (x ++ bs));
                      recvlen = pkg_len x - length (x ++ bs);
                      recvlen_already = (c.recvlen_already + length bs) % 2 ^ 64;
                      curstat = pkg_bd_recving;
                    })
                    false;
              returns = body_read c x bs h st mr rb rl long short;
              stays_open = refl;
              queues = rw more;
              holds = rw more (
                  bodied h refl hi (rw same refl) refl (rw same refl) (omega (arith, sum))
                    (omega (arith, sum, same)) (rw same good));
              same_sequence = refl;
            }
      ]
