-- ===== src/Send/Writable.antt =====
-- A packet that was sent in part: what the calls of `event_writable_request_handler` do until it is
-- sent (net/socket_request.cxx).
use Prim.Native.Nat.{min}
use my_nignx.Prelude.{
  ℕ, zero, suc, ◌+◌, ◌-◌, ◌≤◌, ◌<◌, ◌≡◌, refl, sym, ap, ◌∙◌, inl, inr, true, false, List, [], ◌∷◌,
  ◌++◌, append-nil, append_assoc, some, arith, ltb, ◌==◌, if◌then◌else◌, take, drop, Bool-cases,
  ==_refl, ◌%◌, ◌^◌,
}
use mathlib.Core.Path.{subst}
use my_nignx.Conn.{Connection, Message}
use my_nignx.Send.{
  SendOutcome, interrupted, took, again, broken, returned_zero, sendproc, Sender, rest_of,
  sent_part, event_writable_request_handler,
}
use my_nignx.Send.Wire.{Succeeds, take-split, is_busy}

-- The calls of the handler that epoll makes while the connection waits for room.
pub writes : List SendOutcome → ℕ → Sender → Sender
writes [] k s = s
writes (o ∷ os) k s =
    let rest = writes os k (event_writable_request_handler o k s) in
    if is_busy (s.conn k) then rest else s

-- The calls that take something.
abbrev pub takes : SendOutcome → ℕ
takes (interrupted o) = takes o
takes (took n) = 1
takes again = 0
takes broken = 0
takes returned_zero = 0

abbrev pub all_take : List SendOutcome → ℕ
all_take [] = 0
all_take (o ∷ os) = takes o + all_take os

abbrev pub AllSucceed : List SendOutcome → Type 0
AllSucceed [] = Unit {0}
AllSucceed (o ∷ os) = Succeeds o × AllSucceed os

-- The packet of `m` is sent up to `p`.
pub record IsUnderWay (m : Message) (p : ℕ) (c : Connection) : Type 0 where
  pub its_message : c.msgsend ≡ some m
  pub its_place : c.sendbuf ≡ some p
  pub counts : c.sendlen_already + c.sendlen ≡ c.sendlen_suppose
  pub small : c.sendlen_suppose < 2 ^ 64
  pub unsent : 0 < c.sendlen
  pub busy : is_busy c ≡ true

sendproc-takes :
    (len : ℕ) (o : SendOutcome)
    → Succeeds o
    → 0 < len
    → (n : ℕ) × (sendproc len o ≡ some n) × (n ≤ len) × (takes o ≤ n)
unfolding sendproc
sendproc-takes len (interrupted o) v h = sendproc-takes len o v h
sendproc-takes len (took n) v h = (min (suc n) len, refl, omega arith, omega arith)
sendproc-takes len again v h = (0, refl, omega arith, omega arith)
sendproc-takes len broken v h = absurd v
sendproc-takes len returned_zero v h = absurd v

drop_nil : (n : ℕ) → drop {A = ℕ} n [] ≡ []
drop_nil zero = refl
drop_nil (suc n) = refl

drop_twice : (n p : ℕ) (xs : List ℕ) → drop n (drop p xs) ≡ drop (p + n) xs
drop_twice n zero xs = ap (λ k. drop k xs) (omega arith)
drop_twice n (suc p) [] = drop_nil n ∙ sym (drop_nil (suc p + n))
drop_twice n (suc p) (x ∷ xs) =
    drop_twice n p xs ∙ ap (λ k. drop k (x ∷ xs)) {x = suc (p + n)} {y = suc p + n} (omega arith)

all_taken : (l : ℕ) (xs : List ℕ) → take l (take l xs) ≡ take l xs
all_taken l xs =
    let z : l - l ≡ 0 = omega arith in
    let split = take-split l l xs (omega arith) in
    sym (append-nil (take l (take l xs))) ∙ (rw z at split)

module _ (m : Message) (p n : ℕ) (c : Connection) (v : IsUnderWay m p c) where
  part-IsUnderWay : n < c.sendlen → IsUnderWay m (p + n) (sent_part n c)
  part-IsUnderWay h =
      let small = v.small in
      let counts = v.counts in
      record {
        its_message = v.its_message;
        its_place = rw v.its_place refl;
        counts = omega (arith, small, counts);
        small = v.small;
        unsent = omega (arith, h);
        busy = v.busy;
      }

  rest_part :
      n ≤ c.sendlen
      → take n (rest_of (some m) (some p) c.sendlen)
          ++ rest_of (some m) (some (p + n)) (c.sendlen - n)
        ≡ rest_of (some m) (some p) c.sendlen
  rest_part h =
      ap (λ xs. take n (take c.sendlen (drop p m.pkg)) ++ take (c.sendlen - n) xs)
        (sym (drop_twice n p m.pkg))
      ∙ take-split n c.sendlen (drop p m.pkg) h

-- What is left of the packet goes out, and the send thread is woken once.
pub record IsWritten (k : ℕ) (rest : List ℕ) (s t : Sender) : Type 0 where
  pub on_wire : t.wire k ≡ s.wire k ++ rest
  pub idle : is_busy (t.conn k) ≡ false
  pub woken_once : t.sendsem ≡ s.sendsem + 1
  pub same_list : t.msg_list ≡ s.msg_list

module _ (k : ℕ) (o : SendOutcome) (n : ℕ) (m : Message) (p : ℕ) (s : Sender)
    (v : IsUnderWay m p (s.conn k)) (e : sendproc (s.conn k).sendlen o ≡ some n) where
  -- The handler when `n` bytes are taken, and not all.
  part_lem :
      n < (s.conn k).sendlen
      → let t = event_writable_request_handler o k s in
        (t.conn k ≡ sent_part n (s.conn k))
        × (t.sendsem ≡ s.sendsem)
        × (t.msg_list ≡ s.msg_list)
        × (t.wire k ≡ s.wire k ++ take n (rest_of (some m) (some p) (s.conn k).sendlen))
  unfolding event_writable_request_handler
  part_lem h =
      let test : ltb n (s.conn k).sendlen ≡ true = ground arith in
      (
        rw (e, test, ==_refl k) refl,
        rw (e, test) refl,
        refl,
        rw (e, ==_refl k, v.its_message, v.its_place) refl,
      )

  -- All that is left is taken.
  whole_lem :
      n ≡ (s.conn k).sendlen
      → IsWritten k
          (rest_of (some m) (some p) (s.conn k).sendlen)
          s
          (event_writable_request_handler o k s)
  unfolding event_writable_request_handler
  whole_lem h =
      let counts = v.counts in
      let small = v.small in
      let c = s.conn k in
      let test : ltb n c.sendlen ≡ false = ground arith in
      let right : ((c.sendlen_already + n) % 2 ^ 64 == c.sendlen_suppose) ≡ true = ground arith in
      record {
        on_wire =
            rw (e, ==_refl k, v.its_message, v.its_place)
              (ap (◌++◌ (s.wire k)) (
                ap (λ l. take l (take c.sendlen (drop p m.pkg))) h
                ∙ all_taken c.sendlen (drop p m.pkg)));
        idle = rw (e, test, right, ==_refl k) refl;
        woken_once = rw (e, test, right) refl;
        same_list = refl;
      }

pub writes_idle :
    (os : List SendOutcome) (k : ℕ) (s : Sender) → is_busy (s.conn k) ≡ false → writes os k s ≡ s
unfolding writes
writes_idle [] k s h = refl
writes_idle (o ∷ os) k s h = rw h refl

-- One call that leaves something, and those after it.
then-IsWritten :
    (k : ℕ) (a b c : List ℕ) (s t u : Sender)
    → t.wire k ≡ s.wire k ++ a
    → a ++ b ≡ c
    → t.sendsem ≡ s.sendsem
    → t.msg_list ≡ s.msg_list
    → IsWritten k b t u
    → IsWritten k c s u
then-IsWritten k a b c s t u wire both sem list w = record {
  on_wire =
      w.on_wire ∙ ap (λ l. l ++ b) wire ∙ append_assoc (s.wire k) a b ∙ ap (◌++◌ (s.wire k)) both;
  idle = w.idle;
  woken_once = w.woken_once ∙ ap (λ j. j + 1) sem;
  same_list = w.same_list ∙ list;
}

pub writes_lem :
    (os : List SendOutcome) (k p : ℕ) (m : Message) (s : Sender)
    → IsUnderWay m p (s.conn k)
    → AllSucceed os
    → (s.conn k).sendlen ≤ all_take os
    → IsWritten k (rest_of (some m) (some p) (s.conn k).sendlen) s (writes os k s)
unfolding writes
writes_lem [] k p m s v ok enough = let h = v.unsent in absurd (omega (arith, h, enough))
writes_lem (o ∷ os) k p m s v ok enough =
    let (n, e, fits, took_some) = sendproc-takes (s.conn k).sendlen o ok.0 v.unsent in
    let t = event_writable_request_handler o k s in
    rw v.busy (elim (Bool-cases (ltb n (s.conn k).sendlen)) [
      | inl part ↦
          let less : n < (s.conn k).sendlen = ground arith in
          let (c, sem, list, wire) = part_lem k o n m p s v e less in
          let v' = subst (IsUnderWay m (p + n)) (sym c) (part-IsUnderWay m p n (s.conn k) v less) in
          let len : (t.conn k).sendlen ≡ (s.conn k).sendlen - n = ap (λ d. d.sendlen) c in
          let ih = writes_lem os k (p + n) m t v' ok.1 (omega (arith, len, enough, took_some)) in
          then-IsWritten k _ _ _ s t _ wire
            (ap
                (λ l.
                  take n (rest_of (some m) (some p) (s.conn k).sendlen)
                  ++ rest_of (some m) (some (p + n)) l)
                len
              ∙ rest_part m p n (s.conn k) v fits)
            sem list ih
      | inr whole ↦
          let all : n ≡ (s.conn k).sendlen = ground arith in
          let w = whole_lem k o n m p s v e all in
          subst (IsWritten k _ s) (sym (writes_idle os k t w.idle)) w
    ])
