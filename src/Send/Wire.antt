-- ===== src/Send/Wire.antt =====
-- What one message taken from the send queue puts on the wire.
use Prim.Native.Nat.{min}
use my_nignx.Prelude.{
  ℕ, zero, suc, ◌+◌, ◌-◌, ◌≤◌, ◌≡◌, ◌≢◌, refl, sym, ap, ◌∙◌, inl, inr, Bool, true, false, not, List,
  [], ◌∷◌, ◌++◌, append-nil, append_assoc, Option, none, some, arith, ℤ, pos, ltb_ℤ, ltb, ◌==◌,
  if◌then◌else◌, take, drop, Bool-cases, ==_refl, ==_iff, ◌%◌, ◌^◌,
}
use mathlib.Core.Path.{subst}
use my_nignx.Conn.{Connection, Message, judge_outdate}
use my_nignx.Recv.{pkg_len}
use my_nignx.Epoll.{epoll_oper_event}
use my_nignx.Send.{
  SendOutcome, interrupted, took, again, broken, returned_zero, sendproc, Sender, rest_of,
  load_message, sent, Fate, stays, fate_of, transmit,
}

-- A call that does not fail.
abbrev pub Succeeds : SendOutcome → Type 0
Succeeds (interrupted o) = Succeeds o
Succeeds (took n) = Unit {0}
Succeeds again = Unit {0}
Succeeds broken = ⊥
Succeeds returned_zero = ⊥

pub sendproc-some :
    (len : ℕ) (o : SendOutcome) → Succeeds o → (n : ℕ) × (sendproc len o ≡ some n) × (n ≤ len)
unfolding sendproc
sendproc-some len (interrupted o) h = sendproc-some len o h
sendproc-some len (took n) h = (min (suc n) len, refl, omega arith)
sendproc-some len again h = (0, refl, omega arith)
sendproc-some len broken h = absurd h
sendproc-some len returned_zero h = absurd h

take-nil : (n : ℕ) → take {A = ℕ} n [] ≡ []
take-nil zero = refl
take-nil (suc n) = refl

pub take-split :
    (n l : ℕ) (xs : List ℕ) → n ≤ l → take n (take l xs) ++ take (l - n) (drop n xs) ≡ take l xs
take-split zero l xs h = ap (λ k. take k xs) (omega arith)
take-split (suc n) zero xs h = absurd (omega arith)
take-split (suc n) (suc l) [] h = take-nil (suc l - suc n)
take-split (suc n) (suc l) (x ∷ xs) h = ap (◌∷◌ x) (
    ap (λ k. take n (take l xs) ++ take k (drop n xs)) (omega arith)
    ∙ take-split n l xs (omega arith))

-- The packet that a message carries, and what of it a connection has still to send.
abbrev pub packet : Message → List ℕ
packet m = take (pkg_len m.pkg) m.pkg

abbrev pub is_busy : Connection → Bool
is_busy c = ltb_ℤ (pos 0) c.throwsend_count

abbrev pub current : Connection → List ℕ
current c = if is_busy c then rest_of c.msgsend c.sendbuf c.sendlen else []

abbrev pub queued_for : ℕ → List Message → List ℕ
queued_for k [] = []
queued_for k (m ∷ ms) =
    if m.header.lp_curconn == k then packet m ++ queued_for k ms else queued_for k ms

-- What is to come on a connection.
abbrev pub pending : ℕ → Sender → List Message → List ℕ
pending k s ms = current (s.conn k) ++ queued_for k ms

abbrev pub is_nonneg : ℤ → Bool
is_nonneg a = not (ltb_ℤ a (pos 0))

pub not-busy : (t : ℤ) → is_nonneg t ≡ true → ltb_ℤ (pos 0) t ≡ false → t ≡ pos 0
not-busy t h b = ground arith

sent-current :
    (c : Connection) (m : Message) (n : ℕ)
    → c.throwsend_count ≡ pos 0
    → n ≤ pkg_len m.pkg
    → take n (packet m) ++ current (sent (load_message m c) (some n)).0 ≡ packet m
unfolding epoll_oper_event
sent-current c m n zero_count fits =
    let split = take-split n (pkg_len m.pkg) m.pkg fits in
    elim (Bool-cases (ltb n (pkg_len m.pkg))) [
      | inl part ↦ let z : 0 + n ≡ n = omega arith in rw (part, zero_count, z) split
      | inr whole ↦
          let e : pkg_len m.pkg - n ≡ 0 = ground arith in
          let all : take n (packet m) ≡ packet m =
            sym (append-nil (take n (packet m))) ∙ (rw e at split) in
          elim (Bool-cases ((0 + n) % 2 ^ 64 == c.sendlen_suppose)) [
            | inl right ↦ rw (whole, right) (append-nil (take n (packet m)) ∙ all)
            | inr wrong ↦ rw (whole, wrong, zero_count) (append-nil (take n (packet m)) ∙ all)
          ]
    ]

-- Nothing of a connection that the checks read is changed by sending.
pub record SameStamp (c d : Connection) : Type 0 where
  pub same_judge : (n : ℕ) → judge_outdate c n ≡ judge_outdate d n
  pub nonneg : is_nonneg d.throwsend_count ≡ true → is_nonneg c.throwsend_count ≡ true

sent-SameStamp :
    (c : Connection) (m : Message) (r : Option ℕ) → SameStamp (sent (load_message m c) r).0 c
unfolding epoll_oper_event judge_outdate
sent-SameStamp c m none = record { same_judge = λ n. refl; nonneg = λ h. refl }
sent-SameStamp c m (some n) = record { same_judge = λ k. ground arith; nonneg = λ h. ground arith }

abbrev pub to : Message → ℕ
to m = m.header.lp_curconn

module _ (o : SendOutcome) (m : Message) (s : Sender) where
  -- One message taken from the list: `k` is any connection.
  pub record Transmitted (fate : Fate) (t : Sender) : Type 0 where
    pub not_kept : fate ≢ stays
    pub own : t.wire (to m) ++ current (t.conn (to m)) ≡ s.wire (to m) ++ packet m
    pub others : (k : ℕ) → (to m == k) ≡ false → (t.wire k ≡ s.wire k) × (t.conn k ≡ s.conn k)
    pub stamps : (k : ℕ) → SameStamp (t.conn k) (s.conn k)

  fate_of-ne : (b : Bool) → fate_of b ≢ stays
  fate_of-ne true = λ e. cc
  fate_of-ne false = λ e. cc

  pub transmit-Transmitted :
      Succeeds o
      → (s.conn (to m)).throwsend_count ≡ pos 0
      → let (fate, t) = transmit o m s in Transmitted fate t
  unfolding transmit
  transmit-Transmitted ok z =
      let (n, e, fits) = sendproc-some (pkg_len m.pkg) o ok in
      record {
        not_kept =
            fate_of-ne (sent (load_message m (s.conn (to m))) (sendproc (pkg_len m.pkg) o)).1;
        own =
            rw (==_refl (to m), e, append_assoc (s.wire (to m)))
              (ap (◌++◌ (s.wire (to m))) (sent-current (s.conn (to m)) m n z fits));
        others = λ k ne. (rw ne, rw ne);
        stamps = λ k. elim (Bool-cases (to m == k)) [
          | inl same ↦ rw same (
              subst
                (λ j.
                  SameStamp (sent (load_message m (s.conn (to m))) (sendproc (pkg_len m.pkg) o)).0
                    (s.conn j))
                ((==_iff _ _).0 same)
                (sent-SameStamp (s.conn (to m)) m (sendproc (pkg_len m.pkg) o)))
          | inr other ↦ rw other (record { same_judge = λ n. refl; nonneg = λ h. h })
        ];
      }

-- A message is fresh for a connection that its stamp still fits.
abbrev pub AllFresh : (ℕ → Connection) → List Message → Type 0
AllFresh conn [] = Unit {0}
AllFresh conn (m ∷ ms) =
    (judge_outdate (conn (to m)) m.header.msg_cursequence ≡ true) × AllFresh conn ms

abbrev pub NonNeg : Sender → Type 0
NonNeg s = (k : ℕ) → is_nonneg (s.conn k).throwsend_count ≡ true

pub AllFresh-stamps :
    (c d : ℕ → Connection) (ms : List Message)
    → ((k : ℕ) → SameStamp (d k) (c k))
    → AllFresh c ms
    → AllFresh d ms
AllFresh-stamps c d [] h f = tt
AllFresh-stamps c d (m ∷ ms) h f =
    ((h (to m)).same_judge m.header.msg_cursequence ∙ f.0, AllFresh-stamps c d ms h f.1)
