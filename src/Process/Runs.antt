-- ===== src/Process/Runs.antt =====
-- Moves one after the other, and walks of the send thread that nothing interrupts.
use my_nignx.Prelude.{
  ℕ, suc, ◌+◌, ◌≡◌, refl, Bool, true, false, not, List, [], ◌∷◌, ◌++◌, append-nil, append_assoc,
  Bool-cases, inl, inr, pos, ltb_ℤ,
}
use mathlib.Core.Path.{subst}
use my_nignx.Conn.{Message, judge_outdate}
use my_nignx.Send.{
  Sender, SendOutcome, Fate, stays, goes, thread_ends, transmit, send_message, after_fate, Looped,
  send_loop, send_pass,
}
use my_nignx.Events.{sending}
use my_nignx.Process.{
  SendPlace, in_sem_wait, walking, ended, Process, walked, walk_one, walks_on, Move, wakes, walks,
  lets_go, Reached, moves,
}

pub data Moves : Process → Process → Type 0 where
  stands : (p : Process) → Moves p p
  then_moves : (p q r : Process) → Move p q → Moves q r → Moves p r

pub Moves-trans : (p q r : Process) → Moves p q → Moves q r → Moves p r
Moves-trans p _ r (stands _) n = n
Moves-trans p q r (then_moves _ u _ m n) k = then_moves p u r m (Moves-trans u q r n k)

pub Reached-Moves : (p q : Process) → Reached p → Moves p q → Reached q
Reached-Moves p _ r (stands _) = r
Reached-Moves p q r (then_moves _ u _ m n) = Reached-Moves u q (moves p u r m) n

-- A sender with another list, and the mutex taken or not.
abbrev pub holding : Bool → List Message → Sender → Sender
holding b l s = record s { msg_list = l; locked = b }

send_message-holding :
    (o : SendOutcome) (m : Message) (b : Bool) (l : List Message) (s : Sender)
    → send_message o m (holding b l s)
      ≡ ((send_message o m s).0, holding b l (send_message o m s).1)
unfolding send_message transmit
send_message-holding o m b l s =
    elim (Bool-cases (judge_outdate (s.conn m.header.lp_curconn) m.header.msg_cursequence)) [
      | inl fresh ↦ elim (Bool-cases (ltb_ℤ (pos 0) (s.conn m.header.lp_curconn).throwsend_count)) [
        | inl busy ↦ rw (fresh, busy) refl
        | inr free ↦ rw (fresh, free) refl
      ]
      | inr stale ↦ rw stale refl
    ]

walk_one-holding :
    (o : SendOutcome) (m : Message) (kept rest l : List Message) (s t : Sender) (f : Fate)
    → send_message o m s ≡ (f, t)
    → walk_one o m kept rest (holding true l s)
      ≡ ((walked f m kept rest).0, holding true (walked f m kept rest).1 t)
unfolding walk_one
walk_one-holding o m kept rest l s t f e = rw (send_message-holding o m true l s, e) refl

-- Where a walk ends.
abbrev pub end_place : Bool → List Message → SendPlace
end_place true kept = walking kept []
end_place false kept = ended

abbrev ends_with : List Message → Looped → Process → Process
ends_with kept r p = walks_on (end_place r.1 (kept ++ r.0), holding true (kept ++ r.0) r.2) p

abbrev walks_with : List Message → List Message → Sender → Process → Process
walks_with kept rest s p = walks_on (walking kept rest, holding true (kept ++ rest) s) p

one_walked :
    (o : SendOutcome) (m : Message) (kept rest : List Message) (s t : Sender) (f : Fate)
    (p : Process)
    → send_message o m s ≡ (f, t)
    → Move
        (walks_with kept (m ∷ rest) s p)
        (walks_on ((walked f m kept rest).0, holding true (walked f m kept rest).1 t) p)
one_walked o m kept rest s t f p e =
    subst (λ r. Move (walks_with kept (m ∷ rest) s p) (walks_on r p))
      (walk_one-holding o m kept rest (kept ++ (m ∷ rest)) s t f e) (walks o m kept rest refl)

-- One message, and what follows if the thread goes on.
walk_fate :
    (o : SendOutcome) (m : Message) (kept rest : List Message) (s t : Sender) (r : Looped)
    (f : Fate) (p : Process)
    → send_message o m s ≡ (f, t)
    → ((k : List Message) → Moves (walks_with k rest t p) (ends_with k r p))
    → Moves (walks_with kept (m ∷ rest) s p) (ends_with kept (after_fate f m rest t r) p)
walk_fate o m kept rest s t r stays p e later =
    let k = kept ++ (m ∷ []) in
    let after : Moves (walks_on (walking k rest, holding true (kept ++ (m ∷ rest)) t) p)
        (ends_with k r p) =
      subst (λ l. Moves (walks_on (walking k rest, holding true l t) p) (ends_with k r p))
        (append_assoc kept (m ∷ []) rest) (later k) in
    subst
      (λ l.
        Moves (walks_with kept (m ∷ rest) s p) (walks_on (end_place r.1 l, holding true l r.2) p))
      (append_assoc kept (m ∷ []) r.0)
      (then_moves _ _ _ (one_walked o m kept rest s t stays p e) after)
walk_fate o m kept rest s t r goes p e later =
    then_moves _ _ _ (one_walked o m kept rest s t goes p e) (later kept)
walk_fate o m kept rest s t r thread_ends p e later =
    then_moves _ _ _ (one_walked o m kept rest s t thread_ends p e) (stands _)

walk_loop :
    (outs : ℕ → SendOutcome) (i : ℕ) (kept rest : List Message) (s : Sender) (p : Process)
    → Moves (walks_with kept rest s p) (ends_with kept (send_loop outs i rest s) p)
unfolding send_loop
walk_loop outs i kept [] s p = rw (append-nil kept) (stands _)
walk_loop outs i kept (m ∷ rest) s p =
    let r = send_message (outs i) m s in
    walk_fate (outs i) m kept rest s r.1 (send_loop outs (i + 1) rest r.1) r.0 p refl
      (λ k. walk_loop outs (i + 1) k rest r.1 p)

-- Where the send thread is after a pass.
abbrev pub after_pass : Bool → SendPlace
after_pass true = in_sem_wait
after_pass false = ended

leave :
    (alive : Bool) (l : List Message) (t : Sender) (p : Process)
    → Moves
        (walks_on (end_place alive l, holding true l t) p)
        (walks_on (after_pass alive, holding (not alive) l t) p)
leave true l t p = then_moves _ _ _ (lets_go l refl) (stands _)
leave false l t p = stands _

-- The semaphore counts one wake-up less.
abbrev pub awake : ℕ → Process → Sender
awake n p = record (sending p.world) { sendsem = n }

-- When the send thread can wake up, the mutex is free and messages are counted, the moves of the
-- thread, with nothing in between, lead to what the pass over the whole list leaves, whatever
-- sending does.
pub send_pass-Moves :
    (outs : ℕ → SendOutcome) (n : ℕ) (p : Process)
    → p.send_place ≡ in_sem_wait
    → p.world.sender.sendsem ≡ suc n
    → p.world.sender.locked ≡ false
    → ltb_ℤ (pos 0) p.world.sender.msgtosend_count ≡ true
    → let r = send_pass outs (awake n p) in Moves p (walks_on (after_pass r.0, r.1) p)
unfolding send_pass
send_pass-Moves outs n p e sem free counted =
    let l = p.world.sender.msg_list in
    let r = send_loop outs 0 l (awake n p) in
    then_moves p _ _ (wakes n e sem free counted)
      (Moves-trans _ _ _ (walk_loop outs 0 [] l (awake n p) p) (leave r.1 r.0 r.2 p))
