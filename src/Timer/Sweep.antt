-- ===== src/Timer/Sweep.antt =====
-- The loop of `ServerTimerQueueThreadFunc` that takes out what is due: it ends, and each entry that is
-- due comes out once and goes back in for the next check.
use mathlib.Core.Path.{subst}
use my_nignx.Prelude.{
  ℕ, zero, suc, ◌+◌, ◌≤◌, ◌<◌, ◌≡◌, refl, ◌∙◌, true, List, [], ◌∷◌, Option, none, some, arith,
  length, leb, if◌then◌else◌, Bool-cases, inl, inr,
}
use my_nignx.Conn.{MsgHeader}
use my_nignx.Timer.{Entry, Timer, insert, get_over_time, collect_over_time}
use my_nignx.Timer.Invariant.{
  IsTimer, AllFrom, IsOrdered, get_over_time_due, get_over_time_later, get_over_time_empty,
  after_renewal, after_renewal-IsTimer,
}

abbrev pub due_headers : ℕ → List Entry → List MsgHeader
due_headers time [] = []
due_headers time (x ∷ xs) = if leb x.0 time then x.1 ∷ due_headers time xs else due_headers time xs

abbrev pub later_part : ℕ → List Entry → List Entry
later_part time [] = []
later_part time (x ∷ xs) = if leb x.0 time then later_part time xs else x ∷ later_part time xs

-- Headers put back one after the other under one key.
abbrev pub reinsert : ℕ → List MsgHeader → List Entry → List Entry
reinsert key [] m = m
reinsert key (h ∷ hs) m = reinsert key hs (insert (key, h) m)

due-insert :
    (time : ℕ) (e : Entry) (xs : List Entry)
    → time < e.0
    → due_headers time (insert e xs) ≡ due_headers time xs
unfolding insert
due-insert time e [] h = ground arith
due-insert time e (x ∷ xs) h = ground (arith, due-insert time e xs h)

later-insert :
    (time : ℕ) (e : Entry) (xs : List Entry)
    → time < e.0
    → later_part time (insert e xs) ≡ insert e (later_part time xs)
unfolding insert
later-insert time e [] h = ground arith
later-insert time e (x ∷ xs) h = ground (arith, later-insert time e xs h)

none_due : (time k : ℕ) (xs : List Entry) → time < k → AllFrom k xs → due_headers time xs ≡ []
none_due time k [] h a = refl
none_due time k (x ∷ xs) h a = ground (arith, none_due time k xs h a.1)

all_later : (time k : ℕ) (xs : List Entry) → time < k → AllFrom k xs → later_part time xs ≡ xs
all_later time k [] h a = refl
all_later time k (x ∷ xs) h a = ground (arith, all_later time k xs h a.1)

pub record Collected (time : ℕ) (t : Timer) (m : List Entry) (r : Option (List MsgHeader × Timer))
    : Type 0 where
  pub after : Timer
  pub returns : r ≡ some (due_headers time m, after)
  pub put_back : after.map ≡ reinsert (time + t.waittime) (due_headers time m) (later_part time m)
  pub tidy : IsTimer after
  pub same_wait : after.waittime ≡ t.waittime

nothing_due :
    (f time : ℕ) (t : Timer) (m : List Entry)
    → t.map ≡ m
    → get_over_time time t ≡ (none, t)
    → due_headers time m ≡ []
    → later_part time m ≡ m
    → IsTimer t
    → Collected time t m (collect_over_time (suc f) time t)
unfolding collect_over_time
nothing_due f time t m e g d l v = record {
  after = t;
  returns = rw (collect_over_time, g, d);
  put_back = rw (d, l) e;
  tidy = v;
  same_wait = refl;
}

one_due :
    (f time : ℕ) (t : Timer) (x : Entry) (xs : List Entry)
    → t.map ≡ x ∷ xs
    → x.0 ≤ time
    → 0 < t.waittime
    → IsTimer t
    → Collected time
        (after_renewal time x.1 xs t)
        (insert (time + t.waittime, x.1) xs)
        (collect_over_time f time (after_renewal time x.1 xs t))
    → Collected time t (x ∷ xs) (collect_over_time (suc f) time t)
unfolding collect_over_time
one_due f time t x xs e due pos_w v c =
    let g = get_over_time_due time t x xs e v due in
    let again : Entry = (time + t.waittime, x.1) in
    let d = due-insert time again xs (omega arith) in
    let l = later-insert time again xs (omega arith) in
    let b : leb x.0 time ≡ true = ground arith in
    record {
      after = c.after;
      returns = rw (collect_over_time, g, c.returns, d, b);
      put_back = rw (b) (c.put_back ∙ rw (d, l));
      tidy = c.tidy;
      same_wait = c.same_wait;
    }

collect_step :
    (f time : ℕ) (t : Timer) (m : List Entry)
    → t.map ≡ m
    → length (due_headers time m) < f
    → 0 < t.waittime
    → IsTimer t
    → Collected time t m (collect_over_time f time t)
collect_step zero time t m e h w v = absurd (omega (arith, h))
collect_step (suc f) time t [] e h w v =
    nothing_due f time t [] e (get_over_time_empty time t e) refl refl v
collect_step (suc f) time t (x ∷ xs) e h w v =
    let o : IsOrdered (x ∷ xs) = subst IsOrdered e v.ordered in
    elim (Bool-cases (leb x.0 time)) [
      | inl due ↦
          let b : x.0 ≤ time = ground arith in
          let d = due-insert time (time + t.waittime, x.1) xs (omega (arith, w)) in
          let room : length (due_headers time (insert (time + t.waittime, x.1) xs)) < f =
            ground (arith, d) in
          one_due f time t x xs e b w v (
            collect_step f time (after_renewal time x.1 xs t) (insert (time + t.waittime, x.1) xs)
              refl room w (after_renewal-IsTimer time t x xs e v))
      | inr later ↦
          let b : time < x.0 = ground arith in
          let a = none_due time x.0 xs b o.0 in
          let l = all_later time x.0 xs b o.0 in
          nothing_due f time t (x ∷ xs) e (get_over_time_later time t x xs e b) (ground (arith, a))
            (ground (arith, l)) v
    ]

-- From an ordered timer whose waiting time is positive, fuel above the number of due entries is
-- enough for the collecting loop to end: it returns the headers of the due entries in their order,
-- each entry once, and leaves an ordered timer in which these headers stand anew under the key
-- `time + waittime` beside the entries that were not due.
pub collect_over_time_lem :
    (f time : ℕ) (t : Timer)
    → length (due_headers time t.map) < f
    → 0 < t.waittime
    → IsTimer t
    → Collected time t t.map (collect_over_time f time t)
collect_over_time_lem f time t h w v = collect_step f time t t.map refl h w v
