-- ===== src/Timer/Invariant.antt =====
-- The invariant of the timer queue, and that every operation keeps it.
use my_nignx.Prelude.{
  ℕ, suc, ◌+◌, ◌≤◌, ◌<◌, ◌≡◌, refl, ◌||◌, List, [], ◌∷◌, none, some, arith, length, ltb, leb, ◌==◌,
  if◌then◌else◌, Bool-cases, inl, inr, size_decr,
}
use mathlib.Core.Path.{subst}
use my_nignx.Conn.{MsgHeader}
use my_nignx.Pool.{Pool}
use my_nignx.Timer.{
  Entry, Timer, insert, first_key, refresh_value, add_to_timer_queue, clean_loop, timermap_clean,
  is_empty, get_over_time, same_header, delete_loop, delete_from_timer_queue,
}

abbrev pub AllFrom : ℕ → List Entry → Type 0
AllFrom k [] = Unit {0}
AllFrom k (x ∷ xs) = (k ≤ x.0) × AllFrom k xs

abbrev pub IsOrdered : List Entry → Type 0
IsOrdered [] = Unit {0}
IsOrdered (x ∷ xs) = AllFrom x.0 xs × IsOrdered xs

-- The keys are in order, the counter is right, and the value is the first key where there is one.
pub record IsTimer (t : Timer) : Type 0 where
  pub ordered : IsOrdered t.map
  pub counted : t.size ≡ length t.map
  pub first : 0 < t.size → t.value ≡ first_key t.value t.map

AllFrom-mono : (j k : ℕ) (xs : List Entry) → j ≤ k → AllFrom k xs → AllFrom j xs
AllFrom-mono j k [] h a = tt
AllFrom-mono j k (x ∷ xs) h a = (omega arith, AllFrom-mono j k xs h a.1)

insert-AllFrom :
    (k : ℕ) (e : Entry) (xs : List Entry) → k ≤ e.0 → AllFrom k xs → AllFrom k (insert e xs)
unfolding insert
insert-AllFrom k e [] h a = (h, tt)
insert-AllFrom k e (x ∷ xs) h a = ground (arith, insert-AllFrom k e xs h a.1)

insert-IsOrdered : (e : Entry) (xs : List Entry) → IsOrdered xs → IsOrdered (insert e xs)
unfolding insert
insert-IsOrdered e [] v = (tt, tt)
insert-IsOrdered e (x ∷ xs) v =
    ground (arith, insert-AllFrom x.0 e xs, insert-IsOrdered e xs v.1, AllFrom-mono e.0 x.0 xs)

length-insert : (e : Entry) (xs : List Entry) → length (insert e xs) ≡ suc (length xs)
unfolding insert
length-insert e [] = refl
length-insert e (x ∷ xs) = ground (arith, length-insert e xs)

delete-AllFrom :
    (k : ℕ) (h : MsgHeader) (xs : List Entry) (n : ℕ)
    → AllFrom k xs
    → AllFrom k (delete_loop h xs n).0
unfolding delete_loop
delete-AllFrom k h [] n a = tt
delete-AllFrom k h (x ∷ xs) n a =
    ground (arith, delete-AllFrom k h xs (if same_header x.1 h then size_decr n else n) a.1)

delete-IsOrdered :
    (h : MsgHeader) (xs : List Entry) (n : ℕ) → IsOrdered xs → IsOrdered (delete_loop h xs n).0
unfolding delete_loop
delete-IsOrdered h [] n v = tt
delete-IsOrdered h (x ∷ xs) n v = ground (
  arith,
  delete-AllFrom x.0 h xs (if same_header x.1 h then size_decr n else n) v.0,
  delete-IsOrdered h xs (if same_header x.1 h then size_decr n else n) v.1,
)

-- The counter falls by one with each entry that goes.
delete-size :
    (h : MsgHeader) (xs : List Entry) (n extra : ℕ)
    → n ≡ length xs + extra
    → (delete_loop h xs n).1 ≡ length (delete_loop h xs n).0 + extra
unfolding delete_loop
delete-size h [] n extra e = omega arith
delete-size h (x ∷ xs) n extra e = elim (Bool-cases (same_header x.1 h)) [
  | inl hit ↦ rw hit (delete-size h xs (size_decr n) extra (ground arith))
  | inr miss ↦ let ih = delete-size h xs n (suc extra) (omega arith) in rw miss (omega (arith, ih))
]

refresh-IsTimer : (t : Timer) → IsOrdered t.map → t.size ≡ length t.map → IsTimer (refresh_value t)
refresh-IsTimer t o c = record {
  ordered = o;
  counted = c;
  first = λ h. first_fits t.size t.map t.value c h;
}
  where
    first_fits :
        (n : ℕ) (m : List Entry) (v : ℕ)
        → n ≡ length m
        → 0 < n
        → (if ltb 0 n then first_key v m else v)
          ≡ first_key (if ltb 0 n then first_key v m else v) m
    first_fits n [] v e h = absurd (omega arith)
    first_fits n (x ∷ xs) v e h = ground arith

pub delete_from_timer_queue-IsTimer :
    (h : MsgHeader) (t : Timer) → IsTimer t → IsTimer (delete_from_timer_queue h t)
unfolding delete_from_timer_queue
delete_from_timer_queue-IsTimer h t v = elim (Bool-cases (t.size == 0 || is_empty t.map)) [
  | inl none_there ↦ rw none_there v
  | inr some_there ↦
      let r = delete_loop h t.map t.size in
      rw some_there (
        refresh-IsTimer (record t { map = r.0; size = r.1 })
          (delete-IsOrdered h t.map t.size v.ordered)
          (omega (arith, delete-size h t.map t.size 0 (omega (arith, v.counted)))))
]

pub add_to_timer_queue-IsTimer :
    (now c : ℕ) (t : Timer) (p : Pool) → IsTimer t → IsTimer (add_to_timer_queue now c t p).0
unfolding add_to_timer_queue
add_to_timer_queue-IsTimer now c t p v =
    let e : Entry =
      (now + t.waittime, record { lp_curconn = c; msg_cursequence = (p.conn c).sequence }) in
    record {
      ordered = insert-IsOrdered e t.map v.ordered;
      counted = omega (arith, v.counted, length-insert e t.map);
      first = λ h. first_of_insert e t.map t.value;
    }
  where
    first_of_insert :
        (e : Entry) (m : List Entry) (v : ℕ)
        → first_key v (insert e m) ≡ first_key (first_key v (insert e m)) (insert e m)
    first_of_insert e [] v = unfold insert in refl
    first_of_insert e (x ∷ xs) v = unfold insert in ground arith

remove_first-IsTimer :
    (t : Timer) (m : List Entry) (x : Entry) (xs : List Entry)
    → t.map ≡ x ∷ xs
    → IsTimer t
    → IsTimer (refresh_value (record t { map = xs; size = size_decr t.size }))
remove_first-IsTimer t m x xs e v =
    let o : IsOrdered (x ∷ xs) = subst IsOrdered e v.ordered in
    refresh-IsTimer (record t { map = xs; size = size_decr t.size }) o.1 (ground (arith, v.counted))

-- The timer after its first entry, with the header `h` and the rest `xs`, was renewed at `time`.
abbrev pub after_renewal : ℕ → MsgHeader → List Entry → Timer → Timer
after_renewal time h xs t =
    let t' = refresh_value (record t { map = xs; size = size_decr t.size }) in
    refresh_value
      (record t' { map = insert (time + t.waittime, h) xs; size = size_decr t.size + 1 })

pub get_over_time_due :
    (time : ℕ) (t : Timer) (x : Entry) (xs : List Entry)
    → t.map ≡ x ∷ xs
    → IsTimer t
    → x.0 ≤ time
    → get_over_time time t ≡ (some x.1, after_renewal time x.1 xs t)
unfolding get_over_time
get_over_time_due time t x xs e v due = ground (arith, v.counted)

pub get_over_time_later :
    (time : ℕ) (t : Timer) (x : Entry) (xs : List Entry)
    → t.map ≡ x ∷ xs
    → time < x.0
    → get_over_time time t ≡ (none, t)
unfolding get_over_time
get_over_time_later time t x xs e later = ground arith

pub get_over_time_empty : (time : ℕ) (t : Timer) → t.map ≡ [] → get_over_time time t ≡ (none, t)
unfolding get_over_time
get_over_time_empty time t e = ground arith

pub after_renewal-IsTimer :
    (time : ℕ) (t : Timer) (x : Entry) (xs : List Entry)
    → t.map ≡ x ∷ xs
    → IsTimer t
    → IsTimer (after_renewal time x.1 xs t)
after_renewal-IsTimer time t x xs e v =
    let o : IsOrdered (x ∷ xs) = subst IsOrdered e v.ordered in
    let t' = refresh_value (record t { map = xs; size = size_decr t.size }) in
    refresh-IsTimer
      (record t' { map = insert (time + t.waittime, x.1) xs; size = size_decr t.size + 1 })
      (insert-IsOrdered (time + t.waittime, x.1) xs o.1)
      (ground (arith, v.counted, length-insert (time + t.waittime, x.1) xs))

get_over_time-cases :
    (time : ℕ) (t : Timer) (m : List Entry)
    → t.map ≡ m
    → IsTimer t
    → IsTimer (get_over_time time t).1
get_over_time-cases time t [] e v = rw (get_over_time_empty time t e) v
get_over_time-cases time t (x ∷ xs) e v = elim (Bool-cases (leb x.0 time)) [
  | inl due ↦
      rw (get_over_time_due time t x xs e v (ground arith)) (after_renewal-IsTimer time t x xs e v)
  | inr later ↦ rw (get_over_time_later time t x xs e (ground arith)) v
]

-- Taking an entry that is due, and putting it back for later, keeps the invariant; so does finding
-- none.
pub get_over_time-IsTimer : (time : ℕ) (t : Timer) → IsTimer t → IsTimer (get_over_time time t).1
get_over_time-IsTimer time t v = get_over_time-cases time t t.map refl v

clean_loop-counted : (xs : List Entry) (n : ℕ) → n ≡ length xs → clean_loop xs n ≡ 0
clean_loop-counted [] n e = e
clean_loop-counted (x ∷ xs) n e = clean_loop-counted xs (size_decr n) (ground arith)

pub timermap_clean-IsTimer : (t : Timer) → IsTimer t → IsTimer (timermap_clean t)
unfolding timermap_clean
timermap_clean-IsTimer t v =
    let z = clean_loop-counted t.map t.size v.counted in
    record { ordered = tt; counted = z; first = λ h. absurd (omega (arith, z)) }
