-- ===== src/Timer.antt =====
-- The heartbeat timer: net/socket_time.cxx, over the multimap `m_timermap` (a list in the order of
-- its keys; entries of one key stand in the order of insertion), and `ReadConf` of
-- net/c_socket.cxx. A timer entry owns a copy of a message header. Times are not negative.
pub mod Invariant
pub mod Lifetime
pub mod Sweep
pub mod Check
pub mod Round
mod Tests
use my_nignx.Prelude.{
  ℕ, zero, suc, ◌+◌, ◌*◌, Bool, true, false, not, ◌&&◌, ◌||◌, List, [], ◌∷◌, Option, none, some,
  ltb, leb, ◌==◌, if◌then◌else◌, update, size_decr, negsuc,
}
use my_nignx.Conn.{Connection, MsgHeader, judge_outdate}
use my_nignx.Pool.{Pool, close_accepted_connection}

abbrev pub Entry : Type 0
Entry = ℕ × MsgHeader

pub record Timer : Type 0 where
  pub map : List Entry
  pub size : ℕ
  pub value : ℕ
  pub waittime : ℕ

-- `multimap::insert`: behind the entries with the same key.
unfoldable pub insert : Entry → List Entry → List Entry
insert e [] = e ∷ []
insert e (x ∷ xs) = if leb x.0 e.0 then x ∷ insert e xs else e ∷ x ∷ xs

-- `if (m_timermap_size > 0) m_timer_value = m_timermap.begin()->first;`
abbrev first_key : ℕ → List Entry → ℕ
first_key v [] = v
first_key v (x ∷ xs) = x.0

abbrev pub refresh_value : Timer → Timer
refresh_value t = record t { value = if ltb 0 t.size then first_key t.value t.map else t.value }

unfoldable pub add_to_timer_queue : ℕ → ℕ → Timer → Pool → Timer × Pool
unfolding insert
add_to_timer_queue now c t p =
    let k = p.conn c in
    let head : MsgHeader = record { lp_curconn = c; msg_cursequence = k.sequence } in
    let m = insert (now + t.waittime, head) t.map in
    (
      record t { map = m; value = first_key t.value m; size = t.size + 1 },
      record p { conn = update p.conn c (record k { ping_update_time = now }) },
    )

abbrev pub clean_loop : List Entry → ℕ → ℕ
clean_loop [] n = n
clean_loop (x ∷ xs) n = clean_loop xs (size_decr n)

unfoldable pub timermap_clean : Timer → Timer
timermap_clean t = record t { map = []; size = clean_loop t.map t.size }

abbrev remove_first : Timer → List Entry → Option (MsgHeader × Timer)
remove_first t [] = none
remove_first t (x ∷ xs) = some (x.1, refresh_value (record t { map = xs; size = size_decr t.size }))

-- `none` is an access to the first entry of an empty map.
unfoldable pub remove_timer_frist : Timer → Option (MsgHeader × Timer)
remove_timer_frist t = remove_first t t.map

abbrev pub is_empty : List Entry → Bool
is_empty [] = true
is_empty (x ∷ xs) = false

-- What `GetOverTime` returns (`none` is the null pointer) and leaves.
abbrev renewed :
    ℕ → Option (MsgHeader × Timer) → Option MsgHeader × Timer → Option MsgHeader × Timer
renewed time none otherwise = otherwise
renewed time (some (h, t)) otherwise = (
  some h,
  refresh_value (record t { map = insert (time + t.waittime, h) t.map; size = t.size + 1 }),
)

unfoldable pub get_over_time : ℕ → Timer → Option MsgHeader × Timer
unfolding remove_timer_frist
get_over_time time t =
    if t.size == 0 || is_empty t.map
    then (none, t)
    else (if leb (first_key t.value t.map) time
        then renewed time (remove_timer_frist t) (none, t)
        else (none, t))

-- One more turn of the loop below, over what its later turns give.
abbrev pub collected :
    Option MsgHeader → Timer → Option (List MsgHeader × Timer) → Option (List MsgHeader × Timer)
collected none t rest = some ([], t)
collected (some h) t none = none
collected (some h) t (some (hs, t')) = some (h ∷ hs, t')

-- `while (ptmp_ptr = GetOverTime(cur_time))`, with fuel; `none` is a loop that has not ended.
unfoldable pub collect_over_time : ℕ → ℕ → Timer → Option (List MsgHeader × Timer)
collect_over_time zero time t = none
collect_over_time (suc f) time t =
    let r = get_over_time time t in collected r.0 r.1 (collect_over_time f time r.1)

abbrev pub same_header : MsgHeader → MsgHeader → Bool
same_header a b = a.lp_curconn == b.lp_curconn && a.msg_cursequence == b.msg_cursequence

-- The loop of `DeleteFromTimerQueue` over what is left of the map.
unfoldable pub delete_loop : MsgHeader → List Entry → ℕ → List Entry × ℕ
delete_loop h [] n = ([], n)
delete_loop h (x ∷ xs) n =
    let hit = same_header x.1 h in
    let rest = delete_loop h xs (if hit then size_decr n else n) in
    (if hit then rest.0 else x ∷ rest.0, rest.1)

unfoldable pub delete_from_timer_queue : MsgHeader → Timer → Timer
unfolding delete_loop
delete_from_timer_queue h t =
    if t.size == 0 || is_empty t.map
    then t
    else (let r = delete_loop h t.map t.size in refresh_value (record t { map = r.0; size = r.1 }))

-- `none` ends the process. `closed` says whether the system call `close` succeeds.
unfoldable pub time_out_proc : Bool → ℕ → MsgHeader → Timer → Pool → Option (Timer × Pool)
unfolding delete_from_timer_queue
time_out_proc closed now h t p = elim (close_accepted_connection closed now true h.lp_curconn p) [
  | none ↦ none
  | some p' ↦ some (delete_from_timer_queue h t, p')
]

unfoldable pub time_checking_proc : Bool → ℕ → MsgHeader → ℕ → Timer → Pool → Option (Timer × Pool)
unfolding time_out_proc
time_checking_proc closed now h cur_time t p =
    let k = p.conn h.lp_curconn in
    if not (judge_outdate k h.msg_cursequence)
    then some (delete_from_timer_queue h t, p)
    else (if ltb (3 * t.waittime + k.ping_update_time) cur_time
        then time_out_proc closed now h t
            (record p { conn = update p.conn h.lp_curconn (record k { istimeout = true }) })
        else some (t, p))

pub check_loop : Bool → ℕ → ℕ → List MsgHeader → Timer → Pool → Option (Timer × Pool)
check_loop closed now cur_time [] t p = some (t, p)
check_loop closed now cur_time (h ∷ hs) t p = elim (time_checking_proc closed now h cur_time t p) [
  | none ↦ none
  | some (t', p') ↦ check_loop closed now cur_time hs t' p'
]

-- One round of `ServerTimerQueueThreadFunc` at `cur_time`.
unfoldable pub timer_round : ℕ → Bool → ℕ → ℕ → Timer → Pool → Option (Timer × Pool)
unfolding check_loop
timer_round fuel closed now cur_time t p =
    if ltb cur_time t.value || t.size == 0
    then some (t, p)
    else elim (collect_over_time fuel cur_time t) [
      | none ↦ none
      | some (hs, t') ↦ check_loop closed now cur_time hs t' p
    ]
