-- ===== src/Signals/Reaping.antt =====
-- The loop that waits for children.
use my_nignx.Prelude.{
  ℕ, zero, suc, ◌+◌, ◌<◌, ◌≡◌, ◌≢◌, refl, false, List, [], ◌++◌, some, arith, ◌∷◌,
}
use my_nignx.Sys.{no_errno, eagain, eintr, econnreset, enosys, echild, other_errno}
use my_nignx.Signals.{WaitPid, none_changed, failed, ended, goes_on, process_get_status}

-- A call that was interrupted, or that reported a child.
abbrev pub IsRetried : WaitPid → Type 0
IsRetried none_changed = ⊥
IsRetried (failed e) = e ≡ eintr
IsRetried (ended pid signal code) = Unit {0}

-- A call after which nothing is left to do: no child has changed, or another failure.
abbrev pub IsLast : WaitPid → Type 0
IsLast none_changed = Unit {0}
IsLast (failed e) = e ≢ eintr
IsLast (ended pid signal code) = ⊥

-- The first `k` calls from round `i` on let the loop go on.
abbrev pub AllRetried : (ℕ → WaitPid) → ℕ → ℕ → Type 0
AllRetried calls zero i = Unit {0}
AllRetried calls (suc k) i = IsRetried (calls i) × AllRetried calls k (i + 1)

abbrev found : WaitPid → List ℕ
found none_changed = []
found (failed e) = []
found (ended pid signal code) = pid ∷ []

-- The children that they report.
abbrev pub reported : (ℕ → WaitPid) → ℕ → ℕ → List ℕ
reported calls zero i = []
reported calls (suc k) i = found (calls i) ++ reported calls k (i + 1)

last_lem : (call : WaitPid) → IsLast call → goes_on call ≡ false
last_lem none_changed h = refl
last_lem (failed eintr) h = absurd (h refl)
last_lem (failed no_errno) h = refl
last_lem (failed eagain) h = refl
last_lem (failed econnreset) h = refl
last_lem (failed enosys) h = refl
last_lem (failed echild) h = refl
last_lem (failed other_errno) h = refl
last_lem (ended pid signal code) h = absurd h

-- One call that lets the loop go on, and the loop after it.
one_more :
    (calls : ℕ → WaitPid) (k fuel i : ℕ)
    → IsRetried (calls i)
    → process_get_status calls fuel (i + 1) ≡ some (reported calls k (i + 1))
    → process_get_status calls (suc fuel) i ≡ some (reported calls (suc k) i)
unfolding process_get_status
one_more calls k fuel i h rest = by_call (calls i) refl h
  where
    by_call :
        (c : WaitPid)
        → calls i ≡ c
        → IsRetried c
        → process_get_status calls (suc fuel) i ≡ some (reported calls (suc k) i)
    by_call none_changed e h = absurd h
    by_call (failed x) e h = rw (e, h, rest) refl
    by_call (ended pid signal code) e h = rw (e, rest) refl

-- After `k` calls that were interrupted or reported a child, and one that did neither, the loop has
-- ended, with fuel for more than `k` rounds, and has reaped every child reported, each once and in
-- order: an interrupted call is repeated, and any other failure ends the loop.
pub process_get_status_lem :
    (calls : ℕ → WaitPid) (k fuel i : ℕ)
    → AllRetried calls k i
    → IsLast (calls (i + k))
    → k < fuel
    → process_get_status calls fuel i ≡ some (reported calls k i)
unfolding process_get_status
process_get_status_lem calls k zero i go stop h = absurd (omega arith)
process_get_status_lem calls zero (suc fuel) i go stop h =
    let e : i + 0 ≡ i = omega arith in
    let last : goes_on (calls i) ≡ false = last_lem (calls i) (rw e at stop) in rw last refl
process_get_status_lem calls (suc k) (suc fuel) i go stop h =
    let e : i + suc k ≡ i + 1 + k = omega arith in
    one_more calls k fuel i go.0
      (process_get_status_lem calls k fuel (i + 1) go.1 (rw e at stop) (omega arith))
