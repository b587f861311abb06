-- ===== src/Workers/Stopping.antt =====
-- Starting and stopping the threads of the pool: `Create`, the waiting of `StopAll`, and the
-- destructor of threadpool/c_threadpool.cxx. Time is counted in rounds of a wait, and what a wait
-- reads is a function of the round and the thread. A result `none` is the end of the process,
-- a thread joined twice, or too little fuel.
use my_nignx.Prelude.{
  ℕ, zero, suc, ◌+◌, ◌<◌, ◌≡◌, refl, sym, ap, ◌∙◌, Bool, true, false, ◌&&◌, List, [], ◌∷◌, ◌++◌,
  append-nil, append_assoc, Option, none, some, arith, length, contains, ==_refl, if◌then◌else◌,
  size_decr,
}
use my_nignx.Conn.{Message}
use my_nignx.Workers.{ThreadPool}

-- The loop of `Create`, for `n` threads more: a thread that cannot be created ends the process.
unfoldable pub create_loop : (ℕ → Bool) → ℕ → ℕ → List ℕ → Option (List ℕ)
create_loop creates zero i threads = some threads
create_loop creates (suc n) i threads =
    let rest = create_loop creates n (i + 1) (threads ++ (i ∷ [])) in
    if creates i then rest else none

-- All threads run.
abbrev pub all_running : (ℕ → Bool) → List ℕ → Bool
all_running runs [] = true
all_running runs (t ∷ ts) = runs t && all_running runs ts

-- The wait of `Create`: the round in which it ends.
unfoldable pub wait_running : (ℕ → ℕ → Bool) → ℕ → ℕ → List ℕ → Option ℕ
wait_running runs zero i threads = none
wait_running runs (suc fuel) i threads =
    let rest = wait_running runs fuel (i + 1) threads in
    if all_running (runs i) threads then some i else rest

-- One pass of `StopAll` over the threads: it joins them up to the first that still runs. The result
-- says whether it came to the end, and the threads joined so far, oldest first. To join a thread a
-- second time is undefined behaviour: `none`.
unfoldable pub join_pass : (ℕ → Bool) → List ℕ → List ℕ → Option (Bool × List ℕ)
join_pass runs [] joined = some (true, joined)
join_pass runs (t ∷ ts) joined =
    let rest = join_pass runs ts (joined ++ (t ∷ [])) in
    if runs t then some (false, joined) else (if contains t joined then none else rest)

abbrev pub after_pass :
    Option (Bool × List ℕ) → (List ℕ → Option (Bool × List ℕ)) → Option (Bool × List ℕ)
after_pass none rest = none
after_pass (some (true, joined)) rest = some (true, joined)
after_pass (some (false, joined)) rest = rest joined

-- The wait of `StopAll`; `broadcasts i` says whether the wake-up of round `i` succeeds.
unfoldable pub wait_stopped :
    (ℕ → Bool) → (ℕ → ℕ → Bool) → ℕ → ℕ → List ℕ → List ℕ → Option (Bool × List ℕ)
unfolding join_pass
wait_stopped broadcasts runs zero i threads joined = none
wait_stopped broadcasts runs (suc fuel) i threads joined =
    let next =
      after_pass (join_pass (runs i) threads joined)
        (wait_stopped broadcasts runs fuel (i + 1) threads) in
    if broadcasts i then next else some (false, joined)

-- The destructor, behind `StopAll`: the messages are given up one by one.
abbrev pub release : List (Option Message) → ThreadPool → ThreadPool
release [] p = record p { msgqueue = [] }
release (m ∷ ms) p = release ms (record p { msgqueue_size = size_decr p.msgqueue_size })

unfoldable pub destroy : ThreadPool → ThreadPool
destroy p = release p.msgqueue p

release-empty :
    (ms : List (Option Message)) (p : ThreadPool)
    → p.msgqueue_size ≡ length ms
    → ((release ms p).msgqueue ≡ []) × ((release ms p).msgqueue_size ≡ 0)
release-empty [] p h = (refl, h)
release-empty (m ∷ ms) p h =
    release-empty ms (record p { msgqueue_size = size_decr p.msgqueue_size }) (ground arith)

-- The destructor leaves an empty queue, and its counter at 0 if it was right.
pub destroy_lem :
    (p : ThreadPool)
    → p.msgqueue_size ≡ length p.msgqueue
    → ((destroy p).msgqueue ≡ []) × ((destroy p).msgqueue_size ≡ 0)
unfolding destroy
destroy_lem p h = release-empty p.msgqueue p h

-- No thread is in the list twice, nor among those joined.
abbrev pub AllNew : List ℕ → List ℕ → Type 0
AllNew joined [] = Unit {0}
AllNew joined (t ∷ ts) = (contains t joined ≡ false) × AllNew (joined ++ (t ∷ [])) ts

-- A pass that meets no running thread joins all.
quiet_pass :
    (runs : ℕ → Bool) (ts joined : List ℕ)
    → ((t : ℕ) → runs t ≡ false)
    → AllNew joined ts
    → join_pass runs ts joined ≡ some (true, joined ++ ts)
unfolding join_pass
quiet_pass runs [] joined q v = ap (λ l. some (true, l)) (sym (append-nil joined))
quiet_pass runs (t ∷ ts) joined q v =
    rw (q t, v.0)
      (quiet_pass runs ts (joined ++ (t ∷ [])) q v.1
        ∙ ap (λ l. some (true, l)) (append_assoc joined (t ∷ []) ts))

-- The first thread of the list runs in `k` rounds from round `i` on.
abbrev pub FirstRuns : (ℕ → ℕ → Bool) → ℕ → ℕ → List ℕ → Type 0
FirstRuns runs i k [] = Unit {0}
FirstRuns runs i zero (t ∷ ts) = Unit {0}
FirstRuns runs i (suc k) (t ∷ ts) = (runs i t ≡ true) × FirstRuns runs (i + 1) k (t ∷ ts)

-- If every wake-up succeeds, the first thread of the list still runs in the first `k` rounds, and none
-- runs in the next one, then with fuel for more than `k` rounds the wait of `StopAll` has ended with
-- success, and each thread has been joined once.
pub wait_stopped_lem :
    (broadcasts : ℕ → Bool) (runs : ℕ → ℕ → Bool) (k fuel i : ℕ) (ts : List ℕ)
    → ((j : ℕ) → broadcasts j ≡ true)
    → AllNew [] ts
    → FirstRuns runs i k ts
    → ((t : ℕ) → runs (i + k) t ≡ false)
    → k < fuel
    → wait_stopped broadcasts runs fuel i ts [] ≡ some (true, ts)
unfolding wait_stopped
wait_stopped_lem broadcasts runs k zero i ts b v f q h = absurd (omega arith)
wait_stopped_lem broadcasts runs k (suc fuel) i [] b v f q h = rw (b i) refl
wait_stopped_lem broadcasts runs zero (suc fuel) i (t ∷ ts) b v f q h =
    let e : i + 0 ≡ i = omega arith in
    let quiet : (u : ℕ) → runs i u ≡ false = rw e at q in
    rw (b i, quiet_pass (runs i) (t ∷ ts) [] quiet v) refl
wait_stopped_lem broadcasts runs (suc k) (suc fuel) i (t ∷ ts) b v f q h =
    let e : i + suc k ≡ i + 1 + k = omega arith in
    let later : (u : ℕ) → runs (i + 1 + k) u ≡ false = rw e at q in
    rw (b i, f.0)
      (wait_stopped_lem broadcasts runs k fuel (i + 1) (t ∷ ts) b v f.1 later (omega arith))

-- If the first thread has ended and the second one still runs, the first is joined a second time in the
-- next round.
pub wait_stopped_faults :
    (broadcasts : ℕ → Bool) (runs : ℕ → ℕ → Bool) (fuel i t u : ℕ) (ts : List ℕ)
    → ((j : ℕ) → broadcasts j ≡ true)
    → runs i t ≡ false
    → runs i u ≡ true
    → runs (i + 1) t ≡ false
    → wait_stopped broadcasts runs fuel i (t ∷ u ∷ ts) [] ≡ none
unfolding wait_stopped
wait_stopped_faults broadcasts runs zero i t u ts b ended on still = refl
wait_stopped_faults broadcasts runs (suc zero) i t u ts b ended on still = rw (b i, ended, on) refl
wait_stopped_faults broadcasts runs (suc (suc fuel)) i t u ts b ended on still =
    rw (b i, ended, on, b (i + 1), still, ==_refl t) refl
