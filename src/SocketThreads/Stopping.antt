-- ===== src/SocketThreads/Stopping.antt =====
-- Stopping the threads of the socket object.
use my_nignx.Prelude.{ℕ, ◌+◌, ◌-◌, ◌<◌, ◌≡◌, refl, Bool, true, false, [], some, arith, ◌==◌}
use my_nignx.Pool.{connectpool_clean}
use my_nignx.Send.{Sender, SendOutcome, sendmsglist_clean}
use my_nignx.Timer.{timermap_clean}
use my_nignx.Workers.Stopping.{AllNew, FirstRuns, wait_stopped_lem}
use my_nignx.SocketThreads.{send_msg_turn, SocketObject, cleaned, shutdown_sub_proc}

-- Nothing is left of the object's threads, connections, messages and timer.
pub record IsShutDown (s : SocketObject) : Type 0 where
  pub no_threads : s.threads ≡ []
  pub no_connections : s.pool.connection_list ≡ []
  pub no_messages : s.sender.msg_list ≡ []
  pub no_entries : s.timer.map ≡ []
  pub no_locks : s.has_locks ≡ false

cleaned-IsShutDown : (s : SocketObject) → IsShutDown (cleaned s)
unfolding connectpool_clean sendmsglist_clean timermap_clean
cleaned-IsShutDown s = record {
  no_threads = refl;
  no_connections = refl;
  no_messages = refl;
  no_entries = refl;
  no_locks = refl;
}

-- If the send thread can be woken, and of the threads, told to end, the first of the list still runs in
-- the first `k` rounds of the wait and none in the next one, then with fuel for more than `k` rounds the
-- shutdown ends: every thread has been told to end and joined exactly once, and the threads, the list of
-- all connections, the messages and the timer's entries are gone.
pub shutdown_sub_proc-IsShutDown :
    (runs : Bool → ℕ → ℕ → Bool) (k fuel : ℕ) (s : SocketObject)
    → AllNew [] s.threads
    → FirstRuns (runs true) 0 k s.threads
    → ((t : ℕ) → runs true k t ≡ false)
    → k < fuel
    → (s' : SocketObject) × (shutdown_sub_proc true runs fuel s ≡ some (s.threads, s'))
      × (s'.told ≡ true)
      × IsShutDown s'
unfolding shutdown_sub_proc
shutdown_sub_proc-IsShutDown runs k fuel s distinct first quiet enough =
    let z : 0 + k ≡ k = omega arith in
    let q : (t : ℕ) → runs true (0 + k) t ≡ false = rw z quiet in
    let w =
      wait_stopped_lem (λ i. true) (runs true) k fuel 0 s.threads (λ j. refl) distinct first q
        enough in
    (
      cleaned (record s { told = true }),
      rw w refl,
      refl,
      cleaned-IsShutDown (record s { told = true }),
    )

-- Told to end, and with a wake-up to come, the send thread ends its loop in the turn that it is in,
-- whoever holds the mutex.
pub send_msg_turn_ends :
    (told_first : Bool) (outs : ℕ → SendOutcome) (s : Sender)
    → 0 < s.sendsem
    → (u : Sender) × (send_msg_turn told_first true outs s ≡ some (false, u))
unfolding send_msg_turn
send_msg_turn_ends true outs s posted = (s, refl)
send_msg_turn_ends false outs s posted =
    let some_left : (s.sendsem == 0) ≡ false = ground arith in
    (record s { sendsem = s.sendsem - 1 }, rw some_left refl)
