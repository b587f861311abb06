-- ===== src/Workers/Tests.antt =====
-- The thread pool of threadpool/c_threadpool.cxx with two threads and one message.
use my_nignx.Workers.Stopping.{wait_stopped, wait_stopped_lem}
use my_nignx.Prelude.{◌==◌, if◌then◌else◌, Bool, true, false, ℕ, some, ◌≡◌, arith, refl, [], ◌∷◌}
use my_nignx.Conn.{Message}
use my_nignx.Workers.{ThreadPool, create_threads, in_msg_recv, get_msg_item, thread_round}
use my_nignx.Workers.Run.{Run, created, receives, goes_round, IsHandled}
use my_nignx.Workers.Handled.{Run-IsHandled}

abbrev ping_message : Message
ping_message = record {
  header = record { lp_curconn = 3; msg_cursequence = 1 };
  pkg = 0 ∷ 8 ∷ 0 ∷ 0 ∷ 0 ∷ 0 ∷ 0 ∷ 0 ∷ [];
}

abbrev with_message : ThreadPool
with_message = in_msg_recv (some ping_message) (create_threads 2)

one_handled : Run (some ping_message ∷ []) (ping_message ∷ []) (thread_round 1 with_message)
unfolding create_threads in_msg_recv thread_round get_msg_item
one_handled =
    goes_round (some ping_message ∷ []) [] with_message 1 (omega arith) refl (λ e. cc)
      (receives [] [] (create_threads 2) (some ping_message) (created 2))

Run-IsHandled_example :
    IsHandled (some ping_message ∷ []) (ping_message ∷ []) (thread_round 1 with_message)
Run-IsHandled_example =
    Run-IsHandled (some ping_message ∷ []) (ping_message ∷ []) (thread_round 1 with_message)
      one_handled

-- Two threads, the first of which still runs in round 0.
abbrev late : ℕ → ℕ → Bool
late i t = if i == 0 then t == 0 else false

wait_stopped_lem_sample :
    wait_stopped (λ i. true) late 3 0 (0 ∷ 1 ∷ []) [] ≡ some (true, 0 ∷ 1 ∷ [])
wait_stopped_lem_sample =
    wait_stopped_lem (λ i. true) late 1 3 0 (0 ∷ 1 ∷ []) (λ j. refl) (refl, (refl, tt)) (refl, tt)
      (λ t. refl) (omega arith)
