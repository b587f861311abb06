-- ===== src/Signals/Tests.antt =====
-- Signals: a SIGCHLD sent by a child, and the children that are waited for.
use my_nignx.Prelude.{ℕ, [], ◌∷◌, none, some, ◌≡◌, refl, arith, ◌==◌, if◌then◌else◌}
use my_nignx.Sys.{eintr}
use my_nignx.Log.{zeros}
use my_nignx.Signals.{
  name_of, handler_text, WaitPid, none_changed, failed, ended, process_get_status,
}
use my_nignx.Signals.Logged.{handler_text_faults}
use my_nignx.Signals.Reaping.{process_get_status_lem}

handler_text_faults_example :
    handler_text 17 (some 4711) (record { at = some 35; mem = zeros }) 2048 ≡ none
unfolding name_of
handler_text_faults_example = handler_text_faults 17 4711 35 2048 zeros _ refl (omega arith)

-- One child has ended, one call is interrupted, and then none has changed.
abbrev calls : ℕ → WaitPid
calls i = if i == 0 then ended 100 9 0 else (if i == 1 then failed eintr else none_changed)

process_get_status_lem_example : process_get_status calls 5 0 ≡ some (100 ∷ [])
process_get_status_lem_example =
    process_get_status_lem calls 2 5 0 (tt, (refl, tt)) tt (omega arith)
