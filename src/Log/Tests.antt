-- ===== src/Log/Tests.antt =====
-- A log line, and one without room for its error number.
use my_nignx.Prelude.{All, [], ◌∷◌, none, some, ◌≡◌, refl, arith, codes, pos}
use my_nignx.Fmt.{ui64_string, ui64_text, units, decimal_units}
use my_nignx.Format.{int_arg, string_arg, directives, run_directives, fmt_string}
use my_nignx.Log.{zeros, log_errno, Moment, time_text, log_text, log_line}
use my_nignx.Log.Lines.{IsLine, log_line-IsLine, log_errno_no_room}

abbrev noon : Moment
noon = record {
  year = pos 2024;
  month = pos 3;
  mday = pos 7;
  hour = pos 12;
  min = pos 0;
  sec = pos 5;
  cur_pid = pos 4711;
}

log_line-sample :
    log_line noon 7
      (pos 2)
      (codes "No such file")
      (codes "%d of %s")
      (int_arg (pos 3) ∷ string_arg (codes "four") ∷ [])
    ≡ some (codes "2024/03/07 12:00:05 [info]  4711 3 of four [2: No such file]\n")
unfolding log_line log_text log_errno time_text fmt_string directives run_directives ui64_string
    ui64_text units decimal_units
log_line-sample = refl

log_errno_no_room_example :
    log_errno (record { at = some 5; mem = zeros }) 8 (pos 10) (codes "No child") ≡ none
unfolding ui64_text units decimal_units
log_errno_no_room_example =
    log_errno_no_room 5 8 10 zeros (codes "No child") (omega arith) (omega arith)

log_line-IsLine_sample : All IsLine (
    log_line noon 7
      (pos 0)
      []
      (codes "%d of %s")
      (int_arg (pos 3) ∷ string_arg (codes "four") ∷ []))
log_line-IsLine_sample =
    log_line-IsLine noon 7 (pos 0) [] (codes "%d of %s")
      (int_arg (pos 3) ∷ string_arg (codes "four") ∷ [])
