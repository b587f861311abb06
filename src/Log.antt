-- ===== src/Log.antt =====
-- Log lines: `log_errno`, `std_error_core`, `log_error_core` and `init_log` of app/func_log.cxx. A
-- result `none` is undefined behaviour, within formatting or by a write through a null pointer.
pub mod Lines
mod Tests
use my_nignx.Prelude.{
  ◌>>=◌, ℕ, zero, suc, ◌+◌, ◌-◌, ◌^◌, Bool, true, false, List, [], ◌∷◌, ◌++◌, Option, none, some,
  length, get_elem?, update, ltb, ◌==◌, if◌then◌else◌, ℤ, pos, negsuc, eqb_ℤ, ltb_ℤ, codes,
}
use my_nignx.Text.{c_string}
use my_nignx.Conf.{ConfItem, get_string, get_int}
use my_nignx.Fmt.{Memory, store, Buf}
use my_nignx.Format.{Arg, int_arg, string_arg, fmt_string}

-- The arrays are `errstr`, of one byte more than this, and `strcurrtime`.
abbrev pub max_error_str : ℕ
max_error_str = 2048

abbrev pub time_size : ℕ
time_size = 40

abbrev pub err_levels : List (List ℕ)
err_levels =
    codes "stderr"
    ∷ codes "emerg"
    ∷ codes "alert"
    ∷ codes "crit"
    ∷ codes "error"
    ∷ codes "warn"
    ∷ codes "notice"
    ∷ codes "info"
    ∷ codes "debug"
    ∷ []

-- `n` bytes from an address on.
abbrev pub bytes : ℕ → ℕ → Memory → List ℕ
bytes p zero mem = []
bytes p (suc n) mem = mem p ∷ bytes (p + 1) n mem

abbrev pub zeros : Memory
zeros p = 0

-- `errinfo` is what `strerror` returns.
unfoldable pub log_errno : Buf → ℕ → ℤ → List ℕ → Option Buf
unfolding fmt_string
log_errno b last errnum errinfo = do
  b' ← fmt_string b last (codes " [%d: ") (int_arg errnum ∷ [])
  fmt_string b' last (codes "%s]") (string_arg errinfo ∷ [])

abbrev pub with_errno : ℤ → List ℕ → Buf → Option Buf
with_errno errnum errinfo b =
    if eqb_ℤ errnum (pos 0) then some b else log_errno b max_error_str errnum errinfo

-- The line feed, after the pointer is put back where the text is too long, and the bytes written.
abbrev pub end_at : Memory → Option ℕ → Option (List ℕ)
end_at mem none = none
end_at mem (some p) =
    let q = if ltb p (max_error_str - 1) then p else max_error_str - 2 in
    some (bytes 0 (q + 1) (update mem q b'\n'))

abbrev pub end_line : Buf → Option (List ℕ)
end_line b = end_at b.mem b.at

-- A text at the start of the array, and the pointer behind it.
abbrev pub start_with : List ℕ → Buf
start_with s = record { at = some (length s); mem = store 0 s zeros }

unfoldable pub std_error_core : ℤ → List ℕ → List ℕ → List Arg → Option (List ℕ)
unfolding log_errno
std_error_core errnum errinfo fmt args = do
  b ← fmt_string (start_with (codes "nginx: ")) max_error_str fmt args
  b' ← with_errno errnum errinfo b
  end_line b'

-- What the time functions and `getpid` return.
pub record Moment : Type 0 where
  pub year : ℤ
  pub month : ℤ
  pub mday : ℤ
  pub hour : ℤ
  pub min : ℤ
  pub sec : ℤ
  pub cur_pid : ℤ

unfoldable pub time_text : Moment → Option (List ℕ)
unfolding fmt_string
time_text t = do
  b ←
      fmt_string (record { at = some 0; mem = zeros }) (2 ^ 64 - 1)
        (codes "%4d/%02d/%02d %02d:%02d:%02d")
        (int_arg t.year
          ∷ int_arg t.month
          ∷ int_arg t.mday
          ∷ int_arg t.hour
          ∷ int_arg t.min
          ∷ int_arg t.sec
          ∷ [])
  some (c_string (bytes 0 time_size b.mem))

-- What `log_error_core` puts into its array.
unfoldable pub log_text : Moment → ℕ → ℤ → List ℕ → List ℕ → List Arg → Option Buf
unfolding log_errno time_text
log_text t level errnum errinfo fmt args = do
  stamp ← time_text t
  name ← get_elem? err_levels level
  b ← fmt_string (start_with stamp) max_error_str (codes " [%s] ") (string_arg name ∷ [])
  b' ← fmt_string b max_error_str (codes " %p ") (int_arg t.cur_pid ∷ [])
  b'' ← fmt_string b' max_error_str fmt args
  with_errno errnum errinfo b''

-- The line that it makes.
unfoldable pub log_line : Moment → ℕ → ℤ → List ℕ → List ℕ → List Arg → Option (List ℕ)
unfolding log_text
log_line t level errnum errinfo fmt args = do
  b ← log_text t level errnum errinfo fmt args
  end_line b

-- `log_s`.
pub record LogState : Type 0 where
  pub fd : ℤ
  pub log_level : ℤ

-- What `write` to the log does: it stores the line, fails as the disk is full, or fails otherwise.
pub data WriteCall : Type 0 where
  wrote no_space write_failed : WriteCall

abbrev pub stderr_fd : ℤ
stderr_fd = pos 2

-- The calls of `write`: the descriptors, in their order.
abbrev pub write_fds : LogState → ℕ → WriteCall → List ℤ
write_fds st level call =
    if ltb_ℤ st.log_level (pos level)
    then []
    else (if fails call
        then (if eqb_ℤ st.fd stderr_fd then st.fd ∷ [] else st.fd ∷ stderr_fd ∷ [])
        else st.fd ∷ [])
  where
    fails : WriteCall → Bool
    fails wrote = false
    fails no_space = false
    fails write_failed = true

-- The line, and the descriptors that it is written to.
unfoldable pub log_error_core :
    LogState → WriteCall → Moment → ℕ → ℤ → List ℕ → List ℕ → List Arg → Option (List ℤ × List ℕ)
unfolding log_line
log_error_core st call t level errnum errinfo fmt args = do
  line ← log_line t level errnum errinfo fmt args
  some (write_fds st level call, line)

abbrev pub file_name : Option (List ℕ) → List ℕ
file_name none = codes "logs/error.log"
file_name (some n) = n

-- The name of the file to open, and the state after `open` returned `opened`.
unfoldable pub init_log : List ConfItem → ℤ → Option (List ℕ × LogState)
init_log items opened = do
  level ← get_int items (codes "LogLevel") (pos 6)
  some (
    file_name (get_string items (codes "Log")),
    record { fd = if eqb_ℤ opened (negsuc 0) then stderr_fd else opened; log_level = level },
  )
