-- ===== src/Format/Tests.antt =====
-- Formatting into a small buffer.
use my_nignx.Prelude.{All, [], ◌∷◌, ℕ, Option, none, some, ◌≡◌, refl, codes, pos, false}
use my_nignx.Fmt.{Buf, ui64_string, ui64_text, frac_string, frac_text, units, decimal_units}
use my_nignx.Format.{int_arg, string_arg, double_arg, directives, run_directives, fmt_string}
use my_nignx.Format.Bounds.{BufWithin}
use my_nignx.Format.Safety.{fmt_string-Within}

abbrev blank : ℕ → ℕ
blank a = 0

abbrev byte_at : ℕ → Option Buf → ℕ
byte_at a none = 0
byte_at a (some b) = b.mem a

-- `frac_string` tests only its first byte: the digits go past the end of the buffer, which is 6.
past_the_end :
    byte_at 6
      (fmt_string (record { at = some 0; mem = blank }) 6 (codes "%.5f") (double_arg false 3 ∷ []))
    ≡ b'0'
unfolding fmt_string directives run_directives ui64_string ui64_text frac_string frac_text units
    decimal_units
past_the_end = refl

fmt_string-Within_example : All (BufWithin 1 6 blank) (
    fmt_string
      (record { at = some 1; mem = blank })
      6
      (codes "%d%s")
      (int_arg (pos 12) ∷ string_arg (codes "abc") ∷ []))
fmt_string-Within_example =
    fmt_string-Within 1 6 blank (codes "%d%s") (int_arg (pos 12) ∷ string_arg (codes "abc") ∷ []) tt
