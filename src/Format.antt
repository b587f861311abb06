-- ===== src/Format.antt =====
-- Formatting of texts: `fmt_string` of app/func_string.cxx. A format is first read into directives,
-- as its reading does not depend on the arguments. A result `none` is undefined behaviour: a write
-- through a null pointer, an argument of another type than the format's, or a format that ends
-- within a directive.
pub mod Bounds
pub mod Safety
mod Tests
use my_nignx.Prelude.{
  ◌>>=◌, ℕ, suc, ◌+◌, ◌-◌, ◌*◌, ◌%◌, ◌^◌, Bool, true, false, List, [], ◌∷◌, ◌++◌, Option, none,
  some, length, update, ltb, ◌==◌, if◌then◌else◌, ℤ, pos, negsuc,
}
use my_nignx.Conf.{is_digit}
use my_nignx.Fmt.{Memory, store, Buf, ui64_string, frac_string}

pub record Spec : Type 0 where
  pub fill : ℕ
  pub width : ℕ
  pub signed : Bool
  pub hex : ℕ
  pub width_frac : ℕ

pub data Conv : Type 0 where
  percent number text pid fraction : Conv
  other : ℕ → Conv

pub data Directive : Type 0 where
  literal : ℕ → Directive
  convert : Spec → Conv → Directive
  broken : Directive

abbrev pub conversion : ℕ → Conv
conversion b =
    if b == b'%'
    then percent
    else (if b == b'd'
        then number
        else (if b == b's'
            then text
            else (if b == b'p' then pid else (if b == b'f' then fraction else other b))))

-- Where the reading of the format is: outside a directive, behind `%`, in the width, behind a flag,
-- or in the width behind the point.
pub data Mode : Type 0 where
  outside opened : Mode
  in_width in_flags in_frac : Spec → Mode

abbrev pub flag_step : Spec → ℕ → Mode × List Directive
flag_step s b =
    if b == b'u'
    then (in_flags (record s { signed = false }), [])
    else (if b == b'X'
        then (in_flags (record s { hex = 2; signed = false }), [])
        else (if b == b'x'
            then (in_flags (record s { hex = 1; signed = false }), [])
            else (if b == b'.' then (in_frac s, []) else (outside, convert s (conversion b) ∷ []))))

abbrev pub width_step : Spec → ℕ → Mode × List Directive
width_step s b =
    if is_digit b
    then (in_width (record s { width = (s.width * 10 + (b - b'0')) % 2 ^ 64 }), [])
    else flag_step s b

abbrev pub new_spec : ℕ → Spec
new_spec b = record {
  fill = if b == b'0' then b'0' else b' ';
  width = 0;
  signed = true;
  hex = 0;
  width_frac = 0;
}

abbrev pub step : Mode → ℕ → Mode × List Directive
step outside b = if b == b'%' then (opened, []) else (outside, literal b ∷ [])
step opened b = width_step (new_spec b) b
step (in_width s) b = width_step s b
step (in_flags s) b = flag_step s b
step (in_frac s) b =
    if is_digit b
    then (in_frac (record s { width_frac = (s.width_frac * 10 + (b - b'0')) % 2 ^ 64 }), [])
    else (outside, convert s (conversion b) ∷ [])

abbrev pub is_outside : Mode → Bool
is_outside outside = true
is_outside opened = false
is_outside (in_width s) = false
is_outside (in_flags s) = false
is_outside (in_frac s) = false

-- The directives of a format.
unfoldable pub directives : Mode → List ℕ → List Directive
directives m [] = if is_outside m then [] else broken ∷ []
directives m (b ∷ bs) = let r = step m b in r.1 ++ directives r.0 bs

-- An argument. Of a `double` only its sign and the integer part of its size are ever printed.
pub data Arg : Type 0 where
  int_arg : ℤ → Arg
  uint_arg : ℕ → Arg
  string_arg : List ℕ → Arg
  double_arg : Bool → ℕ → Arg

-- A number behind its sign; the minus is stored without a test for room behind it.
abbrev pub print_signed : ℕ → ℕ → Memory → Spec → ℤ → Option Buf
print_signed p last mem s (pos n) = ui64_string p last mem n s.fill s.hex s.width
print_signed p last mem s (negsuc n) =
    ui64_string (p + 1) last (update mem p b'-') (suc n) s.fill s.hex s.width

abbrev pub print_number : ℕ → ℕ → Memory → Spec → Arg → Option Buf
print_number p last mem s (int_arg v) = if s.signed then print_signed p last mem s v else none
print_number p last mem s (uint_arg n) =
    if s.signed then none else ui64_string p last mem n s.fill s.hex s.width
print_number p last mem s (string_arg t) = none
print_number p last mem s (double_arg negative n) = none

abbrev pub print_pid : ℕ → ℕ → Memory → Spec → Arg → Option Buf
print_pid p last mem s (int_arg v) = print_signed p last mem s v
print_pid p last mem s (uint_arg n) = none
print_pid p last mem s (string_arg t) = none
print_pid p last mem s (double_arg negative n) = none

-- A string that does not fit is left out, but the pointer is moved past its place.
abbrev pub print_text : ℕ → ℕ → Memory → Arg → Option Buf
print_text p last mem (string_arg t) =
    let n = length t in
    some (record { at = some (p + n); mem = if ltb (p + n) last then store p t mem else mem })
print_text p last mem (int_arg v) = none
print_text p last mem (uint_arg n) = none
print_text p last mem (double_arg negative n) = none

-- Behind the integer part: the point, and the digits that `frac_string` takes from the integer part
-- again. A null pointer is written through.
abbrev pub print_fraction : ℕ → Spec → ℕ → Buf → Option Buf
print_fraction last s n b = if s.width_frac == 0 then some b else at_point b.at
  where
    at_point : Option ℕ → Option Buf
    at_point none = none
    at_point (some p) = some (
        if ltb p last
        then frac_string (p + 1) last (update b.mem p b'.') n b'0' 0 s.width_frac
        else frac_string p last b.mem n b'0' 0 s.width_frac)

abbrev pub print_double : ℕ → ℕ → Memory → Spec → Arg → Option Buf
print_double p last mem s (double_arg true n) =
    ui64_string (p + 1) last (update mem p b'-') n s.fill 0 s.width >>= print_fraction last s n
print_double p last mem s (double_arg false n) =
    ui64_string p last mem n s.fill 0 s.width >>= print_fraction last s n
print_double p last mem s (int_arg v) = none
print_double p last mem s (uint_arg n) = none
print_double p last mem s (string_arg t) = none

-- `va_arg`.
abbrev pub with_arg : List Arg → (Arg → Option Buf) → Option (List Arg × Buf)
with_arg [] f = none
with_arg (a ∷ rest) f = f a >>= λ b. some (rest, b)

abbrev pub put_byte : ℕ → ℕ → Memory → Buf
put_byte p b mem = record { at = some (p + 1); mem = update mem p b }

abbrev pub perform : ℕ → Directive → List Arg → ℕ → Memory → Option (List Arg × Buf)
perform last (literal b) args p mem = some (args, put_byte p b mem)
perform last (convert s percent) args p mem = some (args, put_byte p b'%' mem)
perform last (convert s number) args p mem = with_arg args (print_number p last mem s)
perform last (convert s text) args p mem = with_arg args (print_text p last mem)
perform last (convert s pid) args p mem = with_arg args (print_pid p last mem s)
perform last (convert s fraction) args p mem = with_arg args (print_double p last mem s)
perform last (convert s (other b)) args p mem = some (args, put_byte p b mem)
perform last broken args p mem = none

-- Before a directive: the loop ends where there is no room, and a null pointer is below `last`.
abbrev pub while_room : ℕ → Buf → Option ℕ → (ℕ → Option Buf) → Option Buf
while_room last b none body = none
while_room last b (some p) body = if ltb p last then body p else some b

abbrev pub then_run : Option (List Arg × Buf) → (List Arg → Buf → Option Buf) → Option Buf
then_run none rest = none
then_run (some (args, b)) rest = rest args b

unfoldable pub run_directives : ℕ → List Directive → List Arg → Buf → Option Buf
unfolding ui64_string frac_string
run_directives last [] args b = some b
run_directives last (d ∷ ds) args b =
    while_room last b b.at (λ p. then_run (perform last d args p b.mem) (run_directives last ds))

unfoldable pub fmt_string : Buf → ℕ → List ℕ → List Arg → Option Buf
unfolding directives run_directives
fmt_string b last fmt args = run_directives last (directives outside fmt) args b
