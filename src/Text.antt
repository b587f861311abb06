-- ===== src/Text.antt =====
-- C strings: a string is the list of its bytes before the null byte, whose values run from 0 to 255.
-- `Ltrim` and `Rtrim` of app/func_string.cxx, and what they and their callers use of the C library.
pub mod Trim
use my_nignx.Prelude.{
  ℕ, zero, suc, ◌+◌, ◌/◌, ◌%◌, ltb, ◌++◌, Bool, true, false, ◌&&◌, ◌||◌, List, [], ◌∷◌, Option,
  none, some, ◌==◌, if◌then◌else◌,
}

-- The string in a buffer.
abbrev pub c_string : List ℕ → List ℕ
c_string [] = []
c_string (b ∷ bs) = if b == 0 then [] else b ∷ c_string bs

-- `strcmp` returns 0.
abbrev pub same_string : List ℕ → List ℕ → Bool
same_string [] [] = true
same_string [] (b ∷ bs) = false
same_string (a ∷ rest) [] = false
same_string (a ∷ rest) (b ∷ bs) = a == b && same_string rest bs

-- The string before the first byte `mark`, and after it: `strchr` and a null byte in its place.
abbrev pub before : ℕ → List ℕ → List ℕ
before mark [] = []
before mark (b ∷ bs) = if b == mark then [] else b ∷ before mark bs

abbrev pub after : ℕ → List ℕ → Option (List ℕ)
after mark [] = none
after mark (b ∷ bs) = if b == mark then some bs else after mark bs

unfoldable pub ltrim : List ℕ → List ℕ
ltrim [] = []
ltrim (b ∷ bs) = if b == b' ' then ltrim bs else b ∷ bs

abbrev pub is_blank : ℕ → Bool
is_blank b = b == b' ' || b == b'\n' || b == b'\r'

-- The string that `Rtrim` leaves in the buffer.
abbrev pub trim_onto : ℕ → List ℕ → List ℕ
trim_onto b [] = if is_blank b then [] else b ∷ []
trim_onto b (c ∷ cs) = b ∷ c ∷ cs

unfoldable pub rtrim_text : List ℕ → List ℕ
rtrim_text [] = []
rtrim_text (b ∷ bs) = trim_onto b (rtrim_text bs)

-- What `Rtrim` returns: the string, or a null pointer if nothing is left of it.
abbrev pub or_null : List ℕ → Option (List ℕ)
or_null [] = none
or_null (b ∷ bs) = some (b ∷ bs)

unfoldable pub rtrim : List ℕ → Option (List ℕ)
unfolding rtrim_text
rtrim s = or_null (rtrim_text s)

-- `sprintf` with `%d`, for numbers of at most `fuel` digits.
unfoldable pub decimal : ℕ → ℕ → List ℕ
decimal zero n = []
decimal (suc fuel) n =
    let front = decimal fuel (n / 10) in
    if ltb n 10 then (b'0' + n) ∷ [] else front ++ ((b'0' + n % 10) ∷ [])

-- An `int` has at most ten digits.
abbrev pub int_text : ℕ → List ℕ
int_text n = decimal 10 n
