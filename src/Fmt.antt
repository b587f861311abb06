-- ===== src/Fmt.antt =====
-- Printing of numbers: `ui64_string` and `frac_string` of app/func_string.cxx. Memory is a function of
-- the address, and `last` the first address that is not to be written.
pub mod Digits
mod Tests
use Prim.Native.Nat.{bit_and, min}
use my_nignx.Prelude.{
  ℕ, zero, suc, ◌+◌, ◌-◌, ◌*◌, ◌/◌, ◌%◌, ◌^◌, Bool, true, false, List, [], ◌∷◌, ◌++◌, Option, none,
  some, length, take, replicate, get_or, update, ltb, leb, ◌==◌, if◌then◌else◌, ℤ, pos, negsuc,
  codes,
}
use my_nignx.Conf.{is_digit}

abbrev pub reversed : List ℕ → List ℕ
reversed [] = []
reversed (b ∷ bs) = reversed bs ++ (b ∷ [])

-- The digits, the last one first; 64 rounds are more than a number of 64 bits needs.
unfoldable pub decimal_units : ℕ → ℕ → List ℕ
decimal_units zero n = []
decimal_units (suc fuel) n =
    let rest = decimal_units fuel (n / 10) in (b'0' + n % 10) ∷ (if n / 10 == 0 then [] else rest)

unfoldable pub hex_units : List ℕ → ℕ → ℕ → List ℕ
hex_units letters zero n = []
hex_units letters (suc fuel) n =
    let rest = hex_units letters fuel (n / 16) in
    if n == 0 then [] else get_or letters (bit_and n 15) 0 ∷ rest

unfoldable pub units : ℕ → ℕ → List ℕ
unfolding decimal_units hex_units
units hexadecimal n =
    if hexadecimal == 0
    then decimal_units 64 n
    else hex_units (if hexadecimal == 1 then codes "0123456789abcdef" else codes "0123456789ABCDEF")
        64 n

-- `width` after the adjustment.
abbrev pub full_width : ℕ → List ℕ → ℕ
full_width width q = if width == 0 then length q else width

-- What `ui64_string` stores: the digits from the right, as many as fit the width, and what is left of
-- the width filled up.
unfoldable pub ui64_text : ℕ → ℕ → ℕ → ℕ → List ℕ
unfolding units
ui64_text ui64 fill hexadecimal width =
    let q = units hexadecimal ui64 in
    let w = full_width width q in
    let non_zero = min (length q) w in replicate (w - non_zero) fill ++ reversed (take non_zero q)

-- What `frac_string` stores: the digits from the left, then the filling.
unfoldable pub frac_text : ℕ → ℕ → ℕ → ℕ → List ℕ
unfolding units
frac_text ui64 fill hexadecimal width =
    let q = units hexadecimal ui64 in
    let w = full_width width q in
    let non_zero = min (length q) w in take non_zero (reversed q) ++ replicate (w - non_zero) fill

abbrev pub Memory : Type 0
Memory = ℕ → ℕ

-- Bytes stored from an address on.
abbrev pub store : ℕ → List ℕ → Memory → Memory
store p [] mem = mem
store p (b ∷ bs) mem = store (p + 1) bs (update mem p b)

-- `buf` and the memory; a null pointer is `none`.
pub record Buf : Type 0 where
  pub at : Option ℕ
  pub mem : Memory

-- A width that moves the pointer past the end of the address space is undefined behaviour: `none`.
unfoldable pub ui64_string : ℕ → ℕ → Memory → ℕ → ℕ → ℕ → ℕ → Option Buf
unfolding ui64_text
ui64_string p last mem ui64 fill hexadecimal width =
    let w = full_width width (units hexadecimal ui64) in
    if ltb (2 ^ 64) (p + w)
    then none
    else some (
        if ltb (p + w) (last + 1)
        then record { at = some (p + w); mem = store p (ui64_text ui64 fill hexadecimal width) mem }
        else record { at = none; mem = mem })

-- The room is tested for the first byte only.
unfoldable pub frac_string : ℕ → ℕ → Memory → ℕ → ℕ → ℕ → ℕ → Buf
unfolding frac_text
frac_string p last mem ui64 fill hexadecimal width =
    let t = frac_text ui64 fill hexadecimal width in
    if ltb p last
    then record { at = some (p + length t); mem = store p t mem }
    else record { at = none; mem = mem }
