-- ===== src/Conf.antt =====
-- The configuration file: `CConfig` of app/c_conf.cxx. A file is the list of its bytes.
-- A result `none` is undefined behaviour: a null pointer given to `strcpy`, or a string that does not
-- fit its buffer.
pub mod Layout
pub mod Lines
pub mod RoundTrip
pub mod Faults
pub mod Numbers
mod Tests
use my_nignx.Prelude.{
  ℕ, suc, zero, ◌+◌, ◌-◌, ◌*◌, ◌^◌, Bool, true, false, ◌||◌, ◌&&◌, List, [], ◌∷◌, ◌++◌, Option,
  none, some, length, ltb, leb, ◌==◌, if◌then◌else◌, ℤ, pos, negsuc, sub_ℕ, leb_ℤ,
}
use my_nignx.Text.{c_string, same_string, before, after, ltrim, rtrim_text, rtrim}

pub record ConfItem : Type 0 where
  pub itemname : List ℕ
  pub itemvalue : List ℕ

-- The sizes of `line`, `itemname` and `itemvalue`.
abbrev pub line_size : ℕ
line_size = 200

abbrev pub name_size : ℕ
name_size = 30

abbrev pub value_size : ℕ
value_size = 60

-- What one `fgets` may store at most: its size argument less one for the null byte.
abbrev pub chunk_size : ℕ
chunk_size = line_size - 2

abbrev pub onto_first : ℕ → List (List ℕ) → List (List ℕ)
onto_first b [] = (b ∷ []) ∷ []
onto_first b (line ∷ lines) = (b ∷ line) ∷ lines

-- What the calls of `fgets` store one after the other, where the first has room for `room` bytes:
-- each ends after a line feed, with its room, or with the file.
unfoldable pub fgets_all : ℕ → List ℕ → List (List ℕ)
fgets_all room [] = []
fgets_all room (b ∷ bs) =
    let closes = b == b'\n' || leb room 1 in
    let rest = fgets_all (if closes then chunk_size else room - 1) bs in
    if closes then (b ∷ []) ∷ rest else onto_first b rest

-- Lines that hold no item: those that begin with a negative `char`, empty ones, comments, sections.
abbrev pub is_skipped : List ℕ → Bool
is_skipped [] = true
is_skipped (b ∷ bs) = leb 128 b || (b == b'\n' || (b == b'\r' || (b == b'#' || b == b'[')))

-- `strcpy` into an array.
abbrev pub copied : ℕ → Option (List ℕ) → Option (List ℕ)
copied size none = none
copied size (some s) = if ltb (length s) size then some s else none

abbrev pub make_item : Option (List ℕ) → Option (List ℕ) → Option (List ConfItem)
make_item none n = none
make_item (some v) none = none
make_item (some v) (some n) = some (record { itemname = n; itemvalue = v } ∷ [])

-- The item of a trimmed line, if it has the separator; the value is copied first.
abbrev pub read_item : List ℕ → Option (List ℕ) → Option (List ConfItem)
read_item s none = some []
read_item s (some v) =
    make_item (copied value_size (some (ltrim v))) (copied name_size (rtrim (before b'=' s)))

-- One round of the loop: no item or one.
unfoldable pub read_line : List ℕ → Option (List ConfItem)
unfolding ltrim rtrim
read_line line =
    let s = ltrim (c_string line) in
    let t = rtrim_text (before b'#' s) in
    if is_skipped s then some [] else read_item t (after b'=' t)

abbrev pub joined : Option (List ConfItem) → Option (List ConfItem) → Option (List ConfItem)
joined none r = none
joined (some xs) none = none
joined (some xs) (some ys) = some (xs ++ ys)

unfoldable pub read_lines : List (List ℕ) → Option (List ConfItem)
read_lines [] = some []
read_lines (l ∷ ls) = joined (read_line l) (read_lines ls)

abbrev pub loaded : List ConfItem → Option (List ConfItem) → Option (Bool × List ConfItem)
loaded items none = none
loaded items (some new) = some (true, items ++ new)

-- `none` for a file that cannot be opened. Reading is taken not to fail.
unfoldable pub load : Option (List ℕ) → List ConfItem → Option (Bool × List ConfItem)
unfolding fgets_all read_lines
load none items = some (false, items)
load (some file) items = loaded items (read_lines (fgets_all chunk_size file))

-- The first item of the name; `none` stands for the null pointer.
unfoldable pub get_string : List ConfItem → List ℕ → Option (List ℕ)
get_string [] name = none
get_string (i ∷ rest) name =
    if same_string i.itemname name then some i.itemvalue else get_string rest name

abbrev pub is_space : ℕ → Bool
is_space b = b == b' ' || (leb 9 b && leb b 13)

abbrev pub is_digit : ℕ → Bool
is_digit b = leb b'0' b && leb b b'9'

-- The number that the digits at the front spell behind `n`.
unfoldable pub digits_value : ℕ → List ℕ → ℕ
digits_value n [] = n
digits_value n (b ∷ bs) = if is_digit b then digits_value (n * 10 + (b - b'0')) bs else n

abbrev pub signed_value : List ℕ → ℤ
signed_value [] = pos 0
signed_value (b ∷ bs) =
    if b == b'-'
    then sub_ℕ 0 (digits_value 0 bs)
    else (if b == b'+' then pos (digits_value 0 bs) else pos (digits_value 0 (b ∷ bs)))

unfoldable pub skip_spaces : List ℕ → List ℕ
skip_spaces [] = []
skip_spaces (b ∷ bs) = if is_space b then skip_spaces bs else b ∷ bs

abbrev pub is_int : ℤ → Bool
is_int n = leb_ℤ (negsuc (2 ^ 31 - 1)) n && leb_ℤ n (pos (2 ^ 31 - 1))

-- The library's `atoi`; of a number that is not an `int` it is undefined.
unfoldable pub atoi : List ℕ → Option ℤ
unfolding skip_spaces digits_value
atoi s = let n = signed_value (skip_spaces s) in if is_int n then some n else none

abbrev pub value_or : ℤ → Option (List ℕ) → Option ℤ
value_or def none = some def
value_or def (some v) = atoi v

unfoldable pub get_int : List ConfItem → List ℕ → ℤ → Option ℤ
unfolding get_string
get_int items name def = value_or def (get_string items name)
