-- ===== src/Conf/Numbers.antt =====
-- Numbers in a configuration file.
use my_nignx.Prelude.{
  ℕ, zero, suc, ◌+◌, ◌-◌, ◌*◌, ◌/◌, ◌%◌, ◌^◌, ◌<◌, ◌≡◌, refl, ap, ◌∙◌, true, false, List, [], ◌∷◌,
  ◌++◌, none, some, arith, ltb, ℤ, pos, ◌==◌, Bool-cases, inl, inr,
}
use my_nignx.Text.{same_string, decimal, int_text}
use my_nignx.Conf.{
  ConfItem, get_string, get_int, atoi, skip_spaces, digits_value, is_space, is_int, is_digit,
  value_or, load,
}
use my_nignx.Conf.Layout.{
  Spacing, Entry, empty_line, comment, section, setting, print, items_of, AllWellFormed,
}
use my_nignx.Conf.RoundTrip.{load-print}

abbrev pub AllDigits : List ℕ → Type 0
AllDigits [] = Unit {0}
AllDigits (b ∷ bs) = (is_digit b ≡ true) × AllDigits bs

pub AllDigits-append : (s t : List ℕ) → AllDigits s → AllDigits t → AllDigits (s ++ t)
AllDigits-append [] t hs ht = ht
AllDigits-append (b ∷ bs) t hs ht = (hs.0, AllDigits-append bs t hs.1 ht)

pub digits_value-append :
    (n : ℕ) (s : List ℕ) (d : ℕ)
    → AllDigits s
    → d < 10
    → digits_value n (s ++ ((b'0' + d) ∷ [])) ≡ digits_value n s * 10 + d
unfolding digits_value
digits_value-append n [] d h lt = ground arith
digits_value-append n (b ∷ bs) d h lt =
    rw h.0 (digits_value-append (n * 10 + (b - b'0')) bs d h.1 lt)

decimal-AllDigits : (fuel n : ℕ) → AllDigits (decimal fuel n)
unfolding decimal
decimal-AllDigits zero n = tt
decimal-AllDigits (suc fuel) n = elim (Bool-cases (ltb n 10)) [
  | inl one ↦ rw one (ground arith, tt)
  | inr more ↦ rw more (
      AllDigits-append (decimal fuel (n / 10)) ((b'0' + n % 10) ∷ [])
        (decimal-AllDigits fuel (n / 10)) (ground arith, tt))
]

decimal-value : (fuel n : ℕ) → n < 10 ^ fuel → digits_value 0 (decimal fuel n) ≡ n
unfolding decimal digits_value
decimal-value zero n h = omega arith
decimal-value (suc fuel) n h = elim (Bool-cases (ltb n 10)) [
  | inl one ↦ rw one (ground arith)
  | inr more ↦
      let p : 10 ^ suc fuel ≡ 10 * 10 ^ fuel = omega arith in
      let lt : n / 10 < 10 ^ fuel = omega arith in
      rw more (
        digits_value-append 0 (decimal fuel (n / 10)) (n % 10) (decimal-AllDigits fuel (n / 10))
          (omega arith)
        ∙ omega (arith, decimal-value fuel (n / 10) lt))
]

atoi_digits :
    (s : List ℕ) → AllDigits s → digits_value 0 s < 2 ^ 31 → atoi s ≡ some (pos (digits_value 0 s))
unfolding atoi skip_spaces digits_value
atoi_digits [] h lt = refl
atoi_digits (b ∷ bs) h lt =
    let sp : is_space b ≡ false = ground (arith, h.0) in
    let minus : (b == b'-') ≡ false = ground (arith, h.0) in
    let plus : (b == b'+') ≡ false = ground (arith, h.0) in
    let int : is_int (pos (digits_value 0 (b ∷ bs))) ≡ true = ground arith in
    rw (sp, minus, plus, int) refl

-- `atoi` reads a number back from its decimal digits.
pub atoi-int_text : (n : ℕ) → n < 2 ^ 31 → atoi (int_text n) ≡ some (pos n)
atoi-int_text n h =
    let v = decimal-value 10 n (omega arith) in
    atoi_digits (int_text n) (decimal-AllDigits 10 n) (omega arith) ∙ ap (λ m. some (pos m)) v

same_string_refl : (s : List ℕ) → same_string s s ≡ true
same_string_refl [] = refl
same_string_refl (b ∷ bs) = ground (arith, same_string_refl bs)

-- No item has the name.
abbrev pub NoneNamed : List ℕ → List ConfItem → Type 0
NoneNamed name [] = Unit {0}
NoneNamed name (i ∷ rest) = (same_string i.itemname name ≡ false) × NoneNamed name rest

first_named :
    (xs ys : List ConfItem) (i : ConfItem)
    → NoneNamed i.itemname xs
    → get_string (xs ++ (i ∷ ys)) i.itemname ≡ some i.itemvalue
unfolding get_string
first_named [] ys i h = rw (same_string_refl i.itemname) refl
first_named (x ∷ xs) ys i h = rw h.0 (first_named xs ys i h.1)

none_named : (name : List ℕ) (xs : List ConfItem) → NoneNamed name xs → get_string xs name ≡ none
unfolding get_string
none_named name [] h = refl
none_named name (x ∷ xs) h = rw h.0 (none_named name xs h.1)

items_of-append : (es fs : List Entry) → items_of (es ++ fs) ≡ items_of es ++ items_of fs
items_of-append [] fs = refl
items_of-append (empty_line ∷ es) fs = items_of-append es fs
items_of-append (comment t ∷ es) fs = items_of-append es fs
items_of-append (section t ∷ es) fs = items_of-append es fs
items_of-append (setting i p ∷ es) fs = ap (◌∷◌ i) (items_of-append es fs)

-- A file of entries in which the first setting of a name has a number below 2^31 in decimal is loaded,
-- and `GetInt` of the name then returns the number, whatever default it is given.
pub load-get_int :
    (es fs : List Entry) (i : ConfItem) (p : Spacing) (n : ℕ) (def : ℤ)
    → AllWellFormed (es ++ (setting i p ∷ fs))
    → i.itemvalue ≡ int_text n
    → n < 2 ^ 31
    → NoneNamed i.itemname (items_of es)
    → (items : List ConfItem) × (load (some (print (es ++ (setting i p ∷ fs)))) []
        ≡ some (true, items))
      × (get_int items i.itemname def ≡ some (pos n))
unfolding get_int
load-get_int es fs i p n def wf v lt first =
    let es' = es ++ (setting i p ∷ fs) in
    (
      items_of es',
      load-print es' [] wf,
      ap (λ xs. value_or def (get_string xs i.itemname)) (items_of-append es (setting i p ∷ fs))
          ∙ ap (value_or def) (first_named (items_of es) (items_of fs) i first)
          ∙ ap atoi v
          ∙ atoi-int_text n lt,
    )

-- A file of entries in which no setting has the name: `GetInt` returns its default.
pub load-get_int_default :
    (es : List Entry) (name : List ℕ) (def : ℤ)
    → AllWellFormed es
    → NoneNamed name (items_of es)
    → (items : List ConfItem) × (load (some (print es)) [] ≡ some (true, items))
      × (get_int items name def ≡ some def)
unfolding get_int
load-get_int_default es name def wf absent =
    (items_of es, load-print es [] wf, ap (value_or def) (none_named name (items_of es) absent))
