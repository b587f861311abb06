-- ===== src/Fmt/Digits.antt =====
-- The number that a printed text spells.
use Prim.Native.Nat.{min}
use native.Mathlib.Nat.{
  zero-mod, mod-lt, mod-eq_of_lt, div-add-mod, mul_assoc, mul-add-mod_self_left,
}
use my_nignx.Prelude.{
  ℕ, zero, suc, ◌+◌, ◌-◌, ◌*◌, ◌/◌, ◌%◌, ◌^◌, ◌<◌, ◌≤◌, ◌≡◌, refl, sym, ap, ◌∙◌, List, [], ◌∷◌,
  ◌++◌, arith, Bool, true, false, length, take, replicate, length-append, length-replicate,
  length-take, take_all, ◌==◌, if◌then◌else◌, Bool-cases, inl, inr,
}
use my_nignx.Conf.{digits_value}
use my_nignx.Conf.Numbers.{AllDigits, AllDigits-append, digits_value-append}
use my_nignx.Fmt.{reversed, decimal_units, units, full_width, ui64_text}

-- The last digits of a number, from those of its tenth.
mod_ten : (n m : ℕ) → 0 < m → n % (10 * m) ≡ n / 10 % m * 10 + n % 10
mod_ten n m h =
    let q = n / 10 in
    let c = q % m * 10 + n % 10 in
    let back : m * (q / m) + q % m ≡ q = div-add-mod q m in
    let whole : 10 * m * (q / m) ≡ 10 * (m * (q / m)) = mul_assoc 10 m (q / m) in
    let small : q % m < m = mod-lt q h in
    let split : n ≡ 10 * m * (q / m) + c = omega arith in
    let fits : c < 10 * m = omega arith in
    ap (λ x. x % (10 * m)) split ∙ mul-add-mod_self_left (10 * m) (q / m) c ∙ mod-eq_of_lt fits

none-AllDigits : (k : ℕ) → AllDigits (reversed (take k []))
none-AllDigits zero = tt
none-AllDigits (suc k) = tt

cut-AllDigits :
    (b : Bool) (k : ℕ) (rest : List ℕ)
    → AllDigits (reversed (take k rest))
    → AllDigits (reversed (take k (if b then [] else rest)))
cut-AllDigits true k rest h = none-AllDigits k
cut-AllDigits false k rest h = h

units-AllDigits : (fuel k n : ℕ) → AllDigits (reversed (take k (decimal_units fuel n)))
unfolding decimal_units
units-AllDigits fuel zero n = tt
units-AllDigits zero (suc k) n = tt
units-AllDigits (suc fuel) (suc k) n =
    let b = n / 10 == 0 in
    let rest = decimal_units fuel (n / 10) in
    AllDigits-append (reversed (take k (if b then [] else rest))) ((b'0' + n % 10) ∷ [])
      (cut-AllDigits b k rest (units-AllDigits fuel k (n / 10))) (ground arith, tt)

none_value : (k : ℕ) → digits_value 0 (reversed (take k [])) ≡ 0
unfolding digits_value
none_value zero = refl
none_value (suc k) = refl

ten_pow_pos : (k : ℕ) → 0 < 10 ^ k
ten_pow_pos zero = omega arith
ten_pow_pos (suc k) = omega (arith, ten_pow_pos k)

-- The number of the last `k` digits.
last_digits :
    (fuel k n : ℕ)
    → n < 10 ^ fuel
    → digits_value 0 (reversed (take k (decimal_units fuel n))) ≡ n % 10 ^ k
unfolding decimal_units digits_value
last_digits fuel zero n h = omega arith
last_digits zero (suc k) n h = let z : n ≡ 0 = omega arith in rw z (sym (zero-mod (10 ^ suc k)))
last_digits (suc fuel) (suc k) n h =
    let q = n / 10 in
    let b = q == 0 in
    let rest = decimal_units fuel q in
    let front = reversed (take k (if b then [] else rest)) in
    let v : digits_value 0 front ≡ q % 10 ^ k = elim (Bool-cases b) [
      | inl small ↦
          let z : q ≡ 0 = ground arith in rw (small, z) (none_value k ∙ sym (zero-mod (10 ^ k)))
      | inr big ↦ rw big (last_digits fuel k q (omega arith))
    ] in
    let p : 10 ^ suc k ≡ 10 * 10 ^ k = omega arith in
    digits_value-append 0 front (n % 10) (cut-AllDigits b k rest (units-AllDigits fuel k q))
      (omega arith)
    ∙ ap (λ x. x * 10 + n % 10) v
    ∙ sym (ap (λ x. n % x) p ∙ mod_ten n (10 ^ k) (ten_pow_pos k))

pub length-units : (fuel n : ℕ) → length (decimal_units fuel n) ≤ fuel
unfolding decimal_units
length-units zero n = omega arith
length-units (suc fuel) n = ground (arith, length-units fuel (n / 10))

length-reversed : (s : List ℕ) → length (reversed s) ≡ length s
length-reversed [] = refl
length-reversed (b ∷ bs) = omega (arith, length-append (reversed bs) (b ∷ []), length-reversed bs)

take_min : (w : ℕ) (s : List ℕ) → take (min (length s) w) s ≡ take w s
take_min zero [] = refl
take_min (suc w) [] = let e : min 0 (suc w) ≡ 0 = omega arith in ap (λ k. take k []) e
take_min zero (b ∷ bs) =
    let e : min (suc (length bs)) 0 ≡ 0 = omega arith in ap (λ k. take k (b ∷ bs)) e
take_min (suc w) (b ∷ bs) =
    let e : min (suc (length bs)) (suc w) ≡ suc (min (length bs) w) = omega arith in
    ap (λ k. take k (b ∷ bs)) e ∙ ap (◌∷◌ b) (take_min w bs)

zeros_value : (m : ℕ) (s : List ℕ) → digits_value 0 (replicate m b'0' ++ s) ≡ digits_value 0 s
unfolding digits_value
zeros_value zero s = refl
zeros_value (suc m) s = zeros_value m s

-- The text has the width as it is adjusted.
pub length-ui64_text :
    (n fill hexadecimal w : ℕ)
    → length (ui64_text n fill hexadecimal w) ≡ full_width w (units hexadecimal n)
unfolding ui64_text
length-ui64_text n fill hexadecimal w =
    let q = units hexadecimal n in
    let v = full_width w q in
    let k = min (length q) v in
    omega (
      arith,
      length-append (replicate (v - k) fill) (reversed (take k q)),
      length-replicate (v - k) fill,
      length-reversed (take k q),
      length-take k q,
    )

exact_width : (n fill w : ℕ) → 0 < w → length (ui64_text n fill 0 w) ≡ w
exact_width n fill w h =
    let e : (w == 0) ≡ false = ground arith in length-ui64_text n fill 0 w ∙ rw e refl

width_value : (n w : ℕ) → n < 2 ^ 64 → 0 < w → digits_value 0 (ui64_text n b'0' 0 w) ≡ n % 10 ^ w
unfolding ui64_text units
width_value n w h pos =
    let q = decimal_units 64 n in
    let k = min (length q) w in
    let e : (w == 0) ≡ false = ground arith in
    rw e (
      zeros_value (w - k) (reversed (take k q))
      ∙ ap (λ s. digits_value 0 (reversed s)) (take_min w q)
      ∙ last_digits 64 w n (omega arith))

plain_value : (n fill : ℕ) → n < 2 ^ 64 → digits_value 0 (ui64_text n fill 0 0) ≡ n
unfolding ui64_text units
plain_value n fill h =
    let q = decimal_units 64 n in
    let none_left : length q - min (length q) (length q) ≡ 0 = omega arith in
    rw none_left (
      ap (λ s. digits_value 0 (reversed s))
        (take_all (min (length q) (length q)) q (omega arith)
          ∙ sym (take_all 64 q (length-units 64 n)))
      ∙ last_digits 64 64 n (omega arith)
      ∙ mod-eq_of_lt (omega arith))

-- A 64-bit number that is printed in decimal reads back as itself, where no width is given. With a
-- width and zeros for the filling the text has exactly that width, and reads back as the number's
-- remainder: a width too small cuts the leading digits off.
pub ui64_text-digits_value :
    (n fill w : ℕ)
    → n < 2 ^ 64
    → 0 < w
    → (digits_value 0 (ui64_text n fill 0 0) ≡ n)
      × (length (ui64_text n b'0' 0 w) ≡ w)
      × (digits_value 0 (ui64_text n b'0' 0 w) ≡ n % 10 ^ w)
ui64_text-digits_value n fill w h pos =
    (plain_value n fill h, exact_width n b'0' w pos, width_value n w h pos)
