-- ===== src/Fmt/Tests.antt =====
-- Numbers as `fmt_string` prints them.
use my_nignx.Prelude.{◌≡◌, ◌%◌, ◌^◌, refl, arith, length, codes, []}
use my_nignx.Conf.{digits_value}
use my_nignx.Fmt.{ui64_text, units, decimal_units, hex_units}
use my_nignx.Fmt.Digits.{ui64_text-digits_value}

padded : ui64_text 7 b' ' 0 3 ≡ codes "  7"
unfolding ui64_text units decimal_units
padded = refl

cut_off : ui64_text 12345 b'0' 0 3 ≡ codes "345"
unfolding ui64_text units decimal_units
cut_off = refl

-- Zero prints nothing in base 16.
hex_zero : ui64_text 0 b' ' 1 0 ≡ []
unfolding ui64_text units hex_units
hex_zero = refl

hex_upper : ui64_text 0xBEEF b'0' 2 6 ≡ codes "00BEEF"
unfolding ui64_text units hex_units
hex_upper = refl

ui64_text-digits_value_example :
    (digits_value 0 (ui64_text 12345 b' ' 0 0) ≡ 12345)
    × (length (ui64_text 12345 b'0' 0 3) ≡ 3)
    × (digits_value 0 (ui64_text 12345 b'0' 0 3) ≡ 12345 % 10 ^ 3)
ui64_text-digits_value_example = ui64_text-digits_value 12345 b' ' 3 (omega arith) (omega arith)
