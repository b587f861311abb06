-- ===== src/Crc/Tests.antt =====
-- The standard check value of the checksum.
use Prim.Native.Nat.{bit_xor}
use my_nignx.Prelude.{◌≡◌, refl, arith, List, ℕ, codes}
use my_nignx.Crc.{get_crc}
use my_nignx.Crc.Bitwise.{crc_bits, get_crc-crc_bits}

abbrev nine_digits : List ℕ
nine_digits = codes "123456789"

digits_right : get_crc nine_digits ≡ 0xcbf43926
unfolding get_crc
digits_right = refl

get_crc-crc_bits_example :
    get_crc nine_digits ≡ bit_xor (crc_bits 0xffffffff nine_digits) 0xffffffff
get_crc-crc_bits_example = get_crc-crc_bits nine_digits (ground arith)
