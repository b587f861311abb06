-- ===== src/Crc.antt =====
-- The checksum of misc/c_crc32.cxx, on `unsigned int` of 32 bits.
pub mod Xor
pub mod Low
pub mod Table
pub mod Bitwise
mod Tests
use Prim.Native.Nat.{bit_and, bit_or, bit_xor, ◌/◌}
use my_nignx.Prelude.{ℕ, zero, suc, ◌+◌, ◌*◌, ◌%◌, ◌^◌, List, [], ◌∷◌, ◌==◌, if◌then◌else◌, get_or}

-- The loop of `Reflect`; the argument is `ch - i + 1`.
abbrev reflect_loop : ℕ → ℕ → ℕ → ℕ
reflect_loop zero ref value = value
reflect_loop (suc n) ref value =
    reflect_loop n (ref / 2) (if ref % 2 == 1 then bit_or value (2 ^ n) else value)

abbrev reflect : ℕ → ℕ → ℕ
reflect ref ch = reflect_loop ch ref 0

abbrev pub polynomial : ℕ
polynomial = 0x04c11db7

-- One step of the inner loop of `Init_CRC32_Table`.
abbrev table_step : ℕ → ℕ
table_step v = bit_xor (v * 2 % 2 ^ 32) (if bit_and v (2 ^ 31) == 0 then 0 else polynomial)

abbrev pub iterate : ℕ → (ℕ → ℕ) → ℕ → ℕ
iterate zero f v = v
iterate (suc n) f v = iterate n f (f v)

unfoldable pub table_entry : ℕ → ℕ
table_entry i = reflect (iterate 8 table_step (reflect i 8 * 2 ^ 24 % 2 ^ 32)) 32

-- The entries from `i` on, `n` of them.
abbrev entries : ℕ → ℕ → List ℕ
entries i zero = []
entries i (suc n) = table_entry i ∷ entries (suc i) n

unfoldable pub init_crc32_table : List ℕ
unfolding table_entry
init_crc32_table = entries 0 256

unfoldable pub crc_loop : ℕ → List ℕ → ℕ
unfolding init_crc32_table
crc_loop crc [] = crc
crc_loop crc (b ∷ bs) =
    crc_loop (bit_xor (crc / 256) (get_or init_crc32_table (bit_xor (bit_and crc 255) b) 0)) bs

unfoldable pub get_crc : List ℕ → ℕ
unfolding crc_loop
get_crc buffer = bit_xor (crc_loop 0xffffffff buffer) 0xffffffff
