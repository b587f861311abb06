-- ===== src/Crc/Bitwise.antt =====
-- The checksum of misc/c_crc32.cxx against its definition bit by bit.
use Prim.Native.Nat.{bit_and, bit_xor}
use my_nignx.Prelude.{
  ℕ, zero, suc, ◌+◌, ◌*◌, ◌/◌, ◌%◌, ◌<◌, ◌≡◌, refl, ap, ◌∙◌, sym, arith, List, [], ◌∷◌, get_or,
  ◌==◌, if◌then◌else◌,
}
use my_nignx.Crc.{iterate, init_crc32_table, crc_loop, get_crc}
use my_nignx.Crc.Xor.{bit_xor_half, bit_xor_last, bit_xor_zero, bit_xor_swap}
use my_nignx.Crc.Low.{bit_and_byte, bit_xor_high, bit_xor_low, bit_xor_parts}
use my_nignx.Crc.Table.{bit_step, init_crc32_table-bit_step}

-- What a step adds for the digit that it drops.
abbrev added : ℕ → ℕ
added d = if d == 1 then 0xedb88320 else 0

added_sum : (x y : ℕ) → x < 2 → y < 2 → added ((x + y) % 2) ≡ bit_xor (added x) (added y)
added_sum zero zero hx hy = refl
added_sum zero (suc zero) hx hy = refl
added_sum (suc zero) zero hx hy = refl
added_sum (suc zero) (suc zero) hx hy = refl
added_sum zero (suc (suc y)) hx hy = absurd (omega arith)
added_sum (suc zero) (suc (suc y)) hx hy = absurd (omega arith)
added_sum (suc (suc x)) y hx hy = absurd (omega arith)

bit_step-bit_xor : (a b : ℕ) → bit_step (bit_xor a b) ≡ bit_xor (bit_step a) (bit_step b)
bit_step-bit_xor a b =
    let digit : bit_xor a b % 2 ≡ (a % 2 + b % 2) % 2 = omega (arith, bit_xor_last a b) in
    ap (λ x. bit_xor x (added (bit_xor a b % 2))) (bit_xor_half a b)
    ∙ ap (λ d. bit_xor (bit_xor (a / 2) (b / 2)) (added d)) digit
    ∙ ap (bit_xor (bit_xor (a / 2) (b / 2))) (added_sum (a % 2) (b % 2) (omega arith) (omega arith))
    ∙ bit_xor_swap (a / 2) (b / 2) (added (a % 2)) (added (b % 2))

steps-bit_xor :
    (k a b : ℕ)
    → iterate k bit_step (bit_xor a b) ≡ bit_xor (iterate k bit_step a) (iterate k bit_step b)
steps-bit_xor zero a b = refl
steps-bit_xor (suc k) a b =
    ap (iterate k bit_step) (bit_step-bit_xor a b) ∙ steps-bit_xor k (bit_step a) (bit_step b)

-- Zeros behind a number are only shifted out.
bit_step_even : (x : ℕ) → bit_step (2 * x) ≡ x
bit_step_even x =
    let half : 2 * x / 2 ≡ x = omega arith in
    let even : 2 * x % 2 ≡ 0 = omega arith in
    ap (λ d. bit_xor (2 * x / 2) (added d)) even ∙ bit_xor_zero (2 * x / 2) ∙ half

abbrev shifted : ℕ → ℕ → ℕ
shifted zero h = h
shifted (suc k) h = 2 * shifted k h

steps_shifted : (k h : ℕ) → iterate k bit_step (shifted k h) ≡ h
steps_shifted zero h = refl
steps_shifted (suc k) h = ap (iterate k bit_step) (bit_step_even (shifted k h)) ∙ steps_shifted k h

-- Eight steps on any number: its high part, and the entry of the table for its low byte.
eight_steps :
    (v : ℕ) → iterate 8 bit_step v ≡ bit_xor (v / 256) (get_or init_crc32_table (v % 256) 0)
eight_steps v =
    let high : v / 256 * 256 ≡ shifted 8 (v / 256) = omega arith in
    ap (iterate 8 bit_step) (sym (bit_xor_parts v))
    ∙ steps-bit_xor 8 (v / 256 * 256) (v % 256)
    ∙ ap (λ x. bit_xor x (iterate 8 bit_step (v % 256)))
        (ap (iterate 8 bit_step) high ∙ steps_shifted 8 (v / 256))
    ∙ ap (bit_xor (v / 256)) (sym (init_crc32_table-bit_step (v % 256) (omega arith)))

one_byte :
    (crc b : ℕ)
    → b < 256
    → bit_xor (crc / 256) (get_or init_crc32_table (bit_xor (bit_and crc 255) b) 0)
      ≡ iterate 8 bit_step (bit_xor crc b)
one_byte crc b h =
    let whole : b ≡ b % 256 = omega arith in
    let index : bit_xor (bit_and crc 255) b ≡ bit_xor crc b % 256 =
      ap (λ x. bit_xor x b) (bit_and_byte crc)
      ∙ ap (bit_xor (crc % 256)) whole
      ∙ sym (bit_xor_low crc b) in
    ap (λ i. bit_xor (crc / 256) (get_or init_crc32_table i 0)) index
    ∙ ap (λ x. bit_xor x (get_or init_crc32_table (bit_xor crc b % 256) 0))
        (sym (bit_xor_high crc b h))
    ∙ sym (eight_steps (bit_xor crc b))

-- The checksum of a message, bit by bit: no table.
abbrev pub crc_bits : ℕ → List ℕ → ℕ
crc_bits crc [] = crc
crc_bits crc (b ∷ bs) = crc_bits (iterate 8 bit_step (bit_xor crc b)) bs

abbrev pub AllBytes : List ℕ → Type 0
AllBytes [] = Unit {0}
AllBytes (b ∷ bs) = (b < 256) × AllBytes bs

loop_bits : (crc : ℕ) (bs : List ℕ) → AllBytes bs → crc_loop crc bs ≡ crc_bits crc bs
unfolding crc_loop
loop_bits crc [] h = refl
loop_bits crc (b ∷ bs) h =
    ap (λ c. crc_loop c bs) (one_byte crc b h.0)
    ∙ loop_bits (iterate 8 bit_step (bit_xor crc b)) bs h.1

-- For every message of bytes the checksum that the code makes with its table is the standard CRC-32,
-- bit by bit: a register of 32 bits that starts with ones, takes each byte in at its low end, is
-- shifted eight times with the mirrored polynomial 0xedb88320, and is inverted at the end.
pub get_crc-crc_bits :
    (buffer : List ℕ)
    → AllBytes buffer
    → get_crc buffer ≡ bit_xor (crc_bits 0xffffffff buffer) 0xffffffff
unfolding get_crc
get_crc-crc_bits buffer h = ap (λ c. bit_xor c 0xffffffff) (loop_bits 0xffffffff buffer h)
