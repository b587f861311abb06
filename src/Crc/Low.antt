-- ===== src/Crc/Low.antt =====
-- The low byte of a number under `bit_and` and `bit_xor`.
use Prim.Native.Nat.{bit_and, bit_xor, digits, bitwise, bit_and-bitwise, min}
use my_nignx.Prelude.{ℕ, zero, suc, ◌+◌, ◌*◌, ◌/◌, ◌%◌, ◌<◌, ◌≡◌, refl, ap, sym, ◌∙◌, arith}
use my_nignx.Crc.Xor.{bitwise_law, bit_xor_step, bit_xor_half, bit_xor_last, bit_xor_zero}

-- A mask without ones leaves nothing, whatever the count of digits.
nothing_left : (k a : ℕ) → digits (λ b. 0) min k a 0 ≡ 0
nothing_left zero a = refl
nothing_left (suc k) zero = refl
nothing_left (suc k) (suc a) = omega (arith, nothing_left k (suc a / 2))

-- A mask of `k` ones, the last `k` binary digits, and `k` digits of zero behind a number.
abbrev mask : ℕ → ℕ
mask zero = 0
mask (suc k) = 2 * mask k + 1

abbrev low : ℕ → ℕ → ℕ
low zero v = 0
low (suc k) v = low k (v / 2) * 2 + v % 2

abbrev shift : ℕ → ℕ → ℕ
shift zero h = h
shift (suc k) h = 2 * shift k h

abbrev halves : ℕ → ℕ → ℕ
halves zero v = v
halves (suc k) v = halves k (v / 2)

bit_and-mask : (k v : ℕ) → bit_and v (mask k) ≡ low k v
bit_and-mask zero v = bit_and-bitwise v 0 ∙ nothing_left v v
bit_and-mask (suc k) v =
    let m = 2 * mask k + 1 in
    let shorter : m / 2 ≡ mask k = omega arith in
    let rest : bitwise (λ b. 0) min (v / 2) (m / 2) ≡ low k (v / 2) =
      ap (bitwise (λ b. 0) min (v / 2)) shorter
      ∙ sym (bit_and-bitwise (v / 2) (mask k))
      ∙ bit_and-mask k (v / 2) in
    omega (arith, bit_and-bitwise v m, bitwise_law (λ b. 0) min (λ b. omega arith) v m, rest)

pub bit_and_byte : (v : ℕ) → bit_and v 255 ≡ v % 256
bit_and_byte v = bit_and-mask 8 v ∙ omega arith

halves-bit_xor : (k a b : ℕ) → halves k (bit_xor a b) ≡ bit_xor (halves k a) (halves k b)
halves-bit_xor zero a b = refl
halves-bit_xor (suc k) a b = ap (halves k) (bit_xor_half a b) ∙ halves-bit_xor k (a / 2) (b / 2)

pub bit_xor_high : (a b : ℕ) → b < 256 → bit_xor a b / 256 ≡ a / 256
bit_xor_high a b h =
    let x : bit_xor a b / 256 ≡ halves 8 (bit_xor a b) = omega arith in
    let y : halves 8 a ≡ a / 256 = omega arith in
    let z : halves 8 b ≡ 0 = omega arith in
    x ∙ halves-bit_xor 8 a b ∙ ap (λ v. bit_xor (halves 8 a) v) z ∙ bit_xor_zero (halves 8 a) ∙ y

parts_shift : (k h l : ℕ) → l < shift k 1 → bit_xor (shift k h) l ≡ shift k h + l
parts_shift zero h l lt =
    let z : l ≡ 0 = omega arith in ap (bit_xor h) z ∙ bit_xor_zero h ∙ omega arith
parts_shift (suc k) h l lt =
    let e : 2 * shift k h / 2 ≡ shift k h = omega arith in
    omega (
      arith,
      bit_xor_step (2 * shift k h) l,
      ap (λ x. bit_xor x (l / 2)) e,
      parts_shift k h (l / 2) (omega arith),
    )

-- A number is its high part and its low byte.
pub bit_xor_parts : (v : ℕ) → bit_xor (v / 256 * 256) (v % 256) ≡ v
bit_xor_parts v =
    let e : v / 256 * 256 ≡ shift 8 (v / 256) = omega arith in
    ap (λ x. bit_xor x (v % 256)) e ∙ parts_shift 8 (v / 256) (v % 256) (omega arith) ∙ omega arith

low-bit_xor : (k a b : ℕ) → low k (bit_xor a b) ≡ bit_xor (low k a) (low k b)
low-bit_xor zero a b = refl
low-bit_xor (suc k) a b =
    let x = low k (a / 2) in
    let y = low k (b / 2) in
    let ex : (x * 2 + a % 2) / 2 ≡ x = omega arith in
    let ey : (y * 2 + b % 2) / 2 ≡ y = omega arith in
    omega (
      arith,
      bit_xor_last a b,
      ap (low k) (bit_xor_half a b) ∙ low-bit_xor k (a / 2) (b / 2),
      bit_xor_step (x * 2 + a % 2) (y * 2 + b % 2),
      ap (λ v. bit_xor v ((y * 2 + b % 2) / 2)) ex ∙ ap (bit_xor x) ey,
    )

pub bit_xor_low : (a b : ℕ) → bit_xor a b % 256 ≡ bit_xor (a % 256) (b % 256)
bit_xor_low a b =
    let e : bit_xor a b % 256 ≡ low 8 (bit_xor a b) = omega arith in
    let x : low 8 a ≡ a % 256 = omega arith in
    let y : low 8 b ≡ b % 256 = omega arith in
    e ∙ low-bit_xor 8 a b ∙ ap (λ v. bit_xor v (low 8 b)) x ∙ ap (bit_xor (a % 256)) y
