-- ===== src/Crc/Xor.antt =====
-- Laws of `bit_xor`, from its digits.
use Prim.Native.Nat.{bit_xor, digits, bitwise, bit_xor-bitwise, differ}
use my_nignx.Prelude.{ℕ, zero, suc, ◌+◌, ◌*◌, ◌/◌, ◌%◌, ◌≤◌, ◌<◌, ◌≡◌, refl, ap, ◌∙◌, sym, arith}

differ_bits : (x y : ℕ) → x < 2 → y < 2 → differ x y ≡ (x + y) % 2
differ_bits zero y hx hy = omega arith
differ_bits (suc zero) zero hx hy = refl
differ_bits (suc zero) (suc zero) hx hy = refl
differ_bits (suc zero) (suc (suc y)) hx hy = absurd (omega arith)
differ_bits (suc (suc x)) y hx hy = absurd (omega arith)

module _ (z : ℕ → ℕ) (f : ℕ → ℕ → ℕ) where
  -- The recursion behind a bitwise operation: two counts of digits that both are enough.
  enough_digits : (a b k l : ℕ) → a ≤ k → a ≤ l → digits z f k a b ≡ digits z f l a b
  enough_digits zero b k l hk hl = run_out k b ∙ sym (run_out l b)
    where
      run_out : (k b : ℕ) → digits z f k zero b ≡ z b
      run_out zero b = refl
      run_out (suc k) b = refl
  enough_digits (suc a) b zero l hk hl = absurd (omega arith)
  enough_digits (suc a) b (suc k) zero hk hl = absurd (omega arith)
  enough_digits (suc a) b (suc k) (suc l) hk hl =
      let rest = enough_digits (suc a / 2) (b / 2) k l (omega arith) (omega arith) in
      ap (λ front. front * 2 + f (suc a % 2) (b % 2)) rest

  -- Where the rest of the second number has the same form, an operation is its last digit behind what
  -- it makes of the halves.
  pub bitwise_law :
      ((b : ℕ) → z b ≡ z (b / 2) * 2 + f 0 (b % 2))
      → (a b : ℕ) → bitwise z f a b ≡ bitwise z f (a / 2) (b / 2) * 2 + f (a % 2) (b % 2)
  bitwise_law h zero b = h b
  bitwise_law h (suc a) b =
      let half = suc a / 2 in
      ap (λ front. front * 2 + f (suc a % 2) (b % 2))
        (enough_digits half (b / 2) a half (omega arith) (omega arith))

pub zero-bit_xor : (b : ℕ) → bit_xor 0 b ≡ b
zero-bit_xor b = bit_xor-bitwise 0 b

-- The last digit, and the digits before it.
pub bit_xor_step : (a b : ℕ) → bit_xor a b ≡ bit_xor (a / 2) (b / 2) * 2 + (a + b) % 2
bit_xor_step a b =
    let law = bitwise_law (λ b. b) differ (λ b. omega arith) a b in
    let last : differ (a % 2) (b % 2) ≡ (a % 2 + b % 2) % 2 =
      differ_bits (a % 2) (b % 2) (omega arith) (omega arith) in
    omega (arith, bit_xor-bitwise a b, bit_xor-bitwise (a / 2) (b / 2), law, last)

pub bit_xor_half : (a b : ℕ) → bit_xor a b / 2 ≡ bit_xor (a / 2) (b / 2)
bit_xor_half a b = omega (arith, bit_xor_step a b)

pub bit_xor_last : (a b : ℕ) → bit_xor a b % 2 ≡ (a + b) % 2
bit_xor_last a b = omega (arith, bit_xor_step a b)

-- Two numbers with the same half and the same last digit are the same.
same_number : (a b : ℕ) → a / 2 ≡ b / 2 → a % 2 ≡ b % 2 → a ≡ b
same_number a b h l = omega arith

-- Below `n`, to have the halves smaller.
comm_below : (n a b : ℕ) → a + b ≤ n → bit_xor a b ≡ bit_xor b a
comm_below zero a b h = let x : a ≡ 0 = omega arith in let y : b ≡ 0 = omega arith in rw (x, y) refl
comm_below (suc n) zero zero h = refl
comm_below (suc n) zero (suc b) h = omega (
  arith,
  bit_xor_step 0 (suc b),
  bit_xor_step (suc b) 0,
  comm_below n 0 (suc b / 2) (omega arith),
)
comm_below (suc n) (suc a) b h = omega (
  arith,
  bit_xor_step (suc a) b,
  bit_xor_step b (suc a),
  comm_below n (suc a / 2) (b / 2) (omega arith),
)

pub bit_xor_comm : (a b : ℕ) → bit_xor a b ≡ bit_xor b a
bit_xor_comm a b = comm_below (a + b) a b (omega arith)

assoc_below : (n a b c : ℕ) → a + b + c ≤ n → bit_xor (bit_xor a b) c ≡ bit_xor a (bit_xor b c)
assoc_below zero a b c h =
    let x : a ≡ 0 = omega arith in
    let y : b ≡ 0 = omega arith in let z : c ≡ 0 = omega arith in rw (x, y, z) refl
assoc_below (suc n) a b c h =
    let half : bit_xor (bit_xor a b) c / 2 ≡ bit_xor a (bit_xor b c) / 2 =
      bit_xor_half (bit_xor a b) c
      ∙ ap (λ x. bit_xor x (c / 2)) (bit_xor_half a b)
      ∙ assoc_below n (a / 2) (b / 2) (c / 2) (omega arith)
      ∙ sym (bit_xor_half a (bit_xor b c) ∙ ap (bit_xor (a / 2)) (bit_xor_half b c)) in
    let last : bit_xor (bit_xor a b) c % 2 ≡ bit_xor a (bit_xor b c) % 2 = omega (
      arith,
      bit_xor_last (bit_xor a b) c,
      bit_xor_last a b,
      bit_xor_last a (bit_xor b c),
      bit_xor_last b c,
    ) in
    same_number (bit_xor (bit_xor a b) c) (bit_xor a (bit_xor b c)) half last

pub bit_xor_assoc : (a b c : ℕ) → bit_xor (bit_xor a b) c ≡ bit_xor a (bit_xor b c)
bit_xor_assoc a b c = assoc_below (a + b + c) a b c (omega arith)

pub bit_xor_swap :
    (a b c d : ℕ) → bit_xor (bit_xor a b) (bit_xor c d) ≡ bit_xor (bit_xor a c) (bit_xor b d)
bit_xor_swap a b c d =
    bit_xor_assoc a b (bit_xor c d)
    ∙ ap (bit_xor a)
        (sym (bit_xor_assoc b c d) ∙ ap (λ x. bit_xor x d) (bit_xor_comm b c) ∙ bit_xor_assoc c b d)
    ∙ sym (bit_xor_assoc a c (bit_xor b d))

pub bit_xor_zero : (a : ℕ) → bit_xor a 0 ≡ a
bit_xor_zero a = bit_xor_comm a 0 ∙ zero-bit_xor a
