-- ===== src/Prelude/Count.antt =====
-- How often a number stands in a list, and a function changed at one argument.
use Prim.Native.Nat.{ℕ, zero, suc, ◌+◌, ◌<◌}
use mathlib.Core.Path.{◌≡◌, refl}
use mathlib.Core.Bool.{Bool, true, false, ◌||◌}
use mathlib.Core.List.{List, [], ◌∷◌, ◌++◌}
use native.Mathlib.Omega.{arith}
use my_nignx.Prelude.Tests.{◌==◌, if◌then◌else◌}

abbrev pub count : ℕ → List ℕ → ℕ
count c [] = 0
count c (x ∷ xs) = (if x == c then 1 else 0) + count c xs

pub count-append : (c : ℕ) (xs ys : List ℕ) → count c (xs ++ ys) ≡ count c xs + count c ys
count-append c [] ys = omega arith
count-append c (x ∷ xs) ys = omega (arith, count-append c xs ys)

abbrev pub contains : ℕ → List ℕ → Bool
contains c [] = false
contains c (x ∷ xs) = x == c || contains c xs

pub contains-count : (c : ℕ) (xs : List ℕ) → contains c xs ≡ false → count c xs ≡ 0
contains-count c [] h = refl
contains-count c (x ∷ xs) h = ground (arith, contains-count c xs)

pub count-contains : (c : ℕ) (xs : List ℕ) → contains c xs ≡ true → 0 < count c xs
count-contains c [] h = absurd (ground arith)
count-contains c (x ∷ xs) h = ground (arith, count-contains c xs)

abbrev pub update {ℓ} : {A : Type ℓ} → (ℕ → A) → ℕ → A → ℕ → A
update f p v q = if p == q then v else f q

-- `--x` on a `size_t`.
abbrev pub size_decr : ℕ → ℕ
size_decr zero = 18446744073709551615
size_decr (suc n) = n
