-- ===== src/Prelude/Elements.antt =====
-- What holds of every element of a list.
use mathlib.Core.List.{List, [], ◌∷◌, ◌++◌}
use mathlib.Core.Option.{Option, none, some}
use mathlib.Core.Path.{◌≡◌, refl}
use my_nignx.Prelude.Outcome.{All}

abbrev pub Every {ℓ κ} : {A : Type ℓ} → (A → Type κ) → List A → Type κ
Every P [] = Unit
Every P (x ∷ xs) = P x × Every P xs

module _ {ℓ κ} {A : Type ℓ} where
  pub append-Every :
      (P : A → Type κ) (xs ys : List A) → Every P xs → Every P ys → Every P (xs ++ ys)
  append-Every P [] ys h k = k
  append-Every P (x ∷ xs) ys h k = (h.0, append-Every P xs ys h.1 k)

  pub tail-Every : (P : A → Type κ) (xs ys : List A) → Every P (xs ++ ys) → Every P ys
  tail-Every P [] ys h = h
  tail-Every P (x ∷ xs) ys h = tail-Every P xs ys h.1

  pub weaken-Every :
      (P Q : A → Type κ) (xs : List A) → ((a : A) → P a → Q a) → Every P xs → Every Q xs
  weaken-Every P Q [] f h = tt
  weaken-Every P Q (x ∷ xs) f h = (f x h.0, weaken-Every P Q xs f h.1)

  pub weaken-All : (P Q : A → Type κ) (r : Option A) → ((a : A) → P a → Q a) → All P r → All Q r
  weaken-All P Q none f h = tt
  weaken-All P Q (some a) f h = f a h

  pub both-All : (P Q : A → Type κ) (r : Option A) → All P r → All Q r → All (λ a. P a × Q a) r
  both-All P Q none h k = tt
  both-All P Q (some a) h k = (h, k)

  pub equal-All : (P : A → Type κ) (r : Option A) → ((a : A) → r ≡ some a → P a) → All P r
  equal-All P none f = tt
  equal-All P (some a) f = f a refl
