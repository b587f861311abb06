-- ===== src/Prelude/Outcome.antt =====
-- Results that may be missing: chains of them, and what holds of each.
use mathlib.Core.Path.{◌≡◌, refl}
use mathlib.Core.Option.{Option, none, some}

infixl 5 ◌>>=◌
abbrev pub ◌>>=◌ {ℓ κ} : {A : Type ℓ} {B : Type κ} → Option A → (A → Option B) → Option B
none >>= f = none
some a >>= f = f a

-- What holds of a result, if there is one.
abbrev pub All {ℓ κ} : {A : Type ℓ} → (A → Type κ) → Option A → Type κ
All P none = Unit
All P (some a) = P a

pub bind-All {ℓ κ} :
    {A : Type ℓ} {B : Type ℓ} (P : A → Type κ) (Q : B → Type κ) (r : Option A) (f : A → Option B)
    → All P r
    → ((a : A) → P a → All Q (f a))
    → All Q (r >>= f)
bind-All P Q none f h k = tt
bind-All P Q (some a) f h k = k a h

-- The same, for the result that the first part has.
pub bind_equal-All {ℓ κ} :
    {A : Type ℓ} {B : Type ℓ} (Q : B → Type κ) (r : Option A) (f : A → Option B)
    → ((a : A) → r ≡ some a → All Q (f a))
    → All Q (r >>= f)
bind_equal-All Q none f k = tt
bind_equal-All Q (some a) f k = k a refl
