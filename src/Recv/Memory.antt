-- ===== src/Recv/Memory.antt =====
-- The memory that a packet under way is read into.
use my_nignx.Prelude.{
  ℕ, zero, suc, ◌+◌, ◌-◌, ◌≤◌, ◌≡◌, ap, ◌∙◌, List, [], ◌∷◌, ◌++◌, append_assoc, some, arith, length,
  length-append, length-replicate, replicate, take, drop, take-append_le, take_all,
}
use my_nignx.Recv.{overwrite}

-- Memory that holds some bytes and zeros up to its size.
abbrev pub padded : ℕ → List ℕ → List ℕ
padded n x = x ++ replicate (n - length x) 0

drop-append_length : (x y : List ℕ) (k : ℕ) → drop (length x + k) (x ++ y) ≡ drop k y
drop-append_length [] y k = ap (λ n. drop n y) (omega arith)
drop-append_length (a ∷ x) y k =
    let e : suc (length x) + k ≡ suc (length x + k) = omega arith in
    ap (λ n. drop n (a ∷ x ++ y)) e ∙ drop-append_length x y k

pub take-append_exact : (x y : List ℕ) → take (length x) (x ++ y) ≡ x
take-append_exact x y =
    take-append_le (length x) x y (omega arith) ∙ take_all (length x) x (omega arith)

pub replicate_eq : (m n : ℕ) → m ≡ n → replicate {A = ℕ} m 0 ≡ replicate n 0
replicate_eq m n e = ap (λ k. replicate k 0) e

drop-replicate : (k n : ℕ) → drop k (replicate {A = ℕ} n 0) ≡ replicate (n - k) 0
drop-replicate zero n = replicate_eq n (n - zero) (omega arith)
drop-replicate (suc k) zero = replicate_eq zero (zero - suc k) (omega arith)
drop-replicate (suc k) (suc n) =
    drop-replicate k n ∙ replicate_eq (n - k) (suc n - suc k) (omega arith)

-- Writing at the end of the bytes held adds to them.
pub overwrite-padded :
    (n : ℕ) (x bs : List ℕ)
    → length x + length bs ≤ n
    → overwrite (padded n x) (length x) bs ≡ some (padded n (x ++ bs))
overwrite-padded n x bs h = ground (
  arith,
  length-append x bs,
  length-append x (replicate (n - length x) 0),
  length-replicate {A = ℕ} (n - length x) 0,
  take-append_exact x (replicate (n - length x) 0),
  drop-append_length x (replicate (n - length x) 0) (length bs),
  drop-replicate (length bs) (n - length x),
  append_assoc x bs (replicate (n - length x - length bs) 0),
)
