-- ===== src/Title/Master.antt =====
-- The title that the master process composes in `master_process_cycle`.
use my_nignx.Prelude.{
  ℕ, zero, suc, ◌+◌, ◌-◌, ◌≤◌, ◌<◌, ◌≡◌, refl, sym, ap, ◌∙◌, true, false, List, [], ◌∷◌, ◌++◌,
  append_assoc, append-nil, none, some, arith, Every, append-Every, length, length-append,
  length-replicate, replicate, ltb, leb, if◌then◌else◌, Bool-cases, inl, inr, codes,
}
use my_nignx.Recv.{overwrite}
use my_nignx.Title.{sizes, ended, strcat, strcat_all, master_process_title, master_title}
use my_nignx.Title.Strings.{IsString, until_nul-zeros, overwrite_zeros}

-- A block of `k` zeros behind a text.
abbrev zeros_after : List ℕ → ℕ → List ℕ
zeros_after t k = t ++ replicate k 0

ended-zeros : (s : List ℕ) (k : ℕ) → ended s ++ replicate k 0 ≡ s ++ replicate (suc k) 0
ended-zeros s k = append_assoc s (0 ∷ []) (replicate k 0)

strcat_fits :
    (t s : List ℕ) (k : ℕ)
    → IsString t
    → length s < k
    → strcat (zeros_after t k) s ≡ some (zeros_after (t ++ s) (k - length s))
unfolding strcat
strcat_fits t s k v fits =
    let m = k - length s - 1 in
    let whole : length (ended s) + m ≡ k = omega (arith, length-append s (0 ∷ [])) in
    let left : suc m ≡ k - length s = omega arith in
    let u = until_nul-zeros t k v (omega arith) in
    let w = overwrite_zeros t (ended s) m in
    let w' : overwrite (zeros_after t k) (length t) (ended s)
        ≡ some (t ++ (ended s ++ replicate m 0)) =
      rw whole at w in
    let e : t ++ (ended s ++ replicate m 0) ≡ zeros_after (t ++ s) (k - length s) =
      ap (λ l. t ++ l) (ended-zeros s m ∙ ap (λ j. s ++ replicate j 0) left)
      ∙ sym (append_assoc t s (replicate (k - length s) 0)) in
    rw u (w' ∙ ap some e)

strcat_overflows :
    (t s : List ℕ) (k : ℕ) → IsString t → 0 < k → k ≤ length s → strcat (zeros_after t k) s ≡ none
unfolding strcat
strcat_overflows t s k v some_left long =
    let u = until_nul-zeros t k v some_left in
    let test : leb (length t + length (ended s)) (length (zeros_after t k)) ≡ false = ground (
      arith,
      length-append t (replicate k 0),
      length-replicate {A = ℕ} k 0,
      length-append s (0 ∷ []),
    ) in
    rw (u, test) refl

abbrev pub concat : List (List ℕ) → List ℕ
concat [] = []
concat (s ∷ ss) = s ++ concat ss

strcat_all_lem :
    (ss : List (List ℕ)) (t : List ℕ) (k : ℕ)
    → IsString t
    → Every IsString ss
    → 0 < k
    → strcat_all ss (zeros_after t k) ≡ (
        if ltb (length (concat ss)) k
        then some (zeros_after (t ++ concat ss) (k - length (concat ss)))
        else none)
unfolding strcat_all
strcat_all_lem [] t k v w some_left =
    let test : ltb 0 k ≡ true = ground arith in
    let all : k - 0 ≡ k = omega arith in rw (test, append-nil t, all) refl
strcat_all_lem (s ∷ ss) t k v w some_left = elim (Bool-cases (ltb (length s) k)) [
  | inl fits ↦
      let h : length s < k = ground arith in
      let rest =
        strcat_all_lem ss (t ++ s) (k - length s) (append-Every _ t s v w.0) w.1 (omega arith) in
      let same : ltb (length (concat ss)) (k - length s) ≡ ltb (length (s ++ concat ss)) k =
        ground (arith, length-append s (concat ss)) in
      let less : k - length s - length (concat ss) ≡ k - length (s ++ concat ss) =
        omega (arith, length-append s (concat ss)) in
      rw (strcat_fits t s k v h, rest, same, less, append_assoc t s (concat ss)) refl
  | inr long ↦
      let h : k ≤ length s = ground arith in
      let test : ltb (length (s ++ concat ss)) k ≡ false =
        ground (arith, length-append s (concat ss)) in
      rw (strcat_overflows t s k v some_left h, test) refl
]

-- The title: "master process", a space, and the arguments with nothing between them.
abbrev pub title_of : List (List ℕ) → List ℕ
title_of argv = codes "master process " ++ concat argv

no_zero : IsString master_process_title
no_zero = ground arith

-- Onto an empty array, `strcpy` does what `strcat` does.
strcpy-strcat :
    (k : ℕ) (s : List ℕ) → 0 < k → overwrite (replicate k 0) 0 (ended s) ≡ strcat (replicate k 0) s
unfolding strcat
strcpy-strcat k s h = rw (until_nul-zeros [] k tt h) refl

blank : IsString (codes " ")
blank = ground arith

title-strcat_all :
    (size : ℕ) (argv : List (List ℕ))
    → 0 < size
    → master_title size argv
      ≡ strcat_all (master_process_title ∷ codes " " ∷ argv) (replicate size 0)
unfolding master_title strcat_all
title-strcat_all size argv h = rw (strcpy-strcat size master_process_title h) refl

no_room : (argv : List (List ℕ)) → master_title 0 argv ≡ none
unfolding master_title
no_room argv = refl

-- For an array of any size and arguments that are strings: if the title and its end fit, the array
-- holds "master process", a space, the arguments one behind the other, and zeros; if not, the
-- composition writes past the array.
pub master_title-title_of :
    (size : ℕ) (argv : List (List ℕ))
    → Every IsString argv
    → master_title size argv ≡ (
        if ltb (length (title_of argv)) size
        then some (title_of argv ++ replicate (size - length (title_of argv)) 0)
        else none)
master_title-title_of zero argv v =
    let test : ltb (length (title_of argv)) 0 ≡ false = ground arith in rw test (no_room argv)
master_title-title_of (suc n) argv v =
    title-strcat_all (suc n) argv (omega arith)
    ∙ strcat_all_lem (master_process_title ∷ codes " " ∷ argv) [] (suc n) tt (no_zero, (blank, v))
        (omega arith)

pub length-concat : (argv : List (List ℕ)) → length (concat argv) + length argv ≡ sizes argv
length-concat [] = refl
length-concat (s ∷ ss) = omega (arith, length-concat ss, length-append s (concat ss))

-- With the size that the code gives the array, the title fits if the arguments, counted, and the bytes
-- of the environment are sixteen together or more.
pub master_title-fits :
    (environ argv : List (List ℕ))
    → Every IsString argv
    → 16 ≤ length argv + sizes environ
    → let size = sizes argv + sizes environ in
      master_title size argv ≡ some (title_of argv ++ replicate (size - length (title_of argv)) 0)
master_title-fits environ argv v enough =
    let size = sizes argv + sizes environ in
    let test : ltb (length (title_of argv)) size ≡ true = ground (arith, length-concat argv) in
    master_title-title_of size argv v ∙ rw test refl
