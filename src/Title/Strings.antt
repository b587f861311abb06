-- ===== src/Title/Strings.antt =====
-- The copies of arguments and environment, and the title that replaces them.
use my_nignx.Prelude.{
  ℕ, zero, suc, ◌+◌, ◌-◌, ◌≤◌, ◌<◌, ◌≡◌, ◌≢◌, refl, sym, ap, ◌∙◌, true, false, List, [], ◌∷◌, ◌++◌,
  append-nil, append_assoc, some, arith, Every, length, length-append, length-drop,
  length-replicate, drop, replicate, leb, ◌==◌, take-append_length,
}
use my_nignx.Recv.{overwrite}
use my_nignx.Title.{
  sizes, ended, until_nul, read_string, copy_loop, Copies, init_setproctitle, Area, setproctitle,
}

-- A string holds no null byte.
abbrev pub IsString : List ℕ → Type 0
IsString s = Every (λ b. b ≢ 0) s

pub until_nul-ended : (s rest : List ℕ) → IsString s → until_nul (s ++ (0 ∷ rest)) ≡ s
unfolding until_nul
until_nul-ended [] rest v = refl
until_nul-ended (b ∷ s) rest v =
    let ne : (b == 0) ≡ false = ground (arith, v.0) in rw (ne, until_nul-ended s rest v.1) refl

drop_past : (xs ys : List ℕ) → drop (length xs) (xs ++ ys) ≡ ys
drop_past [] ys = refl
drop_past (x ∷ xs) ys = drop_past xs ys

drop_more : (n : ℕ) (xs ys : List ℕ) → drop (length xs + n) (xs ++ ys) ≡ drop n ys
drop_more n [] ys = ap (λ k. drop k ys) (omega arith)
drop_more n (x ∷ xs) ys =
    let e : suc (length xs) + n ≡ suc (length xs + n) = omega arith in rw e (drop_more n xs ys)

drop_all : (n : ℕ) (xs : List ℕ) → length xs ≤ n → drop n xs ≡ []
drop_all zero [] h = refl
drop_all zero (x ∷ xs) h = absurd (omega arith)
drop_all (suc n) [] h = refl
drop_all (suc n) (x ∷ xs) h = drop_all n xs (omega arith)

drop_zeros : (m n : ℕ) → drop {A = ℕ} m (replicate (m + n) 0) ≡ replicate n 0
drop_zeros zero n = ap (λ k. replicate k 0) (omega arith)
drop_zeros (suc m) n = let e : suc m + n ≡ suc (m + n) = omega arith in rw e (drop_zeros m n)

-- Bytes written over the zeros behind what a block holds already.
pub overwrite_zeros :
    (xs bs : List ℕ) (n : ℕ)
    → overwrite (xs ++ replicate (length bs + n) 0) (length xs) bs
      ≡ some (xs ++ (bs ++ replicate n 0))
overwrite_zeros xs bs n =
    let block = xs ++ replicate (length bs + n) 0 in
    let fits : leb (length xs + length bs) (length block) ≡ true = ground (
      arith,
      length-append xs (replicate (length bs + n) 0),
      length-replicate {A = ℕ} (length bs + n) 0,
    ) in
    rw
      (
        fits,
        take-append_length xs (replicate (length bs + n) 0),
        drop_more (length bs) xs (replicate (length bs + n) 0),
        drop_zeros (length bs) n,
      )
      refl

-- What the loop writes, and where each string begins.
joined : List (List ℕ) → List ℕ
joined [] = []
joined (s ∷ ss) = ended s ++ joined ss

offsets : ℕ → List (List ℕ) → List ℕ
offsets p [] = []
offsets p (s ∷ ss) = p ∷ offsets (p + (length s + 1)) ss

length-ended : (s : List ℕ) → length (ended s) ≡ length s + 1
length-ended s = length-append s (0 ∷ [])

copy_loop-joined :
    (ss : List (List ℕ)) (done : List ℕ)
    → copy_loop ss (length done) (done ++ replicate (sizes ss) 0)
      ≡ some (offsets (length done) ss, done ++ joined ss)
unfolding copy_loop joined offsets
copy_loop-joined [] done = refl
copy_loop-joined (s ∷ ss) done =
    let l : length (done ++ ended s) ≡ length done + (length s + 1) =
      length-append done (ended s) ∙ ap (λ k. length done + k) (length-ended s) in
    let w : overwrite (done ++ replicate (length s + 1 + sizes ss) 0) (length done) (ended s)
        ≡ some ((done ++ ended s) ++ replicate (sizes ss) 0) =
      ap (λ k. overwrite (done ++ replicate (k + sizes ss) 0) (length done) (ended s))
        (sym (length-ended s))
      ∙ overwrite_zeros done (ended s) (sizes ss)
      ∙ ap some (sym (append_assoc done (ended s) (replicate (sizes ss) 0))) in
    let rest = copy_loop-joined ss (done ++ ended s) in
    let rest' : copy_loop ss (length done + (length s + 1))
          ((done ++ ended s) ++ replicate (sizes ss) 0)
        ≡ some (offsets (length done + (length s + 1)) ss, (done ++ ended s) ++ joined ss) =
      rw l at rest in
    rw (w, rest', append_assoc done (ended s) (joined ss)) refl

-- The strings at the pointers are these.
abbrev pub Reads : List ℕ → List ℕ → List (List ℕ) → Type 0
Reads mem [] [] = Unit {0}
Reads mem [] (s ∷ ss) = ⊥
Reads mem (p ∷ ps) [] = ⊥
Reads mem (p ∷ ps) (s ∷ ss) = (read_string mem p ≡ s) × Reads mem ps ss

joined-Reads :
    (ss : List (List ℕ)) (done : List ℕ)
    → Every IsString ss
    → Reads (done ++ joined ss) (offsets (length done) ss) ss
unfolding joined offsets
joined-Reads [] done v = tt
joined-Reads (s ∷ ss) done v =
    let l : length (done ++ ended s) ≡ length done + (length s + 1) =
      length-append done (ended s) ∙ ap (λ k. length done + k) (length-ended s) in
    let rest = joined-Reads ss (done ++ ended s) v.1 in
    let rest' : Reads (done ++ (ended s ++ joined ss)) (offsets (length done + (length s + 1)) ss)
        ss =
      rw (l, append_assoc done (ended s) (joined ss)) at rest in
    (
      ap until_nul (drop_past done (ended s ++ joined ss) ∙ append_assoc s (0 ∷ []) (joined ss))
          ∙ until_nul-ended s (joined ss) v.0,
      rest',
    )

copied-Reads :
    (ss : List (List ℕ))
    → Every IsString ss
    → (ps : List ℕ) × (mem : List ℕ) × (copy_loop ss 0 (replicate (sizes ss) 0) ≡ some (ps, mem))
      × Reads mem ps ss
copied-Reads ss v = (offsets 0 ss, joined ss, copy_loop-joined ss [], joined-Reads ss [] v)

-- A block whose start, or whose whole end, is written over.
overwrite_start :
    (bs block : List ℕ)
    → length bs ≤ length block
    → overwrite block 0 bs ≡ some (bs ++ drop (length bs) block)
overwrite_start bs block fits =
    let z : 0 + length bs ≡ length bs = omega arith in
    let test : leb (length bs) (length block) ≡ true = ground arith in rw (z, test) refl

overwrite_end :
    (xs ys : List ℕ) (n : ℕ)
    → length ys ≡ n
    → overwrite (xs ++ ys) (length xs) (replicate n 0) ≡ some (xs ++ replicate n 0)
overwrite_end xs ys n e =
    let r = length-replicate {A = ℕ} n 0 in
    let test : leb (length xs + n) (length (xs ++ ys)) ≡ true =
      ground (arith, length-append xs ys) in
    let none_left : drop n ys ≡ [] = drop_all n ys (omega (arith, e)) in
    rw
      (
        r,
        test,
        take-append_length xs ys,
        drop_more n xs ys,
        none_left,
        append-nil (replicate {A = ℕ} n 0),
      )
      refl

pub until_nul-zeros : (s : List ℕ) (n : ℕ) → IsString s → 0 < n → until_nul (s ++ replicate n 0) ≡ s
until_nul-zeros s zero v h = absurd (omega arith)
until_nul-zeros s (suc n) v h = until_nul-ended s (replicate n 0) v

-- Moving arguments and environment writes within the two new blocks, of the sizes computed at the
-- start, and afterwards the pointers of `environ` and of `g_argv` lead to the strings that were
-- there before.
pub init_setproctitle-Reads :
    (environ argv : List (List ℕ))
    → Every IsString environ
    → Every IsString argv
    → (c : Copies) × (init_setproctitle environ argv ≡ some c)
      × Reads c.envmem c.environ environ
      × Reads c.argmem c.argv argv
unfolding init_setproctitle
init_setproctitle-Reads environ argv v w =
    let e = copied-Reads environ v in
    let a = copied-Reads argv w in
    (record { environ = e.0; envmem = e.1; argv = a.0; argmem = a.1 }, rw (e.2, a.2) refl, e.3, a.3)

-- A title that is shorter than arguments and environment together replaces them: the block keeps its
-- size, its string is the title, every byte behind the title is 0, and there is one argument.
pub setproctitle-read_string :
    (title : List ℕ) (a : Area)
    → IsString title
    → length title < length a.block
    → (b : Area) × (setproctitle title (length a.block) a ≡ some b)
      × (b.block ≡ title ++ replicate (length a.block - length title) 0)
      × (length b.block ≡ length a.block)
      × (read_string b.block 0 ≡ title)
      × (b.one_argument ≡ true)
unfolding setproctitle
setproctitle-read_string title a v fits =
    let n = length a.block - length title in
    let test : leb (length a.block) (length title) ≡ false = ground arith in
    let w = overwrite_start title a.block (omega arith) in
    let l : length (drop (length title) a.block) ≡ n = length-drop (length title) a.block in
    let z = overwrite_end title (drop (length title) a.block) n l in
    (
      record { block = title ++ replicate n 0; one_argument = true },
      rw (test, w, z) refl,
      refl,
      length-append title (replicate n 0)
          ∙ ap (λ k. length title + k) (length-replicate {A = ℕ} n 0)
          ∙ omega arith,
      until_nul-zeros title n v (omega arith),
      refl,
    )

-- A longer title changes nothing.
pub setproctitle_too_long :
    (title : List ℕ) (a : Area)
    → length a.block ≤ length title
    → setproctitle title (length a.block) a ≡ some a
unfolding setproctitle
setproctitle_too_long title a long =
    let test : leb (length a.block) (length title) ≡ true = ground arith in rw test refl
