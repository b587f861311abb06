-- ===== src/Text/Trim.antt =====
-- Strings through trimming and splitting.
use my_nignx.Prelude.{
  ℕ, zero, suc, ◌≡◌, ◌≢◌, refl, ap, Bool, true, false, List, [], ◌∷◌, ◌++◌, none, some, arith, ◌==◌,
  replicate,
}
use my_nignx.Text.{c_string, before, after, ltrim, is_blank, trim_onto, rtrim_text}

abbrev pub Lacks : ℕ → List ℕ → Type 0
Lacks mark [] = Unit {0}
Lacks mark (b ∷ bs) = (b ≢ mark) × Lacks mark bs

pub Lacks-append : (m : ℕ) (s t : List ℕ) → Lacks m s → Lacks m t → Lacks m (s ++ t)
Lacks-append m [] t hs ht = ht
Lacks-append m (b ∷ bs) t hs ht = (hs.0, Lacks-append m bs t hs.1 ht)

abbrev pub spaces : ℕ → List ℕ
spaces n = replicate n b' '

pub spaces-Lacks : (m n : ℕ) → m ≢ b' ' → Lacks m (spaces n)
spaces-Lacks m zero ne = tt
spaces-Lacks m (suc n) ne = (λ e. omega arith, spaces-Lacks m n ne)

pub c_string_whole : (s : List ℕ) → Lacks 0 s → c_string s ≡ s
c_string_whole [] h = refl
c_string_whole (b ∷ bs) h = ground (arith, c_string_whole bs h.1)

pub before_mark : (m : ℕ) (s t : List ℕ) → Lacks m s → before m (s ++ (m ∷ t)) ≡ s
before_mark m [] t h = ground arith
before_mark m (b ∷ bs) t h = ground (arith, before_mark m bs t h.1)

pub before_none : (m : ℕ) (s : List ℕ) → Lacks m s → before m s ≡ s
before_none m [] h = refl
before_none m (b ∷ bs) h = ground (arith, before_none m bs h.1)

pub after_mark : (m : ℕ) (s t : List ℕ) → Lacks m s → after m (s ++ (m ∷ t)) ≡ some t
after_mark m [] t h = ground arith
after_mark m (b ∷ bs) t h = ground (arith, after_mark m bs t h.1)

pub after_none : (m : ℕ) (s : List ℕ) → Lacks m s → after m s ≡ none
after_none m [] h = refl
after_none m (b ∷ bs) h = ground (arith, after_none m bs h.1)

pub ltrim-spaces : (n : ℕ) (s : List ℕ) → ltrim (spaces n ++ s) ≡ ltrim s
unfolding ltrim
ltrim-spaces zero s = refl
ltrim-spaces (suc n) s = ltrim-spaces n s

abbrev pub starts_with_space : List ℕ → Bool
starts_with_space [] = false
starts_with_space (b ∷ bs) = b == b' '

pub ltrim_same : (s : List ℕ) → starts_with_space s ≡ false → ltrim s ≡ s
unfolding ltrim
ltrim_same [] h = refl
ltrim_same (b ∷ bs) h = rw h refl

abbrev pub ends_blank : List ℕ → Bool
ends_blank [] = false
ends_blank (b ∷ []) = is_blank b
ends_blank (b ∷ c ∷ cs) = ends_blank (c ∷ cs)

pub rtrim_same : (s : List ℕ) → ends_blank s ≡ false → rtrim_text s ≡ s
unfolding rtrim_text
rtrim_same [] h = refl
rtrim_same (b ∷ []) h = rw h refl
rtrim_same (b ∷ c ∷ cs) h = rw (rtrim_same (c ∷ cs) h) refl

abbrev pub AllBlank : List ℕ → Type 0
AllBlank [] = Unit {0}
AllBlank (b ∷ bs) = (is_blank b ≡ true) × AllBlank bs

pub AllBlank-append : (s t : List ℕ) → AllBlank s → AllBlank t → AllBlank (s ++ t)
AllBlank-append [] t hs ht = ht
AllBlank-append (b ∷ bs) t hs ht = (hs.0, AllBlank-append bs t hs.1 ht)

pub spaces-AllBlank : (n : ℕ) → AllBlank (spaces n)
spaces-AllBlank zero = tt
spaces-AllBlank (suc n) = (refl, spaces-AllBlank n)

pub rtrim_blanks : (t : List ℕ) → AllBlank t → rtrim_text t ≡ []
unfolding rtrim_text
rtrim_blanks [] h = refl
rtrim_blanks (b ∷ bs) h = rw (rtrim_blanks bs h.1, h.0) refl

pub rtrim-append_blanks : (s t : List ℕ) → AllBlank t → rtrim_text (s ++ t) ≡ rtrim_text s
unfolding rtrim_text
rtrim-append_blanks [] t h = rtrim_blanks t h
rtrim-append_blanks (b ∷ bs) t h = ap (trim_onto b) (rtrim-append_blanks bs t h)

-- What stands before something that is not trimmed away stays.
pub rtrim-append :
    (s t : List ℕ) (b : ℕ) (bs : List ℕ)
    → rtrim_text t ≡ b ∷ bs
    → rtrim_text (s ++ t) ≡ s ++ (b ∷ bs)
unfolding rtrim_text
rtrim-append [] t b bs h = h
rtrim-append (c ∷ []) t b bs h = ap (trim_onto c) h
rtrim-append (c ∷ d ∷ cs) t b bs h = ap (trim_onto c) (rtrim-append (d ∷ cs) t b bs h)
