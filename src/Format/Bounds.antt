-- ===== src/Format/Bounds.antt =====
-- Formatting stores nothing in front of the buffer and nothing past its end.
use my_nignx.Prelude.{
  All, ℕ, suc, ◌+◌, ◌^◌, ◌<◌, ◌≤◌, ◌≡◌, ◌⊎◌, inl, inr, refl, ap, ◌∙◌, List, [], ◌∷◌, Option, none,
  some, arith, length, update, ltb, Bool-cases, ℤ, pos, negsuc,
}
use my_nignx.Fmt.{Memory, store, Buf, ui64_string, ui64_text, full_width, units}
use my_nignx.Fmt.Digits.{length-ui64_text}
use my_nignx.Format.{
  Spec, Arg, int_arg, uint_arg, string_arg, double_arg, print_signed, print_number, print_pid,
  print_text, put_byte,
}

-- The pointer is at `p` or further on, unless it is null, and no byte outside of `p` to `last` differs.
pub record Within (p last : ℕ) (before after : Memory) (at : Option ℕ) : Type 0 where
  pub forward : All (λ q. p ≤ q) at
  pub same : (a : ℕ) → (a < p) ⊎ (last ≤ a) → after a ≡ before a

store-same :
    (p : ℕ) (t : List ℕ) (mem : Memory) (a : ℕ)
    → (a < p) ⊎ (p + length t ≤ a)
    → store p t mem a ≡ mem a
store-same p [] mem a h = refl
store-same p (b ∷ bs) mem a h =
    store-same (p + 1) bs (update mem p b) a (ground arith) ∙ ground arith

outside_too : (p q last a : ℕ) → q ≤ last → (a < p) ⊎ (last ≤ a) → (a < p) ⊎ (q ≤ a)
outside_too p q last a h (inl low) = inl low
outside_too p q last a h (inr high) = inr (omega arith)

-- A text stored from `p` on, if the pointer behind it is in the buffer.
stored-Within :
    (p last q : ℕ) (t : List ℕ) (mem : Memory)
    → p + length t ≡ q
    → q ≤ last
    → Within p last mem (store p t mem) (some q)
stored-Within p last q t mem e h = record {
  forward = omega arith;
  same = λ a out. store-same p t mem a (outside_too p (p + length t) last a (omega arith) out);
}

null-Within : (p last : ℕ) (mem : Memory) → Within p last mem mem none
null-Within p last mem = record { forward = tt; same = λ a out. refl }

abbrev pub BufWithin : ℕ → ℕ → Memory → Buf → Type 0
BufWithin p last mem b = Within p last mem b.mem b.at

ui64_string-Within :
    (p last : ℕ) (mem : Memory) (n fill hex w : ℕ)
    → All (BufWithin p last mem) (ui64_string p last mem n fill hex w)
unfolding ui64_string
ui64_string-Within p last mem n fill hex w =
    let t = ui64_text n fill hex w in
    let v = full_width w (units hex n) in
    let long : p + length t ≡ p + v = ap (λ k. p + k) (length-ui64_text n fill hex w) in
    elim (Bool-cases (ltb (2 ^ 64) (p + v))) [
      | inl wraps ↦ rw wraps tt
      | inr stays ↦ elim (Bool-cases (ltb (p + v) (last + 1))) [
        | inl fits ↦ rw (stays, fits) (stored-Within p last (p + v) t mem long (ground arith))
        | inr full ↦ rw (stays, full) (null-Within p last mem)
      ]
    ]

-- A byte first, then what follows.
after_byte-Within :
    (p last b : ℕ) (mem mem' : Memory) (at : Option ℕ)
    → p < last
    → Within (p + 1) last (update mem p b) mem' at
    → Within p last mem mem' at
after_byte-Within p last b mem mem' at h v = record {
  forward = further at v.forward;
  same = λ a out. v.same a (closer a out) ∙ untouched a out;
}
  where
    further : (at : Option ℕ) → All (λ q. p + 1 ≤ q) at → All (λ q. p ≤ q) at
    further none u = tt
    further (some q) u = omega arith

    closer : (a : ℕ) → (a < p) ⊎ (last ≤ a) → (a < p + 1) ⊎ (last ≤ a)
    closer a (inl low) = inl (omega arith)
    closer a (inr high) = inr high

    untouched : (a : ℕ) → (a < p) ⊎ (last ≤ a) → update mem p b a ≡ mem a
    untouched a (inl low) = ground arith
    untouched a (inr high) = ground arith

print_signed-Within :
    (p last : ℕ) (mem : Memory) (s : Spec) (v : ℤ)
    → p < last
    → All (BufWithin p last mem) (print_signed p last mem s v)
print_signed-Within p last mem s (pos n) h = ui64_string-Within p last mem n s.fill s.hex s.width
print_signed-Within p last mem s (negsuc n) h =
    then_byte-Within (ui64_string (p + 1) last (update mem p b'-') (suc n) s.fill s.hex s.width)
      (ui64_string-Within (p + 1) last (update mem p b'-') (suc n) s.fill s.hex s.width)
  where
    then_byte-Within :
        (r : Option Buf)
        → All (BufWithin (p + 1) last (update mem p b'-')) r
        → All (BufWithin p last mem) r
    then_byte-Within none u = tt
    then_byte-Within (some b) u = after_byte-Within p last b'-' mem b.mem b.at h u

pub put_byte-Within :
    (p last b : ℕ) (mem : Memory) → p < last → BufWithin p last mem (put_byte p b mem)
put_byte-Within p last b mem h = stored-Within p last (p + 1) (b ∷ []) mem refl (omega arith)

pub print_text-Within :
    (p last : ℕ) (mem : Memory) (a : Arg)
    → p < last
    → All (BufWithin p last mem) (print_text p last mem a)
print_text-Within p last mem (string_arg t) h = elim (Bool-cases (ltb (p + length t) last)) [
  | inl fits ↦ rw fits (stored-Within p last (p + length t) t mem refl (ground arith))
  | inr full ↦ rw full (record { forward = omega arith; same = λ a out. refl })
]
print_text-Within p last mem (int_arg v) h = tt
print_text-Within p last mem (uint_arg n) h = tt
print_text-Within p last mem (double_arg negative n) h = tt

pub print_number-Within :
    (p last : ℕ) (mem : Memory) (s : Spec) (a : Arg)
    → p < last
    → All (BufWithin p last mem) (print_number p last mem s a)
print_number-Within p last mem s (int_arg v) h = elim (Bool-cases s.signed) [
  | inl signed ↦ rw signed (print_signed-Within p last mem s v h)
  | inr unsigned ↦ rw unsigned tt
]
print_number-Within p last mem s (uint_arg n) h = elim (Bool-cases s.signed) [
  | inl signed ↦ rw signed tt
  | inr unsigned ↦ rw unsigned (ui64_string-Within p last mem n s.fill s.hex s.width)
]
print_number-Within p last mem s (string_arg t) h = tt
print_number-Within p last mem s (double_arg negative n) h = tt

pub print_pid-Within :
    (p last : ℕ) (mem : Memory) (s : Spec) (a : Arg)
    → p < last
    → All (BufWithin p last mem) (print_pid p last mem s a)
print_pid-Within p last mem s (int_arg v) h = print_signed-Within p last mem s v h
print_pid-Within p last mem s (uint_arg n) h = tt
print_pid-Within p last mem s (string_arg t) h = tt
print_pid-Within p last mem s (double_arg negative n) h = tt
