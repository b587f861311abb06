-- ===== src/Log/Lines.antt =====
-- Log lines: their length, and what becomes of a line without room for its error number.
use my_nignx.Prelude.{
  All, ◌>>=◌, ℕ, zero, suc, true, false, ◌+◌, ◌-◌, ◌<◌, ◌≡◌, refl, ap, ◌∙◌, List, [], ◌∷◌, ◌++◌,
  Option, none, some, arith, length, update, ltb, if◌then◌else◌, ℤ, pos, le→ltb, Bool-cases, inl,
  inr, ◌^◌,
}
use my_nignx.Fmt.{Memory, ui64_string, ui64_text, full_width, units}
use my_nignx.Fmt.Digits.{length-ui64_text}
use my_nignx.Format.{Arg, fmt_string, run_directives, directives}
use my_nignx.Log.{max_error_str, bytes, log_errno, end_at, end_line, Moment, log_text, log_line}

-- A line of at most 2047 bytes with a line feed at its end.
pub record IsLine (line : List ℕ) : Type 0 where
  pub front : List ℕ
  pub ends : line ≡ front ++ (b'\n' ∷ [])
  pub short : length line < max_error_str

bytes_last : (p n : ℕ) (mem : Memory) → bytes p (suc n) mem ≡ bytes p n mem ++ (mem (p + n) ∷ [])
bytes_last p zero mem = ap (λ a. mem a ∷ []) (omega arith)
bytes_last p (suc n) mem =
    let e : p + 1 + n ≡ p + suc n = omega arith in
    ap (◌∷◌ (mem p)) (bytes_last (p + 1) n mem ∙ ap (λ a. bytes (p + 1) n mem ++ (mem a ∷ [])) e)

length-bytes : (p n : ℕ) (mem : Memory) → length (bytes p n mem) ≡ n
length-bytes p zero mem = refl
length-bytes p (suc n) mem = ap suc (length-bytes (p + 1) n mem)

ended-IsLine :
    (q : ℕ) (mem : Memory) → mem q ≡ b'\n' → q < max_error_str - 1 → IsLine (bytes 0 (q + 1) mem)
ended-IsLine q mem e low = record {
  front = bytes 0 q mem;
  ends =
      let k : q + 1 ≡ suc q = omega arith in
      let z : 0 + q ≡ q = omega arith in
      ap (λ n. bytes 0 n mem) k
      ∙ bytes_last 0 q mem
      ∙ ap (λ a. bytes 0 q mem ++ (a ∷ [])) (ap mem z ∙ e);
  short = omega (arith, length-bytes 0 (q + 1) mem);
}

end_at-IsLine : (mem : Memory) (at : Option ℕ) → All IsLine (end_at mem at)
end_at-IsLine mem none = tt
end_at-IsLine mem (some p) =
    let q = if ltb p (max_error_str - 1) then p else max_error_str - 2 in
    let low : q < max_error_str - 1 = ground arith in
    let stored : update mem q b'\n' q ≡ b'\n' = ground arith in
    ended-IsLine q (update mem q b'\n') stored low

then-IsLine {ℓ} :
    {A : Type ℓ} (r : Option A) (f : A → Option (List ℕ))
    → ((a : A) → All IsLine (f a))
    → All IsLine (r >>= f)
then-IsLine none f k = tt
then-IsLine (some a) f k = k a

-- Whatever is logged, if its formatting is defined then the line has at most 2047 bytes, which its
-- array holds, and ends with a line feed.
pub log_line-IsLine :
    (t : Moment) (level : ℕ) (errnum : ℤ) (errinfo fmt : List ℕ) (args : List Arg)
    → All IsLine (log_line t level errnum errinfo fmt args)
unfolding log_line
log_line-IsLine t level errnum errinfo fmt args =
    then-IsLine (log_text t level errnum errinfo fmt args) end_line (λ b. end_at-IsLine b.mem b.at)

-- The error number of a log line is two bytes behind the text: if the text leaves room for those
-- two but not for all digits of the number, the formatting gives a null pointer, and the log ends
-- in a write through it.
pub log_errno_no_room :
    (p last n : ℕ) (mem : Memory) (errinfo : List ℕ)
    → p + 2 < last
    → last < p + 2 + length (ui64_text n b' ' 0 0)
    → log_errno (record { at = some p; mem = mem }) last (pos n) errinfo ≡ none
unfolding log_errno fmt_string directives run_directives ui64_string
log_errno_no_room p last n mem errinfo room full =
    let w = full_width 0 (units 0 n) in
    let long = length-ui64_text n b' ' 0 0 in
    let a : ltb p last ≡ true = ground arith in
    let b : ltb (p + 1) last ≡ true = ground arith in
    let c : ltb (p + 1 + 1) last ≡ true = ground arith in
    let d : ltb (p + 1 + 1 + w) (last + 1) ≡ false =
      le→ltb (p + 1 + 1 + w) (last + 1) (omega (arith, long, full)) in
    elim (Bool-cases (ltb (2 ^ 64) (p + 1 + 1 + w))) [
      | inl wraps ↦ rw (a, b, c, wraps) refl
      | inr stays ↦ rw (a, b, c, stays, d) refl
    ]
