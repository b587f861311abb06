-- ===== src/Signals/Logged.antt =====
-- What the signal handler logs when a process has sent the signal.
use my_nignx.Prelude.{
  ltb, ℕ, suc, ◌+◌, ◌<◌, ◌≤◌, ◌≡◌, refl, ap, ◌∙◌, true, List, [], ◌∷◌, ◌++◌, none, some, arith,
  length, codes, lt→ltb, ℤ, pos, Bool-cases, inl, inr, ◌^◌,
}
use my_nignx.Fmt.{Memory, Buf, ui64_string, full_width, units}
use my_nignx.Fmt.Digits.{length-units}
use my_nignx.Format.{
  Spec, new_spec, number, text, other, Directive, literal, convert, Arg, int_arg, string_arg,
  directives, outside, run_directives, fmt_string,
}
use my_nignx.Signals.{signals, name_of, logged, handler_text}

-- From the address `p` on the directives end in undefined behaviour, whatever the memory.
abbrev Faults : ℕ → List Directive → List Arg → ℕ → Type 0
Faults last ds args p =
    (mem : Memory) → run_directives last ds args (record { at = some p; mem = mem }) ≡ none

abbrev literals : List ℕ → List Directive
literals [] = []
literals (b ∷ bs) = literal b ∷ literals bs

module _ (last : ℕ) where
  literals-Faults :
      (bs : List ℕ) (ds : List Directive) (args : List Arg) (p : ℕ)
      → p + length bs ≤ last
      → Faults last ds args (p + length bs)
      → Faults last (literals bs ++ ds) args p
  unfolding run_directives
  literals-Faults [] ds args p room f mem = let e : p + 0 ≡ p = omega arith in rw e at (f mem)
  literals-Faults (b ∷ bs) ds args p room f mem =
      let e : p + suc (length bs) ≡ p + 1 + length bs = omega arith in
      let f' : Faults last ds args (p + 1 + length bs) = rw e at f in
      rw (lt→ltb p last (omega arith)) (literals-Faults bs ds args (p + 1) (omega arith) f' _)

  number-Faults :
      (s : Spec) (n : ℕ) (ds : List Directive) (args : List Arg) (p : ℕ)
      → s.signed ≡ true
      → p < last
      → p + full_width s.width (units s.hex n) ≤ last
      → Faults last ds args (p + full_width s.width (units s.hex n))
      → Faults last (convert s number ∷ ds) (int_arg (pos n) ∷ args) p
  unfolding run_directives ui64_string
  number-Faults s n ds args p signed lt room f mem =
      let w = full_width s.width (units s.hex n) in
      let fits = lt→ltb (p + w) (last + 1) (omega arith) in
      elim (Bool-cases (ltb (2 ^ 64) (p + w))) [
        | inl wraps ↦ rw (lt→ltb p last lt, signed, wraps) refl
        | inr stays ↦ rw (lt→ltb p last lt, signed, stays, fits) (f _)
      ]

  text-Faults :
      (s : Spec) (t : List ℕ) (ds : List Directive) (args : List Arg) (p : ℕ)
      → p < last
      → Faults last ds args (p + length t)
      → Faults last (convert s text ∷ ds) (string_arg t ∷ args) p
  unfolding run_directives
  text-Faults s t ds args p lt f mem = rw (lt→ltb p last lt) (f _)

  -- A number where the format asks for a string.
  wrong-Faults :
      (s : Spec) (v : ℤ) (ds : List Directive) (args : List Arg) (p : ℕ)
      → p < last
      → Faults last (convert s text ∷ ds) (int_arg v ∷ args) p
  unfolding run_directives
  wrong-Faults s v ds args p lt mem = rw (lt→ltb p last lt) refl

  letter-Faults :
      (s : Spec) (b : ℕ) (ds : List Directive) (args : List Arg) (p : ℕ)
      → p < last
      → Faults last ds args (p + 1)
      → Faults last (convert s (other b) ∷ ds) args p
  unfolding run_directives
  letter-Faults s b ds args p lt f mem = rw (lt→ltb p last lt) (f _)

abbrev plain : Spec
plain = new_spec b'd'

abbrev sender_part : List Directive
sender_part = convert plain (other b'P') ∷ convert plain text ∷ []

abbrev name_part : List Directive
name_part = convert plain text ∷ (literals (codes ") received from ") ++ sender_part)

abbrev number_part : List Directive
number_part = convert plain number ∷ (literals (codes " (") ++ name_part)

format_read :
    directives outside (codes "signal %d (%s) received from %P%s")
    ≡ literals (codes "signal ") ++ number_part
unfolding directives
format_read = refl

number_width : (n : ℕ) → full_width 0 (units 0 n) ≤ 64
unfolding units
number_width n = length-units 64 n

format-Faults :
    (last signo pid p : ℕ) (name : List ℕ)
    → p + length name + 100 ≤ last
    → Faults last
        (literals (codes "signal ") ++ number_part)
        (int_arg (pos signo) ∷ string_arg name ∷ int_arg (pos pid) ∷ string_arg [] ∷ [])
        p
format-Faults last signo pid p name room =
    let a : List Arg = int_arg (pos pid) ∷ string_arg [] ∷ [] in
    let b : List Arg = string_arg name ∷ a in
    let w = full_width 0 (units 0 signo) in
    let narrow = number_width signo in
    let q = p + 7 + w + 2 + length name + 16 in
    literals-Faults last (codes "signal ") number_part (int_arg (pos signo) ∷ b) p (omega arith) (
      number-Faults last plain signo (literals (codes " (") ++ name_part) b (p + 7) refl
        (omega arith) (omega arith)
        (literals-Faults last (codes " (") name_part b (p + 7 + w) (omega arith) (
          text-Faults last plain name (literals (codes ") received from ") ++ sender_part) a
            (p + 7 + w + 2) (omega arith)
            (literals-Faults last (codes ") received from ") sender_part a
              (p + 7 + w + 2 + length name) (omega arith)
              (letter-Faults last plain b'P' (convert plain text ∷ []) a q (omega arith) (
                wrong-Faults last plain (pos pid) [] (string_arg [] ∷ []) (q + 1)
                  (omega arith)))))))

-- For every signal that is in the table and that a process has sent: where the buffer has 100 bytes of
-- room besides the name, the text that the handler logs is undefined. The format names the sender by
-- %P, which takes no argument, so that the number of the process is taken for a string.
pub handler_text_faults :
    (signo pid p last : ℕ) (mem : Memory) (name : List ℕ)
    → name_of signals signo ≡ some name
    → p + length name + 100 ≤ last
    → handler_text signo (some pid) (record { at = some p; mem = mem }) last ≡ none
unfolding handler_text fmt_string
handler_text_faults signo pid p last mem name known room =
    let args : List Arg =
      int_arg (pos signo) ∷ string_arg name ∷ int_arg (pos pid) ∷ string_arg [] ∷ [] in
    let b : Buf = record { at = some p; mem = mem } in
    ap (λ n. logged signo (some pid) n b last) known
    ∙ ap (λ ds. run_directives last ds args b) format_read
    ∙ format-Faults last signo pid p name room mem
