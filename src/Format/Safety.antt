-- ===== src/Format/Safety.antt =====
-- Formatting a whole text without a number with a point stays in the buffer.
use my_nignx.Prelude.{
  All, bind-All, ℕ, ◌<◌, ◌≤◌, ◌⊎◌, inl, inr, refl, ◌∙◌, List, [], ◌∷◌, Option, none, some, arith,
  ltb, Bool-cases,
}
use my_nignx.Fmt.{Memory, Buf}
use my_nignx.Format.{
  Spec, percent, number, text, pid, fraction, other, Directive, literal, convert, broken,
  directives, outside, Arg, int_arg, uint_arg, string_arg, double_arg, print_number, print_double,
  print_pid, print_text, with_arg, perform, while_room, then_run, run_directives, fmt_string,
}
use my_nignx.Format.Bounds.{
  Within, BufWithin, put_byte-Within, print_text-Within, print_number-Within, print_pid-Within,
}

abbrev pub NoDoubles : List Arg → Type 0
NoDoubles [] = Unit {0}
NoDoubles (int_arg v ∷ rest) = NoDoubles rest
NoDoubles (uint_arg n ∷ rest) = NoDoubles rest
NoDoubles (string_arg t ∷ rest) = NoDoubles rest
NoDoubles (double_arg negative n ∷ rest) = ⊥

NoDoubles-tail : (a : Arg) (rest : List Arg) → NoDoubles (a ∷ rest) → NoDoubles rest
NoDoubles-tail (int_arg v) rest h = h
NoDoubles-tail (uint_arg n) rest h = h
NoDoubles-tail (string_arg t) rest h = h
NoDoubles-tail (double_arg negative n) rest h = absurd h

module _ (p last : ℕ) (mem : Memory) where
  abbrev Goes : List Arg × Buf → Type 0
  Goes r = NoDoubles r.0 × BufWithin p last mem r.1

  with_arg-Goes :
      (f : Arg → Option Buf) (args : List Arg)
      → NoDoubles args
      → ((a : Arg) (rest : List Arg) → NoDoubles (a ∷ rest) → All (BufWithin p last mem) (f a))
      → All Goes (with_arg args f)
  with_arg-Goes f [] h k = tt
  with_arg-Goes f (a ∷ rest) h k =
      bind-All (BufWithin p last mem) Goes (f a) _ (k a rest h)
        (λ b v. (NoDoubles-tail a rest h, v))

  no_double :
      (s : Spec) (a : Arg) (rest : List Arg)
      → NoDoubles (a ∷ rest)
      → All (BufWithin p last mem) (print_double p last mem s a)
  no_double s (int_arg v) rest h = tt
  no_double s (uint_arg n) rest h = tt
  no_double s (string_arg t) rest h = tt
  no_double s (double_arg negative n) rest h = absurd h

  perform-Goes :
      (d : Directive) (args : List Arg)
      → p < last
      → NoDoubles args
      → All Goes (perform last d args p mem)
  perform-Goes (literal b) args h v = (v, put_byte-Within p last b mem h)
  perform-Goes (convert s percent) args h v = (v, put_byte-Within p last b'%' mem h)
  perform-Goes (convert s number) args h v =
      with_arg-Goes (print_number p last mem s) args v
        (λ a rest u. print_number-Within p last mem s a h)
  perform-Goes (convert s text) args h v =
      with_arg-Goes (print_text p last mem) args v (λ a rest u. print_text-Within p last mem a h)
  perform-Goes (convert s pid) args h v =
      with_arg-Goes (print_pid p last mem s) args v (λ a rest u. print_pid-Within p last mem s a h)
  perform-Goes (convert s fraction) args h v =
      with_arg-Goes (print_double p last mem s) args v (no_double s)
  perform-Goes (convert s (other b)) args h v = (v, put_byte-Within p last b mem h)
  perform-Goes broken args h v = tt

further-Within :
    (p last q : ℕ) (mem mem' mem'' : Memory) (at : Option ℕ)
    → Within p last mem mem' (some q)
    → Within q last mem' mem'' at
    → Within p last mem mem'' at
further-Within p last q mem mem' mem'' at v w = record {
  forward = further at w.forward;
  same = λ a out. w.same a (outside_more a out) ∙ v.same a out;
}
  where
    further : (at : Option ℕ) → All (λ r. q ≤ r) at → All (λ r. p ≤ r) at
    further none u = tt
    further (some r) u = omega (arith, v.forward)

    outside_more : (a : ℕ) → (a < p) ⊎ (last ≤ a) → (a < q) ⊎ (last ≤ a)
    outside_more a (inl low) = inl (omega (arith, v.forward))
    outside_more a (inr high) = inr high

module _ (p last : ℕ) (mem : Memory) where
  room-Within :
      (b : Buf) (at : Option ℕ) (body : ℕ → Option Buf)
      → BufWithin p last mem b
      → Within p last mem b.mem at
      → ((q : ℕ)
          → Within p last mem b.mem (some q)
          → q < last
          → All (BufWithin p last mem) (body q))
      → All (BufWithin p last mem) (while_room last b at body)
  room-Within b none body u w k = tt
  room-Within b (some q) body u w k = elim (Bool-cases (ltb q last)) [
    | inl lt ↦ rw lt (k q w (ground arith))
    | inr full ↦ rw full u
  ]

  then-Within :
      (q : ℕ) (mem' : Memory) (r : Option (List Arg × Buf)) (rest : List Arg → Buf → Option Buf)
      → Within p last mem mem' (some q)
      → All (Goes q last mem') r
      → ((args : List Arg) (b : Buf)
          → NoDoubles args
          → BufWithin p last mem b
          → All (BufWithin p last mem) (rest args b))
      → All (BufWithin p last mem) (then_run r rest)
  then-Within q mem' none rest v g k = tt
  then-Within q mem' (some (args, b)) rest v g k =
      k args b g.0 (further-Within p last q mem mem' b.mem b.at v g.1)

  run-Within :
      (ds : List Directive) (args : List Arg) (b : Buf)
      → NoDoubles args
      → BufWithin p last mem b
      → All (BufWithin p last mem) (run_directives last ds args b)
  unfolding run_directives
  run-Within [] args b h v = v
  run-Within (d ∷ ds) args b h v =
      room-Within b b.at (λ q. then_run (perform last d args q b.mem) (run_directives last ds)) v v
        (λ q w lt.
          then-Within q b.mem (perform last d args q b.mem) (run_directives last ds) w
            (perform-Goes q last b.mem d args lt h) (λ args' b' g u. run-Within ds args' b' g u))

-- Whatever the format and the arguments, if no argument is a floating-point number and formatting into
-- a buffer from `p` to `last` returns (it may be undefined: by an argument of another kind than its
-- directive, by a write through a null pointer, by a width that moves a pointer past the end of the
-- address space, or by a format that breaks off): no byte in front of `p` and none from `last` on has
-- changed, and the pointer returned is not in front of `p`.
pub fmt_string-Within :
    (p last : ℕ) (mem : Memory) (fmt : List ℕ) (args : List Arg)
    → NoDoubles args
    → All (BufWithin p last mem) (fmt_string (record { at = some p; mem = mem }) last fmt args)
unfolding fmt_string
fmt_string-Within p last mem fmt args h =
    run-Within p last mem (directives outside fmt) args (record { at = some p; mem = mem }) h
      (record { forward = omega arith; same = λ a out. refl })
