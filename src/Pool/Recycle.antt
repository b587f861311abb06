-- ===== src/Pool/Recycle.antt =====
-- What one pass of the recycling thread does: net/c_socket.cxx, the loop of `RecyConnThreadFunc`.
use my_nignx.Prelude.{
  ℕ, ◌+◌, ◌≡◌, refl, sym, ap, ◌∙◌, inl, inr, Bool, false, List, [], ◌∷◌, ◌++◌, append_assoc,
  append-nil, arith, length-append, ltb, ◌==◌, if◌then◌else◌, negsuc, count-append, contains,
  size_decr, Bool-cases,
}
use mathlib.Core.Path.{fun_ext}
use my_nignx.Conn.{put_one_to_free}
use my_nignx.Pool.{Pool, free_connection_item, set_conn, give_back, recycle_loop, recycle_pass}
use my_nignx.Pool.Invariant.{Tidy, IsTidy, free-Tidy, set_conn-Tidy}

-- The connections that are due, and the others, by the times at which they were queued.
module _ (clock : ℕ → ℕ) (delay : ℕ) (queued_at : ℕ → ℕ) where
  abbrev pub is_due : ℕ → ℕ → Bool
  is_due i c = ltb (delay + queued_at c) (clock i)

  abbrev pub due_of : ℕ → List ℕ → List ℕ
  due_of i [] = []
  due_of i (c ∷ cs) = if is_due i c then c ∷ due_of (i + 1) cs else due_of (i + 1) cs

  abbrev pub kept_of : ℕ → List ℕ → List ℕ
  kept_of i [] = []
  kept_of i (c ∷ cs) = if is_due i c then kept_of (i + 1) cs else c ∷ kept_of (i + 1) cs

abbrev pub queue_times : Pool → ℕ → ℕ
queue_times p c = (p.conn c).inrevy_time

time-give_back : (c d : ℕ) (p : Pool) → queue_times (give_back c p) d ≡ queue_times p d
unfolding free_connection_item put_one_to_free
time-give_back c d p = ground arith

give_back-Tidy :
    (c : ℕ) (pre cs : List ℕ) (p : Pool)
    → Tidy p (pre ++ (c ∷ cs))
    → Tidy (give_back c (record p { recy_count = size_decr p.recy_count })) (pre ++ cs)
give_back-Tidy c pre cs p v =
    let q : Pool = record p { recy_count = size_decr p.recy_count } in
    let at = count-append c pre (c ∷ cs) in
    let less : Tidy q (pre ++ cs) = record {
      listed = v.listed;
      once = λ d. ground (arith, v.once d, count-append d pre (c ∷ cs), count-append d pre cs);
      closed =
          λ d h. ground (arith, v.closed d, count-append d pre (c ∷ cs), count-append d pre cs);
      free_counted = v.free_counted;
      recy_counted =
          ground (arith, v.recy_counted, length-append pre (c ∷ cs), length-append pre cs);
    } in
    let shut : (p.conn c).fd ≡ negsuc 0 = v.closed c (ground (arith, at)) in
    let kept : (put_one_to_free (p.conn c)).fd ≡ negsuc 0 = unfold put_one_to_free in shut in
    free-Tidy c (set_conn c (put_one_to_free (p.conn c)) q) (pre ++ cs)
      (ground (arith, v.once c, v.listed c, at))
      (ground (arith, v.once c, v.listed c, at, count-append c pre cs)) (ground (arith, kept))
      (set_conn-Tidy c (put_one_to_free (p.conn c)) q (pre ++ cs) (λ h. kept) less)

module _ (clock : ℕ → ℕ) where
  loop-Tidy :
      (i : ℕ) (pre cs : List ℕ) (p : Pool)
      → Tidy p (pre ++ cs)
      → let (kept, q) = recycle_loop clock i cs p in Tidy q (pre ++ kept)
  unfolding recycle_loop
  loop-Tidy i pre [] p v = v
  loop-Tidy i pre (c ∷ cs) p v = elim (Bool-cases (is_due clock p.delay_time (queue_times p) i c)) [
    | inl due ↦ rw due (
        loop-Tidy (i + 1) pre cs (give_back c (record p { recy_count = size_decr p.recy_count }))
          (give_back-Tidy c pre cs p v))
    | inr later ↦
        let moved = append_assoc pre (c ∷ []) cs in
        let ih = loop-Tidy (i + 1) (pre ++ (c ∷ [])) cs p (rw moved v) in
        rw later (rw (append_assoc pre (c ∷ [])) at ih)
  ]

  -- What the loop gives back and keeps, for any start of it.
  record Passed (i : ℕ) (cs : List ℕ) (p : Pool) (kept : List ℕ) (q : Pool) : Type 0 where
    keeps : kept ≡ kept_of clock p.delay_time (queue_times p) i cs
    frees : q.free_list ≡ p.free_list ++ due_of clock p.delay_time (queue_times p) i cs
    leaves :
        (d : ℕ)
        → contains d (due_of clock p.delay_time (queue_times p) i cs) ≡ false
        → q.conn d ≡ p.conn d

  after_give_back :
      (c : ℕ) (p : Pool)
      → queue_times (give_back c (record p { recy_count = size_decr p.recy_count })) ≡ queue_times p
  after_give_back c p =
      fun_ext λ d. time-give_back c d (record p { recy_count = size_decr p.recy_count })

  other_give_back :
      (c d : ℕ) (p : Pool)
      → (c == d) ≡ false
      → (give_back c (record p { recy_count = size_decr p.recy_count })).conn d ≡ p.conn d
  unfolding free_connection_item
  other_give_back c d p ne = rw ne

  loop-Passed :
      (i : ℕ) (cs : List ℕ) (p : Pool)
      → let (kept, q) = recycle_loop clock i cs p in Passed i cs p kept q
  unfolding recycle_loop
  loop-Passed i [] p = record {
    keeps = refl;
    frees = sym (append-nil p.free_list);
    leaves = λ d h. refl;
  }
  loop-Passed i (c ∷ cs) p = elim (Bool-cases (is_due clock p.delay_time (queue_times p) i c)) [
    | inl due ↦
        let p' : Pool = give_back c (record p { recy_count = size_decr p.recy_count }) in
        let ih = loop-Passed (i + 1) cs p' in
        let same = after_give_back c p in
        let f : p'.delay_time ≡ p.delay_time = unfold free_connection_item in refl in
        let free : p'.free_list ≡ p.free_list ++ (c ∷ []) = unfold free_connection_item in refl in
        rw due (record {
          keeps = ih.keeps ∙ rw (same, f, due);
          frees =
              ih.frees
              ∙ rw (same, f, free, due)
                  (append_assoc p.free_list (c ∷ [])
                    (due_of clock p.delay_time (queue_times p) (i + 1) cs));
          leaves = λ d h.
              let h' = rw due at h in
              ih.leaves d (rw (same, f) (ground arith)) ∙ other_give_back c d p (ground arith);
        })
    | inr later ↦
        let ih = loop-Passed (i + 1) cs p in
        rw later (record {
          keeps = rw later (ap (◌∷◌ c) ih.keeps);
          frees = rw later ih.frees;
          leaves = λ d h. ih.leaves d (rw later at h);
        })
  ]

  -- A pass keeps the pool tidy. It gives the connections whose delay has run out, and no others, to
  -- the end of the free list, in the order in which they were queued; the others stay queued in
  -- their order, and no other connection object changes.
  pub recycle_pass_lem :
      (p : Pool)
      → IsTidy p
      → let q = recycle_pass clock p in
        IsTidy q
        × (q.recy_list ≡ kept_of clock p.delay_time (queue_times p) 0 p.recy_list)
        × (q.free_list ≡ p.free_list ++ due_of clock p.delay_time (queue_times p) 0 p.recy_list)
        × ((d : ℕ)
            → contains d (due_of clock p.delay_time (queue_times p) 0 p.recy_list) ≡ false
            → q.conn d ≡ p.conn d)
  recycle_pass_lem p v =
      let d = loop-Passed 0 p.recy_list p in
      let t = loop-Tidy 0 [] p.recy_list p v in
      unfold recycle_pass in
      (
        record {
          listed = t.listed;
          once = t.once;
          closed = t.closed;
          free_counted = t.free_counted;
          recy_counted = t.recy_counted;
        },
        d.keeps,
        d.frees,
        d.leaves,
      )
