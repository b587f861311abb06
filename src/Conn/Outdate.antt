-- ===== src/Conn/Outdate.antt =====
-- What the sequence stamp of a message header is good for: `JudgeOutdate` of net/socket_conn.cxx.
use my_nignx.Prelude.{
  ℕ, ◌+◌, ◌-◌, ◌%◌, ◌^◌, ◌≤◌, ◌<◌, ◌≡◌, refl, ◌↔◌, ◌⊎◌, true, false, arith, List, [], ◌∷◌, length,
  negsuc, pos_part,
}
use my_nignx.Conn.{
  Connection, next_sequence, get_one_to_use, put_one_to_free, through_int, judge_outdate,
}

through_int-low : (s : ℕ) → through_int s % 2 ^ 32 ≡ s % 2 ^ 32
unfolding through_int
through_int-low s = ground arith

-- The values that pass through `int` unharmed.
abbrev pub FitsInt : ℕ → Type 0
FitsInt s = (s < 2 ^ 31) ⊎ (2 ^ 64 - 2 ^ 31 ≤ s)

through_int-fits : (s : ℕ) → s < 2 ^ 64 → (through_int s ≡ s) ↔ FitsInt s
unfolding through_int
through_int-fits s h = (λ e. ground arith, λ f. ground arith)

-- The check of a connection's own current stamp passes exactly if the descriptor is positive, the
-- connection is not queued for recycling, and the sequence number survives the conversion of the
-- `int` parameter.
pub judge_outdate_current :
    (c : Connection)
    → c.sequence < 2 ^ 64
    → (judge_outdate c c.sequence ≡ true)
      ↔ ((0 < pos_part c.fd) × (c.in_recy_list ≡ false) × FitsInt c.sequence)
unfolding judge_outdate
judge_outdate_current c h = (λ e. ground arith, λ k. ground arith)

-- What happens to a connection object between two messages: it is taken for a new client, given
-- back by the recycling thread, or closed at once (`close_connection`).
pub data Change : Type 0 where
  taken : ℕ → Change
  given_back closed_at_once : Change

abbrev pub change : Change → Connection → Connection
change (taken now) c = get_one_to_use now c
change given_back c = put_one_to_free c
change closed_at_once c = record c { fd = negsuc 0; sequence = next_sequence c.sequence }

abbrev pub changes : Connection → List Change → Connection
changes c [] = c
changes c (x ∷ xs) = changes (change x c) xs

sequence-change : (x : Change) (c : Connection) → (change x c).sequence ≡ next_sequence c.sequence
unfolding get_one_to_use put_one_to_free
sequence-change (taken now) c = refl
sequence-change given_back c = refl
sequence-change closed_at_once c = refl

sequence-changes :
    (c : Connection) (xs : List Change)
    → c.sequence < 2 ^ 64
    → (changes c xs).sequence ≡ (c.sequence + length xs) % 2 ^ 64
sequence-changes c [] h = omega arith
sequence-changes c (x ∷ xs) h =
    let e = sequence-change x c in
    omega (arith, e, sequence-changes (change x c) xs (omega (arith, e)))

-- A stamp taken before the connection object changed hands is refused, as long as fewer than
-- 2^32 changes lie between.
pub judge_outdate_stale :
    (c : Connection) (xs : List Change)
    → c.sequence < 2 ^ 64
    → 0 < length xs
    → length xs < 2 ^ 32
    → judge_outdate (changes c xs) c.sequence ≡ false
unfolding judge_outdate
judge_outdate_stale c xs h some_change few = ground (arith, sequence-changes c xs h)
