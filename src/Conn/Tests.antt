-- ===== src/Conn/Tests.antt =====
-- The stamp checks of net/socket_conn.cxx at concrete connections.
use my_nignx.Prelude.{◌<◌, ◌≡◌, ◌↔◌, true, false, refl, arith, pos, List, [], ◌∷◌}
use my_nignx.Conn.{Connection, judge_outdate, through_int}
use my_nignx.Conn.Outdate.{
  FitsInt, Change, taken, given_back, changes, judge_outdate_current, judge_outdate_stale,
}
use my_nignx.Pool.{new_connection}

abbrev client : Connection
client = record new_connection { fd = pos 7; sequence = 41 }

judge_outdate_current_sample :
    (judge_outdate client 41 ≡ true) ↔ ((0 < 7) × (false ≡ false) × FitsInt 41)
judge_outdate_current_sample = judge_outdate_current client (omega arith)

accepts_own : judge_outdate client 41 ≡ true
unfolding judge_outdate through_int
accepts_own = refl

abbrev two_changes : List Change
two_changes = given_back ∷ taken 99 ∷ []

judge_outdate_stale_example : judge_outdate (changes client two_changes) 41 ≡ false
judge_outdate_stale_example =
    judge_outdate_stale client two_changes (omega arith) (omega arith) (omega arith)
