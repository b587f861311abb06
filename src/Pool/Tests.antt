-- ===== src/Pool/Tests.antt =====
-- The connection pool of net/socket_conn.cxx and its recycling, at a pool of two connections.
use my_nignx.Prelude.{
  ℕ, ◌≡◌, refl, arith, true, false, [], ◌∷◌, some, contains, pos, length, if◌then◌else◌, ◌==◌,
}
use my_nignx.Pool.{
  Pool, new_connection, connectpool_init, get_connection_item, close_accepted_connection,
  recycle_pass,
}
use my_nignx.Pool.Invariant.{IsTidy, InUse, get_connection_item-InUse}
use my_nignx.Pool.Closing.{close_accepted_connection_twice}
use my_nignx.Pool.Recycle.{recycle_pass_lem}
use my_nignx.Pool.Lifetime.{
  IsBlank, connectpool_init-IsTidy, Reachable, started, then_step, takes, Reachable-IsTidy,
}

abbrev no_pool : Pool
no_pool = record {
  conn = λ c. new_connection;
  next = 0;
  connection_list = [];
  free_list = [];
  total_count = 0;
  free_count = 0;
  online_count = pos 1;
  recy_list = [];
  recy_count = 0;
  delay_time = 60;
}

blank : IsBlank no_pool
blank = record {
  none_made = refl;
  none_listed = refl;
  none_free = refl;
  none_queued = refl;
  queue_counted = refl;
}

abbrev pool2 : Pool
pool2 = connectpool_init 2 no_pool

pool2-IsTidy :
    IsTidy (connectpool_init 2 no_pool) × (length (connectpool_init 2 no_pool).free_list ≡ 2)
pool2-IsTidy = connectpool_init-IsTidy 2 no_pool blank

abbrev one_taken : Reachable no_pool (get_connection_item pool2).1
one_taken = then_step pool2 (get_connection_item pool2).1 (started 2) (takes pool2)

Reachable-IsTidy_example : IsTidy (get_connection_item pool2).1
Reachable-IsTidy_example = Reachable-IsTidy no_pool (get_connection_item pool2).1 blank one_taken

get_connection_item-InUse_sample : InUse (get_connection_item pool2).1 (get_connection_item pool2).0
get_connection_item-InUse_sample = get_connection_item-InUse pool2 pool2-IsTidy.0

-- One client, with the descriptor 9, at the object 0.
abbrev served : Pool
served = record no_pool {
  conn = λ c. record new_connection { fd = pos 9 };
  next = 1;
  connection_list = 0 ∷ [];
}

close_accepted_connection_twice_example :
    (q : Pool) × (close_accepted_connection true 100 false 0 served ≡ some q)
    × (close_accepted_connection true 101 true 0 q ≡ some q)
    × (q.online_count ≡ pos 0)
close_accepted_connection_twice_example =
    close_accepted_connection_twice 100 101 false true 0 served (λ e. ground arith) refl

-- Two objects wait, queued at the times 10 and 50.
abbrev waiting_pool : Pool
waiting_pool = record no_pool {
  conn =
      λ c. record new_connection { in_recy_list = true; inrevy_time = if c == 0 then 10 else 50 };
  next = 2;
  connection_list = 0 ∷ 1 ∷ [];
  recy_list = 0 ∷ 1 ∷ [];
  recy_count = 2;
}

waiting_pool-IsTidy : IsTidy waiting_pool
waiting_pool-IsTidy = record {
  listed = λ c. ground arith;
  once = λ c. ground arith;
  closed = λ c h. refl;
  free_counted = refl;
  recy_counted = refl;
}

recycle_pass_lem_example :
    let q = recycle_pass (λ i. 90) waiting_pool in
    IsTidy q
    × (q.recy_list ≡ 1 ∷ [])
    × (q.free_list ≡ 0 ∷ [])
    × ((d : ℕ) → contains d (0 ∷ []) ≡ false → q.conn d ≡ waiting_pool.conn d)
recycle_pass_lem_example = recycle_pass_lem (λ i. 90) waiting_pool waiting_pool-IsTidy
