-- ===== src/Pool.antt =====
-- The connection pool and the delayed recycling of `CSocket`: the pool functions of
-- net/socket_conn.cxx, and of net/c_socket.cxx `connectpool_init`, `connectpool_clean`,
-- `InRecyConnQueue` and the loop of `RecyConnThreadFunc`.
-- Connection objects live in `conn`, and `next` is the first address that no object has.
-- Counters of the type `size_t` count objects in memory: they are not wrapped at 2^64 from below.
pub mod Invariant
pub mod Closing
pub mod Recycle
pub mod Lifetime
mod Tests
use my_nignx.Prelude.{
  ℕ, zero, suc, ◌+◌, ◌≤◌, ◌<◌, Bool, true, false, ◌&&◌, ◌||◌, not, List, [], ◌∷◌, ◌++◌, Option,
  none, some, ltb, leb, ◌==◌, if◌then◌else◌, ℤ, pos, negsuc, decr, ltb_ℤ, eqb_ℤ, contains, update,
  size_decr,
}
use my_nignx.Conn.{Connection, pkg_hd_init, nullptr, nowhere, unset, next_sequence, put_one_to_free}
use my_nignx.Epoll.{epoll_oper_event, ctl_del, bc_set}

pub record Pool : Type 0 where
  pub conn : ℕ → Connection
  pub next : ℕ
  pub connection_list : List ℕ
  pub free_list : List ℕ
  pub total_count : ℕ
  pub free_count : ℕ
  pub online_count : ℤ
  pub recy_list : List ℕ
  pub recy_count : ℕ
  pub delay_time : ℕ

-- A process that calls `exit(-1)` has no state after it.
abbrev pub exits {ℓ} : {A : Type ℓ} → Option A
exits = none

-- `connection_t(-1)`. The constructor sets the descriptor and the sequence; the fields that it leaves
-- unset are given the values of the type.
abbrev pub new_connection : Connection
new_connection = record {
  fd = negsuc 0;
  rhandler = unset;
  whandler = unset;
  sequence = 0;
  events = 0;
  curstat = pkg_hd_init;
  headerinfo = nullptr;
  msgrecv = none;
  recvbuf = nowhere;
  recvlen = 0;
  recvlen_already = 0;
  msgsend = none;
  sendbuf = none;
  throwsend_count = pos 0;
  sendlen = 0;
  sendlen_suppose = 0;
  sendlen_already = 0;
  isend_count = pos 0;
  listenitem = none;
  inrevy_time = 0;
  in_recy_list = false;
  ping_update_time = 0;
  istimeout = false;
}

abbrev pub set_conn : ℕ → Connection → Pool → Pool
set_conn c k p = record p { conn = update p.conn c k }

abbrev pub create : Pool → Pool
create p = record p {
  conn = update p.conn p.next new_connection;
  next = suc p.next;
  connection_list = p.connection_list ++ (p.next ∷ []);
}

-- `connectpool_init`: the loop, then the two counters.
unfoldable pub init_loop : ℕ → Pool → Pool
init_loop zero p = p
init_loop (suc n) p = init_loop n (record (create p) { free_list = p.free_list ++ (p.next ∷ []) })

unfoldable pub connectpool_init : ℕ → Pool → Pool
unfolding init_loop
connectpool_init n p = record (init_loop n p) { total_count = n; free_count = n }

-- `connectpool_clean` deletes every object and empties the list.
unfoldable pub connectpool_clean : Pool → Pool
connectpool_clean p = record p { connection_list = [] }

abbrev pub take_free : Pool → List ℕ → ℕ × Pool
take_free p [] = (p.next, record (create p) { total_count = p.total_count + 1 })
take_free p (c ∷ rest) = (c, record p { free_list = rest; free_count = size_decr p.free_count })

unfoldable pub get_connection_item : Pool → ℕ × Pool
get_connection_item p = take_free p p.free_list

unfoldable pub free_connection_item : ℕ → Pool → Pool
free_connection_item c p = record p {
  free_list = p.free_list ++ (c ∷ []);
  free_count = p.free_count + 1;
}

-- The argument `closed` says whether `close` succeeds.
unfoldable pub close_connection : Bool → ℕ → Pool → Option Pool
close_connection closed c p =
    let k = p.conn c in
    if eqb_ℤ k.fd (negsuc 0) || k.istimeout
    then exits
    else (if closed
        then some (
            free_connection_item c
              (set_conn c (record k { fd = negsuc 0; sequence = next_sequence k.sequence }) p))
        else exits)

unfoldable pub in_recy_conn_queue : ℕ → ℕ → Pool → Pool
in_recy_conn_queue now c p =
    let k = p.conn c in
    if k.in_recy_list
    then p
    else (if contains c p.recy_list then p else record p {
      conn = update p.conn c (record k { in_recy_list = true; inrevy_time = now });
      recy_count = p.recy_count + 1;
      recy_list = p.recy_list ++ (c ∷ []);
    })

-- The fields that a close changes before the connection is queued.
abbrev pub shut_down : Connection → Connection
shut_down k =
    let k' = record (epoll_oper_event ctl_del 0 bc_set k) { fd = negsuc 0 } in
    if ltb_ℤ (pos 0) k.throwsend_count
    then record k' { throwsend_count = decr k.throwsend_count }
    else k'

unfoldable pub close_accepted_connection : Bool → ℕ → Bool → ℕ → Pool → Option Pool
unfolding epoll_oper_event
close_accepted_connection closed now istimeout_close c p =
    let k = p.conn c in
    if eqb_ℤ k.fd (negsuc 0)
    then some p
    else (if not istimeout_close && k.istimeout
        then some p
        else (if closed
            then some (
                in_recy_conn_queue now c (record p {
                  conn = update p.conn c (shut_down k);
                  online_count = decr p.online_count;
                }))
            else exits))

-- A connection leaves the recycling list for the free list.
abbrev pub give_back : ℕ → Pool → Pool
give_back c p = free_connection_item c (set_conn c (put_one_to_free (p.conn c)) p)

-- The pass over the recycling list while the process runs; `clock i` is what `time(NULL)` returns
-- in round `i`. The list argument is what is left of the recycling list, and the result's list is
-- what stays in it.
unfoldable pub recycle_loop : (ℕ → ℕ) → ℕ → List ℕ → Pool → List ℕ × Pool
recycle_loop clock i [] p = ([], p)
recycle_loop clock i (c ∷ cs) p =
    let due = ltb (p.delay_time + (p.conn c).inrevy_time) (clock i) in
    let p' = if due then give_back c (record p { recy_count = size_decr p.recy_count }) else p in
    let (kept, q) = recycle_loop clock (i + 1) cs p' in (if due then kept else c ∷ kept, q)

unfoldable pub recycle_pass : (ℕ → ℕ) → Pool → Pool
unfolding recycle_loop
recycle_pass clock p =
    let (kept, q) = recycle_loop clock 0 p.recy_list p in record q { recy_list = kept }

-- The pass when the thread is told to stop: everything is given back, and the counter is left.
drain_loop : List ℕ → Pool → Pool
drain_loop [] p = p
drain_loop (c ∷ cs) p = drain_loop cs (give_back c p)

unfoldable pub recycle_drain : Pool → Pool
unfolding drain_loop
recycle_drain p = record (drain_loop p.recy_list p) { recy_list = [] }

-- One round of the thread's loop, with the lock taken.
unfoldable pub recy_conn_round : Bool → (ℕ → ℕ) → Pool → Pool
unfolding recycle_pass recycle_drain
recy_conn_round stop clock p =
    if ltb 0 p.recy_count then (if stop then recycle_drain p else recycle_pass clock p) else p
