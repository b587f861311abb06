-- ===== src/Events/Start.antt =====
-- `epoll_event_init` of net/c_socket.cxx: the pool is filled, and every listening socket gets a
-- connection object that waits for clients.
use my_nignx.Prelude.{
  ℕ, ◌+◌, ◌≡◌, refl, ap, ◌∙◌, ◌≢◌, Bool, true, List, [], ◌∷◌, Option, none, some, if◌then◌else◌,
  arith, count, pos,
}
use my_nignx.Conn.{Connection, accept_handler}
use my_nignx.Epoll.{epoll_oper_event, ctl_add, bc_set, epollin, epollrdhup}
use my_nignx.Pool.{Pool, set_conn, exits, take_free, get_connection_item, connectpool_init}
use my_nignx.Pool.Invariant.{
  IsTidy, InUse, get_connection_item-IsTidy, get_connection_item-InUse, set_conn-Tidy,
}
use my_nignx.Pool.Lifetime.{IsBlank, connectpool_init-IsTidy}

-- The listening socket number `i`, of descriptor `fd`, is attached to a connection object.
abbrev pub attach : ℕ → ℕ → Connection → Connection
attach i fd k = record k { fd = pos fd; listenitem = some i; rhandler = accept_handler }

-- The object is the `p_connitem` of its listening socket.
abbrev pub with_connitem : ℕ → Option (List ℕ × Pool) → Option (List ℕ × Pool)
with_connitem c none = none
with_connitem c (some r) = some (c ∷ r.0, r.1)

-- `registers i` says that `epoll_ctl` succeeds for the listening socket number `i`.
unfoldable pub listen_loop : (ℕ → Bool) → ℕ → List ℕ → Pool → Option (List ℕ × Pool)
listen_loop registers i [] p = some ([], p)
listen_loop registers i (fd ∷ fds) p =
    let r = get_connection_item p in
    let k = epoll_oper_event ctl_add (epollin + epollrdhup) bc_set (attach i fd (r.1.conn r.0)) in
    let rest = listen_loop registers (i + 1) fds (set_conn r.0 k r.1) in
    if registers i then with_connitem r.0 rest else exits

-- The connections of the listening sockets, in their order, and the pool.
unfoldable pub epoll_event_init : Bool → (ℕ → Bool) → ℕ → List ℕ → Pool → Option (List ℕ × Pool)
epoll_event_init creates registers connections fds p =
    if creates then listen_loop registers 0 fds (connectpool_init connections p) else exits

-- A connection object that waits for the clients of the listening socket number `i`.
pub record Waits (i fd c : ℕ) (p : Pool) : Type 0 where
  pub used : InUse p c
  pub open_fd : (p.conn c).fd ≡ pos fd
  pub accepts : (p.conn c).rhandler ≡ accept_handler
  pub item : (p.conn c).listenitem ≡ some i

-- The listening sockets, numbered from `i` on, have the connections `cs`, each its own.
pub data Serves (p : Pool) : ℕ → List ℕ → List ℕ → Type 0 where
  no_sockets : (i : ℕ) → Serves p i [] []
  one_more :
      (i fd c : ℕ) (fds cs : List ℕ)
      → Waits i fd c p
      → count c cs ≡ 0
      → Serves p (i + 1) fds cs
      → Serves p i (fd ∷ fds) (c ∷ cs)

-- The connections in use in `p` are left alone, and are not given out again.
abbrev Spares : Pool → List ℕ → Pool → Type 0
Spares p cs q = (d : ℕ) → InUse p d → InUse q d × (q.conn d ≡ p.conn d) × (count d cs ≡ 0)

record Served (p : Pool) (i : ℕ) (fds : List ℕ) (r : Option (List ℕ × Pool)) : Type 0 where
  cs : List ℕ
  q : Pool
  returns : r ≡ some (cs, q)
  tidy : IsTidy q
  serves : Serves q i fds cs
  spares : Spares p cs q

get-Spares :
    (p : Pool) (d : ℕ)
    → IsTidy p
    → InUse p d
    → InUse (get_connection_item p).1 d
      × ((get_connection_item p).0 ≢ d)
      × ((get_connection_item p).1.conn d ≡ p.conn d)
unfolding get_connection_item
get-Spares p d v u = get_cases p.free_list refl
  where
    get_cases :
        (xs : List ℕ)
        → p.free_list ≡ xs
        → InUse (take_free p xs).1 d
          × ((take_free p xs).0 ≢ d)
          × ((take_free p xs).1.conn d ≡ p.conn d)
    get_cases [] e = ground arith
    get_cases (x ∷ xs) e = ground arith

abbrev registered : ℕ → ℕ → ℕ → Pool → Pool
registered i fd c p =
    set_conn c (epoll_oper_event ctl_add (epollin + epollrdhup) bc_set (attach i fd (p.conn c))) p

module _ (registers : ℕ → Bool) (all : (i : ℕ) → registers i ≡ true) where
  other : (d c : ℕ) (k : Connection) (p : Pool) → c ≢ d → (set_conn c k p).conn d ≡ p.conn d
  other d c k p ne = ground arith

  attached-Waits :
      (i fd c : ℕ) (p q : Pool)
      → InUse q c
      → q.conn c ≡ (registered i fd c p).conn c
      → Waits i fd c q
  unfolding epoll_oper_event
  attached-Waits i fd c p q u e = record {
    used = u;
    open_fd = ap (λ k. k.fd) e ∙ ground arith;
    accepts = ap (λ k. k.rhandler) e ∙ ground arith;
    item = ap (λ k. k.listenitem) e ∙ ground arith;
  }

  listen-Served :
      (i : ℕ) (fds : List ℕ) (p : Pool) → IsTidy p → Served p i fds (listen_loop registers i fds p)
  unfolding listen_loop
  listen-Served i [] p v = record {
    cs = [];
    q = p;
    returns = refl;
    tidy = v;
    serves = no_sockets i;
    spares = λ d u. (u, refl, refl);
  }
  listen-Served i (fd ∷ fds) p v =
      let g = get_connection_item p in
      let k = epoll_oper_event ctl_add (epollin + epollrdhup) bc_set (attach i fd (g.1.conn g.0)) in
      let p' = set_conn g.0 k g.1 in
      let used' : InUse p' g.0 = get_connection_item-InUse p v in
      let used = get_connection_item-InUse p v in
      let v' : IsTidy p' =
        set_conn-Tidy g.0 k g.1 g.1.recy_list (λ h. absurd (omega (arith, used.1)))
          (get_connection_item-IsTidy p v) in
      let rest = listen-Served (i + 1) fds p' v' in
      let at = rest.spares g.0 used' in
      record {
        cs = g.0 ∷ rest.cs;
        q = rest.q;
        returns = rw (all i, rest.returns) refl;
        tidy = rest.tidy;
        serves =
            one_more i fd g.0 fds rest.cs (attached-Waits i fd g.0 g.1 rest.q at.0 at.1) at.2
              rest.serves;
        spares = λ d u.
            let s = get-Spares p d v u in
            let t = rest.spares d s.0 in
            (t.0, t.1 ∙ other d g.0 k g.1 s.1 ∙ s.2, ground (arith, t.2, s.1));
      }

-- From a blank pool, where the descriptors of epoll can be made and every listening socket can be
-- registered: the start succeeds and leaves the pool tidy, and each listening socket has a connection
-- object of its own, in use, with the socket's descriptor and the handler that accepts clients.
pub epoll_event_init-Serves :
    (registers : ℕ → Bool) (n : ℕ) (fds : List ℕ) (p : Pool)
    → ((i : ℕ) → registers i ≡ true)
    → IsBlank p
    → (cs : List ℕ) × (q : Pool) × (epoll_event_init true registers n fds p ≡ some (cs, q))
      × IsTidy q
      × Serves q 0 fds cs
unfolding epoll_event_init
epoll_event_init-Serves registers n fds p all b =
    let r =
      listen-Served registers all 0 fds (connectpool_init n p) (connectpool_init-IsTidy n p b).0 in
    (r.cs, r.q, r.returns, r.tidy, r.serves)
