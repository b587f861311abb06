-- ===== src/Listen/Opening.antt =====
-- Opening the listening sockets: it ends, and no descriptor is lost.
use my_nignx.Prelude.{
  ℕ, zero, suc, ◌+◌, ◌≡◌, refl, count, count-append, ==_refl, ap, Bool, true, false, List, [], ◌∷◌,
  ◌++◌, Option, none, some, arith, length, length-append, Bool-cases, inl, inr, ℤ, pos, pos_part,
  ltb,
}
use my_nignx.Conf.{ConfItem}
use my_nignx.Listen.{
  Listening, SocketCalls, Sockets, listen_name, bind_socket, opened, give_up, set_up, go_on,
  open_loop, if_any, open_listen_sockets,
}
use my_nignx.Listen.Reading.{AllInts, get_int_total}

abbrev pub fds_of : List Listening → List ℕ
fds_of [] = []
fds_of (l ∷ ls) = l.fd ∷ fds_of ls

fds_of-append : (xs ys : List Listening) → fds_of (xs ++ ys) ≡ fds_of xs ++ fds_of ys
fds_of-append [] ys = refl
fds_of-append (l ∷ ls) ys = ap (◌∷◌ l.fd) (fds_of-append ls ys)

-- The descriptors that are open are those of the list.
abbrev pub NoneLost : Sockets → Type 0
NoneLost s = (fd : ℕ) → count fd s.open_fds ≡ count fd (fds_of s.listen_list)

-- Rounds that should open `n` sockets return, lose no descriptor, and open all of them if they
-- report success.
pub record Opens (n : ℕ) (s : Sockets) (r : Option (Bool × Sockets)) : Type 0 where
  pub ok : Bool
  pub after : Sockets
  pub returns : r ≡ some (ok, after)
  pub none_lost : NoneLost after
  pub all_open : ok ≡ true → length after.listen_list ≡ length s.listen_list + n

-- The descriptor just opened is given back.
give_up-Opens : (fd : ℕ) (s : Sockets) → NoneLost s → Opens 1 s (some (give_up fd (opened fd s)))
give_up-Opens fd s h = record {
  ok = false;
  after = s;
  returns = rw (==_refl fd) refl;
  none_lost = h;
  all_open = λ e. cc;
}

bind_socket-Opens :
    (e : SocketCalls) (fd : ℕ) (port : ℤ) (s : Sockets)
    → NoneLost s
    → Opens 1 s (some (bind_socket e fd port (opened fd s)))
bind_socket-Opens e fd port s h = elim (Bool-cases e.binds) [
  | inl bound ↦ elim (Bool-cases e.listens) [
    | inl fine ↦
        let l : List Listening = record { fd = fd; port = port } ∷ [] in
        record {
          ok = true;
          after = record { listen_list = s.listen_list ++ l; open_fds = fd ∷ s.open_fds };
          returns = rw (bound, fine) refl;
          none_lost = λ k.
              rw (fds_of-append s.listen_list l)
                (ground (arith, h k, count-append k (fds_of s.listen_list) (fd ∷ [])));
          all_open = λ e. length-append s.listen_list l;
        }
    | inr fails ↦ rw (bound, fails) (give_up-Opens fd s h)
  ]
  | inr fails ↦ rw fails (give_up-Opens fd s h)
]

set_up-Opens :
    (items : List ConfItem) (i : ℕ) (e : SocketCalls) (fd : Option ℕ) (s : Sockets)
    → AllInts items
    → NoneLost s
    → Opens 1 s (set_up items i e fd s)
set_up-Opens items i e none s h v = record {
  ok = false;
  after = s;
  returns = refl;
  none_lost = v;
  all_open = λ e. cc;
}
set_up-Opens items i e (some fd) s h v = elim (Bool-cases e.reuseaddr) [
  | inl addr ↦ elim (Bool-cases e.reuseport) [
    | inl port ↦ elim (Bool-cases e.nonblocking) [
      | inl fine ↦
          let r = get_int_total items (listen_name i) (pos (9000 + i)) h in
          rw (addr, port, fine, r.1) (bind_socket-Opens e fd r.0 s v)
      | inr fails ↦ rw (addr, port, fails) (give_up-Opens fd s v)
    ]
    | inr fails ↦ rw (addr, fails) (give_up-Opens fd s v)
  ]
  | inr fails ↦ rw fails (give_up-Opens fd s v)
]

go_on-Opens :
    (k m n : ℕ) (s : Sockets) (r : Option (Bool × Sockets))
    (rest : Sockets → Option (Bool × Sockets))
    → Opens m s r
    → ((t : Sockets) → NoneLost t → Opens n t (rest t))
    → k ≡ m + n
    → Opens k s (go_on r rest)
go_on-Opens k m n s r rest v each eq = elim (Bool-cases v.ok) [
  | inl fine ↦
      let w = each v.after v.none_lost in
      record {
        ok = w.ok;
        after = w.after;
        returns = rw (v.returns, fine) w.returns;
        none_lost = w.none_lost;
        all_open = λ e. omega (arith, w.all_open e, v.all_open fine, eq);
      }
  | inr fails ↦ record {
    ok = false;
    after = v.after;
    returns = rw (v.returns, fails) refl;
    none_lost = v.none_lost;
    all_open = λ e. cc;
  }
]

open_loop-Opens :
    (items : List ConfItem) (calls : ℕ → SocketCalls) (n i : ℕ) (s : Sockets)
    → AllInts items
    → NoneLost s
    → Opens n s (open_loop items calls n i s)
unfolding open_loop
open_loop-Opens items calls zero i s h v = record {
  ok = true;
  after = s;
  returns = refl;
  none_lost = v;
  all_open = λ e. omega arith;
}
open_loop-Opens items calls (suc n) i s h v =
    go_on-Opens (suc n) 1 n s (set_up items i (calls i) (calls i).socket s)
      (open_loop items calls n (i + 1)) (set_up-Opens items i (calls i) (calls i).socket s h v)
      (λ t w. open_loop-Opens items calls n (i + 1) t h w) (omega arith)

if_any-Opens : (s : Sockets) → NoneLost s → Opens 0 s (if_any s)
if_any-Opens s v = record {
  ok = ltb 0 (length s.listen_list);
  after = s;
  returns = refl;
  none_lost = v;
  all_open = λ e. omega arith;
}

-- With such a configuration and no descriptor lost so far, and whatever the system calls return: the
-- listening sockets are opened or the failure is reported; no descriptor is lost on the way; and a
-- success means that there is one more listening socket for each port that was asked for.
pub open_listen_sockets-Opens :
    (items : List ConfItem) (calls : ℕ → SocketCalls) (port_count : ℤ) (s : Sockets)
    → AllInts items
    → NoneLost s
    → Opens (pos_part port_count) s (open_listen_sockets items calls port_count s)
unfolding open_listen_sockets
open_listen_sockets-Opens items calls port_count s h v =
    let n = pos_part port_count in
    go_on-Opens n n 0 s (open_loop items calls n 0 s) if_any (open_loop-Opens items calls n 0 s h v)
      if_any-Opens (omega arith)
