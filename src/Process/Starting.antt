-- ===== src/Process/Starting.antt =====
-- A worker process starts safe.
use my_nignx.Prelude.{
  All, ℕ, zero, suc, ◌+◌, ◌≡◌, refl, ◌∙◌, Bool, true, List, [], ◌∷◌, ◌++◌, some, arith, pos, leb_ℤ,
}
use my_nignx.Epoll.{epoll_oper_event, ctl_add, bc_set, epollin, epollrdhup}
use my_nignx.Pool.{Pool, create, get_connection_item, init_loop, connectpool_init}
use my_nignx.Pool.Invariant.{
  IsTidy, get_connection_item-IsTidy, get_connection_item-InUse, set_conn-Tidy,
}
use my_nignx.Pool.Lifetime.{IsBlank, connectpool_init-IsTidy}
use my_nignx.Timer.Lifetime.{empty_timer, started, Reachable-IsTimer}
use my_nignx.Accept.{Server}
use my_nignx.Accept.Invariant.{get-online}
use my_nignx.Workers.{create_threads}
use my_nignx.Workers.Order.{create-IsOrderly}
use my_nignx.Events.Start.{attach, epoll_event_init}
use my_nignx.Process.{idle_sender}
use my_nignx.Process.Pointers.{touch-Receives}
use my_nignx.Process.Pools.{AreKept, get-Kept, init-Kept}
use my_nignx.Process.Accepting.{listened, listen_loop-keeps}
use my_nignx.Process.Worlds.{IsSafeWorld}

-- The pool while the listening sockets are registered.
pub record IsNew (p : Pool) : Type 0 where
  pub tidy : IsTidy p
  pub kept : AreKept p
  pub no_clients : p.online_count ≡ pos 0

listened-IsNew : (i fd : ℕ) (p : Pool) → IsNew p → IsNew (listened i fd p)
unfolding epoll_oper_event
listened-IsNew i fd p v =
    let g = get_connection_item p in
    let k = epoll_oper_event ctl_add (epollin + epollrdhup) bc_set (attach i fd (g.1.conn g.0)) in
    let u = get_connection_item-InUse p v.tidy in
    record {
      tidy =
          set_conn-Tidy g.0 k g.1 g.1.recy_list (λ h. absurd (omega (arith, u.1)))
            (get_connection_item-IsTidy p v.tidy);
      kept = touch-Receives g.1.next g.0 k g.1.conn refl (get-Kept p v.kept);
      no_clients = get-online p ∙ v.no_clients;
    }

online-init : (n : ℕ) (p : Pool) → (init_loop n p).online_count ≡ p.online_count
unfolding init_loop
online-init zero p = refl
online-init (suc n) p =
    online-init n (record (create p) { free_list = p.free_list ++ (p.next ∷ []) })

filled-IsNew :
    (n : ℕ) (blank : Pool)
    → IsBlank blank
    → blank.online_count ≡ pos 0
    → IsNew (connectpool_init n blank)
unfolding connectpool_init
filled-IsNew n blank b o = record {
  tidy = (connectpool_init-IsTidy n blank b).0;
  kept = init-Kept n blank (λ c h. absurd (omega (arith, h, b.none_made)));
  no_clients = online-init n blank ∙ o;
}

pub started-IsNew :
    (registers : ℕ → Bool) (n : ℕ) (fds cs : List ℕ) (blank q : Pool)
    → IsBlank blank
    → blank.online_count ≡ pos 0
    → epoll_event_init true registers n fds blank ≡ some (cs, q)
    → IsNew q
unfolding epoll_event_init
started-IsNew registers n fds cs blank q b o e =
    let h : All (λ r. IsNew r.1) (epoll_event_init true registers n fds blank) =
      listen_loop-keeps IsNew registers 0 fds (connectpool_init n blank) listened-IsNew
        (filled-IsNew n blank b o) in
    rw e at h

no_clients_fit : (n : ℕ) → leb_ℤ (pos 0) (pos n) ≡ true
no_clients_fit n = ground arith

pub started-safe :
    (threads wait : ℕ) (q : Pool) (s : Server)
    → IsNew q
    → IsSafeWorld (record {
      server = record s { pool = q; timer = empty_timer wait };
      sender = idle_sender q;
      workers = create_threads threads;
    })
unfolding create_threads
started-safe threads wait q s v =
    let w = create-IsOrderly threads in
    record {
      sound = record {
        server = record {
          tidy = v.tidy;
          timed = Reachable-IsTimer (empty_timer wait) (started wait);
          bounded = rw (v.no_clients) (no_clients_fit s.worker_connections);
        };
        queue_counted = refl;
      };
      pointed = record { receives = v.kept; timed = tt };
      at_work = record { queued = tt; in_hand = λ i. tt; busy = w.busy };
      listed = tt;
    }
