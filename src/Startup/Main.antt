-- ===== src/Startup/Main.antt =====
-- How `main` ends, and why.
use my_nignx.Prelude.{
  All, bind_equal-All, ◌>>=◌, ℕ, ◌+◌, ◌≡◌, ◌≢◌, refl, sym, ap, ◌∙◌, Bool, true, false, List, [],
  Option, none, some, if◌then◌else◌, Bool-cases, inl, inr, ◌⊎◌, ℤ, pos, negsuc, eqb_ℤ, codes,
}
use mathlib.Core.Path.{subst}
use my_nignx.Conf.{ConfItem, load, get_int}
use my_nignx.Log.{LogState, init_log}
use my_nignx.Signals.{signals, init_signals}
use my_nignx.Listen.{Settings, Sockets, initialize}
use my_nignx.Title.{sizes, read_string, init_setproctitle, Area, setproctitle, master_title}
use my_nignx.Daemon.{Pids, Daemon, daemon_process}
use my_nignx.Cycle.{Place, start_worker_process, master_process_cycle}
use my_nignx.Startup.{
  Calls, Resources, at_first, End, exits, goes_on, exit_with, run_master, after_daemon, with_title,
  if_listening, with_config, if_loaded, main,
}
use my_nignx.Startup.Ends.{
  Cause, no_config, no_handlers, no_sockets, no_daemon, has_daemon, IsFreed, eqb_ℤ_equal,
  eqb_ℤ_apart, freeresource-IsFreed, freeresource_sockets,
}

module _ (e : Calls) (d : Daemon) (c : Settings) (s : Sockets) where
  -- The sockets are as they were before `main`, or as `Initialize` has left them.
  abbrev pub IsLeft : Sockets → Type 0
  IsLeft t =
      (t ≡ s)
      ⊎ ((items : List ConfItem) × (ok : Bool) × (c' : Settings) × (load e.file []
            ≡ some (true, items))
          × (initialize items e.sockets c s ≡ some (ok, c', t)))

  -- The numbers of the process, if the configuration says `n` of the daemon.
  abbrev pub pids_for : ℤ → Pids
  pids_for n = if eqb_ℤ n (pos 1) then (daemon_process e.daemon d).1.pids else d.pids

  -- The process goes on where `start_worker_process` puts it, with the numbers of processes and of the
  -- daemon that the configuration says, and not after a failed `daemon_process` or as its parent.
  pub record IsServing (place : Place) (items : List ConfItem) (n count : ℤ) : Type 0 where
    pub loaded : load e.file [] ≡ some (true, items)
    pub daemon_says : get_int items (codes "Daemon") (pos 1) ≡ some n
    pub is_child :
        eqb_ℤ n (pos 1) ≡ true
        → ((daemon_process e.daemon d).0 ≢ negsuc 0) × ((daemon_process e.daemon d).0 ≢ pos 1)
    pub counts : get_int items (codes "WorkProcesses") (pos 2) ≡ some count
    pub place_is : place ≡ start_worker_process e.forks e.getpid count (pids_for n)

  -- An end with its cause; or the process goes on.
  abbrev pub Explained : End → Type 0
  Explained (exits code r) = Cause e d c s code × IsFreed r.1 × IsLeft r.1.sockets
  Explained (goes_on place r) =
      ((items : List ConfItem) × (n : ℤ) × (count : ℤ) × IsServing place items n count)
      × IsLeft r.sockets

  exit-Explained :
      (code : ℤ) (r : Resources)
      → Cause e d c s code
      → IsLeft r.sockets
      → All Explained (exit_with code r)
  exit-Explained code r why left =
      (why, freeresource-IsFreed r, subst IsLeft (sym (freeresource_sockets r)) left)

  abbrev IsChild : ℤ → Type 0
  IsChild n =
      eqb_ℤ n (pos 1) ≡ true
      → ((daemon_process e.daemon d).0 ≢ negsuc 0) × ((daemon_process e.daemon d).0 ≢ pos 1)

  module _ (items : List ConfItem) (l : load e.file [] ≡ some (true, items)) (r : Resources)
      (left : IsLeft r.sockets) where
    module _ (n : ℤ) (says : get_int items (codes "Daemon") (pos 1) ≡ some n)
        (child : IsChild n) where
      cycle-Explained :
          (p : Pids)
          → p ≡ pids_for n
          → All Explained
              (do place ← master_process_cycle items e.forks e.getpid p; some (goes_on place r))
      unfolding master_process_cycle
      cycle-Explained p is = count_cases (get_int items (codes "WorkProcesses") (pos 2)) refl
        where
          count_cases :
              (k : Option ℤ)
              → get_int items (codes "WorkProcesses") (pos 2) ≡ k
              → All Explained (do
                place ← (do count ← k; some (start_worker_process e.forks e.getpid count p))
                some (goes_on place r))
          count_cases none g = tt
          count_cases (some count) g = (
            (
              items,
              n,
              count,
              record {
                loaded = l;
                daemon_says = says;
                is_child = child;
                counts = g;
                place_is = ap (start_worker_process e.forks e.getpid count) is;
              },
            ),
            left,
          )

      master-Explained :
          (environ argv : List (List ℕ)) (a : Area) (p : Pids)
          → p ≡ pids_for n
          → All Explained (run_master e environ argv items a p r)
      master-Explained environ argv a p is =
          bind_equal-All Explained (master_title (sizes argv + sizes environ) argv) _ (λ title t.
            bind_equal-All Explained
              (setproctitle (read_string title 0) (sizes argv + sizes environ) a) _
              (λ b u. cycle-Explained p is))

    daemon-Explained :
        (environ argv : List (List ℕ)) (a : Area) (n : ℤ) (o : ℤ × Daemon)
        → get_int items (codes "Daemon") (pos 1) ≡ some n
        → eqb_ℤ n (pos 1) ≡ true
        → daemon_process e.daemon d ≡ o
        → All Explained (after_daemon o e environ argv items a r)
    daemon-Explained environ argv a n (k, d') says on is = elim (Bool-cases (eqb_ℤ k (negsuc 0))) [
      | inl failed ↦ rw failed (
          exit-Explained (pos 1) r (no_daemon (ap (λ x. x.0) is ∙ eqb_ℤ_equal k (negsuc 0) failed))
            left)
      | inr fine ↦ elim (Bool-cases (eqb_ℤ k (pos 1))) [
        | inl parent ↦
            rw (fine, parent)
              (exit-Explained (pos 0) r
                (has_daemon (ap (λ x. x.0) is ∙ eqb_ℤ_equal k (pos 1) parent)) left)
        | inr child ↦
            let first : (daemon_process e.daemon d).0 ≡ k = ap (λ x. x.0) is in
            let pids : d'.pids ≡ pids_for n = rw on (sym (ap (λ x. x.1.pids) is)) in
            rw (fine, child)
              (master-Explained n says
                (λ h. (
                  (λ z. eqb_ℤ_apart k (negsuc 0) fine (sym first ∙ z)),
                  (λ z. eqb_ℤ_apart k (pos 1) child (sym first ∙ z)),
                ))
                environ argv a d'.pids pids)
      ]
    ]

    daemon_cases :
        (environ argv : List (List ℕ)) (a : Area) (n : ℤ)
        → get_int items (codes "Daemon") (pos 1) ≡ some n
        → All Explained (
            if eqb_ℤ n (pos 1)
            then after_daemon (daemon_process e.daemon d) e environ argv items a r
            else run_master e environ argv items a d.pids r)
    daemon_cases environ argv a n says = elim (Bool-cases (eqb_ℤ n (pos 1))) [
      | inl on ↦ rw on (daemon-Explained environ argv a n (daemon_process e.daemon d) says on refl)
      | inr off ↦
          let pids : d.pids ≡ pids_for n = rw off refl in
          rw off (master-Explained n says (λ h. cc) environ argv a d.pids pids)
    ]

  module _ (environ argv : List (List ℕ)) (a : Area) where
    title-Explained :
        (items : List ConfItem) (r : Resources)
        → load e.file [] ≡ some (true, items)
        → IsLeft r.sockets
        → All Explained (with_title e environ argv items a d r)
    title-Explained items r l left =
        bind_equal-All Explained (init_setproctitle environ argv) _ (λ copies i.
          bind_equal-All Explained (get_int items (codes "Daemon") (pos 1)) _ (λ n g.
            daemon_cases items l (record r { copies = some copies }) left environ argv a n g))

    listening-Explained :
        (items : List ConfItem) (r : Resources) (o : Bool × Settings × Sockets)
        → load e.file [] ≡ some (true, items)
        → initialize items e.sockets c s ≡ some o
        → r.sockets ≡ o.2
        → All Explained (if_listening e environ argv items a d r o.0)
    listening-Explained items r (true, c', s') l i same =
        title-Explained items r l (subst IsLeft (sym same) (inr (items, true, c', l, i)))
    listening-Explained items r (false, c', s') l i same =
        exit-Explained (pos 1) r (no_sockets items c' s' l i)
          (subst IsLeft (sym same) (inr (items, false, c', l, i)))

    config-Explained :
        (items : List ConfItem)
        → load e.file [] ≡ some (true, items)
        → All Explained (with_config e environ argv items a d c s)
    config-Explained items l =
        bind_equal-All Explained (init_log items e.opened_log) _ (λ log i. handler_cases log.1)
      where
        handler_cases :
            (g : LogState)
            → All Explained (
                if eqb_ℤ (init_signals e.handles signals).0 (pos 0)
                then (do
                  o ← initialize items e.sockets c s
                  if_listening e environ argv items a d (record (at_first o.2) { log = g }) o.0)
                else exit_with (pos 1) (record (at_first s) { log = g }))
        handler_cases g = elim (Bool-cases (eqb_ℤ (init_signals e.handles signals).0 (pos 0))) [
          | inl fine ↦ rw fine (
              bind_equal-All Explained (initialize items e.sockets c s) _
                (λ o i. listening-Explained items (record (at_first o.2) { log = g }) o l i refl))
          | inr fails ↦ rw fails (
              exit-Explained (pos 1) (record (at_first s) { log = g })
                (no_handlers (eqb_ℤ_apart _ (pos 0) fails)) (inl refl))
        ]

    loaded-Explained :
        (l : Bool × List ConfItem)
        → load e.file [] ≡ some l
        → All Explained (if_loaded e environ argv a d c s l)
    loaded-Explained (true, items) l = config-Explained items l
    loaded-Explained (false, items) l =
        exit-Explained (pos 2) (at_first s) (no_config items l) (inl refl)

-- If `main` ends with an exit code: the copies of arguments and environment are given up, the log is
-- closed unless it is standard error, the sockets are as `Initialize` has left them, open ones
-- included, or untouched, and the code says why: 2 that the configuration cannot be loaded, 1 that a
-- signal's handler cannot be set, the listening sockets cannot be opened or the daemon cannot be made,
-- and 0 that the daemon has been made and this is its parent. If it does not end, the configuration has
-- been loaded, `daemon_process` has succeeded in the child or is not asked for, and the process is
-- where `start_worker_process` puts it for the number of worker processes configured.
pub main-Explained :
    (e : Calls) (environ argv : List (List ℕ)) (a : Area) (d : Daemon) (c : Settings) (s : Sockets)
    → All (Explained e d c s) (main e environ argv a d c s)
unfolding main
main-Explained e environ argv a d c s =
    bind_equal-All (Explained e d c s) (load e.file []) _
      (λ l i. loaded-Explained e d c s environ argv a l i)
