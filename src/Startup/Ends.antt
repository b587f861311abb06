-- ===== src/Startup/Ends.antt =====
-- Why `main` ends, and what `freeresource` leaves (app/nginx.cxx).
use my_nignx.Prelude.{
  ◌≡◌, ◌≢◌, refl, true, false, ◌||◌, List, [], none, some, Bool-cases, inl, inr, ◌⊎◌, ℤ, pos,
  negsuc, eqb_ℤ, arith,
}
use my_nignx.Conf.{ConfItem, load}
use my_nignx.Log.{stderr_fd}
use my_nignx.Signals.{signals, init_signals}
use my_nignx.Listen.{Settings, Sockets, initialize}
use my_nignx.Daemon.{Daemon, daemon_process}
use my_nignx.Startup.{Calls, Resources, freeresource}

-- Why `main` ends with an exit code.
pub data Cause (e : Calls) (d : Daemon) (c : Settings) (s : Sockets) : ℤ → Type 0 where
  no_config : (items : List ConfItem) → load e.file [] ≡ some (false, items) → Cause e d c s (pos 2)
  no_handlers : (init_signals e.handles signals).0 ≢ pos 0 → Cause e d c s (pos 1)
  no_sockets :
      (items : List ConfItem) (c' : Settings) (s' : Sockets)
      → load e.file [] ≡ some (true, items)
      → initialize items e.sockets c s ≡ some (false, c', s')
      → Cause e d c s (pos 1)
  no_daemon : (daemon_process e.daemon d).0 ≡ negsuc 0 → Cause e d c s (pos 1)
  has_daemon : (daemon_process e.daemon d).0 ≡ pos 1 → Cause e d c s (pos 0)

-- No copies are owned any more, and no descriptor of a log but standard error's is open.
pub record IsFreed (r : Resources) : Type 0 where
  pub no_copies : r.copies ≡ none
  pub log_closed : (r.log.fd ≡ stderr_fd) ⊎ (r.log.fd ≡ negsuc 0)

pub eqb_ℤ_equal : (a b : ℤ) → eqb_ℤ a b ≡ true → a ≡ b
eqb_ℤ_equal a b h = ground arith

pub eqb_ℤ_apart : (a b : ℤ) → eqb_ℤ a b ≡ false → a ≢ b
eqb_ℤ_apart a b h = ground arith

pub freeresource-IsFreed : (r : Resources) → IsFreed (freeresource r).1
unfolding freeresource
freeresource-IsFreed r = elim (Bool-cases (eqb_ℤ r.log.fd stderr_fd || eqb_ℤ r.log.fd (negsuc 0))) [
  | inl kept ↦ rw kept (record { no_copies = refl; log_closed = either r.log.fd kept })
  | inr shut ↦ rw shut (record { no_copies = refl; log_closed = inr refl })
]
  where
    either :
        (fd : ℤ)
        → (eqb_ℤ fd stderr_fd || eqb_ℤ fd (negsuc 0)) ≡ true
        → (fd ≡ stderr_fd) ⊎ (fd ≡ negsuc 0)
    either fd h = elim (Bool-cases (eqb_ℤ fd stderr_fd)) [
      | inl two ↦ inl (eqb_ℤ_equal fd stderr_fd two)
      | inr other ↦ inr (eqb_ℤ_equal fd (negsuc 0) (ground arith))
    ]

pub freeresource_sockets : (r : Resources) → (freeresource r).1.sockets ≡ r.sockets
unfolding freeresource
freeresource_sockets r = elim (Bool-cases (eqb_ℤ r.log.fd stderr_fd || eqb_ℤ r.log.fd (negsuc 0))) [
  | inl kept ↦ rw kept refl
  | inr shut ↦ rw shut refl
]
