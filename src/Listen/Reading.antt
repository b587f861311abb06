-- ===== src/Listen/Reading.antt =====
-- Reading the settings: `ReadConf` of net/c_socket.cxx ends with settings in their bounds.
use my_nignx.Prelude.{
  ◌>>=◌, ℕ, ◌≡◌, refl, ap, ◌∙◌, true, List, [], ◌∷◌, Option, some, arith, if◌then◌else◌, Bool-cases,
  inl, inr, ℤ, pos, leb_ℤ, ltb_ℤ, eqb_ℤ, codes,
}
use my_nignx.Text.{same_string}
use my_nignx.Conf.{ConfItem, get_string, get_int, atoi, value_or}
use my_nignx.Listen.{Settings, read_waittime, read_conf}

-- Every value of the configuration is an `int`, as `atoi` reads it.
abbrev pub AllInts : List ConfItem → Type 0
AllInts [] = Unit {0}
AllInts (i ∷ rest) = ((n : ℤ) × (atoi i.itemvalue ≡ some n)) × AllInts rest

pub get_int_total :
    (items : List ConfItem) (name : List ℕ) (def : ℤ)
    → AllInts items
    → (n : ℤ) × (get_int items name def ≡ some n)
unfolding get_int get_string
get_int_total [] name def h = (def, refl)
get_int_total (i ∷ rest) name def h = elim (Bool-cases (same_string i.itemname name)) [
  | inl same ↦ (
    h.0.0,
    ap (λ b. value_or def (if b then some i.itemvalue else get_string rest name)) same ∙ h.0.1,
  )
  | inr other ↦
      let r = get_int_total rest name def h.1 in
      (
        r.0,
        ap (λ b. value_or def (if b then some i.itemvalue else get_string rest name)) other ∙ r.1,
      )
]

-- The waiting time is at least five seconds where the timer is on.
abbrev pub IsWaiting : Settings → Type 0
IsWaiting s = eqb_ℤ s.time_enable (pos 1) ≡ true → leb_ℤ (pos 5) s.waittime ≡ true

at_least_five : (n : ℤ) → leb_ℤ (pos 5) (if ltb_ℤ (pos 5) n then n else pos 5) ≡ true
at_least_five n = ground arith

read_waittime-IsWaiting :
    (items : List ConfItem) (s : Settings)
    → AllInts items
    → (s' : Settings) × (read_waittime items s ≡ some s') × IsWaiting s'
read_waittime-IsWaiting items s h = elim (Bool-cases (eqb_ℤ s.time_enable (pos 1))) [
  | inl on ↦
      let r = get_int_total items (codes "Sock_MaxWaitTime") s.waittime h in
      let n = if ltb_ℤ (pos 5) r.0 then r.0 else pos 5 in
      (record s { waittime = n }, rw (on, r.1) refl, λ e. at_least_five r.0)
  | inr off ↦ (s, rw off refl, λ e. cc)
]

with_int :
    (items : List ConfItem) (name : List ℕ) (def : ℤ) (f : ℤ → Option Settings)
    → AllInts items
    → ((n : ℤ) → (s : Settings) × (f n ≡ some s) × IsWaiting s)
    → (s : Settings) × ((get_int items name def >>= f) ≡ some s) × IsWaiting s
with_int items name def f h k =
    let r = get_int_total items name def h in
    let t = k r.0 in (t.0, ap (λ o. o >>= f) r.1 ∙ t.1, t.2)

-- From a configuration whose values are numbers that an `int` holds, the settings are read, whatever
-- they were before, and if the timer is on then its waiting time is five seconds or more.
pub read_conf-IsWaiting :
    (items : List ConfItem) (s : Settings)
    → AllInts items
    → (s' : Settings) × (read_conf items s ≡ some s') × IsWaiting s'
unfolding read_conf
read_conf-IsWaiting items s h =
    with_int items (codes "worker_connections") s.worker_connections _ h (λ worker.
      with_int items (codes "ListenPortCount") s.port_count _ h (λ ports.
        with_int items (codes "ConnectionsToCreate") s.create_connections_count _ h (λ connections.
          with_int items (codes "Sock_RecyConnectionWaitTime") s.delay_time _ h (λ delay.
            with_int items (codes "Sock_WaitTimeEnable") (pos 1) _ h (λ enable.
              read_waittime-IsWaiting items
                (record s {
                  worker_connections = worker;
                  port_count = ports;
                  create_connections_count = connections;
                  delay_time = delay;
                  time_enable = enable;
                })
                h)))))
