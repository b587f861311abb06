-- ===== src/Process/Pointers.antt =====
-- The pointers to connection objects that a worker process holds, apart from the pool's own: in
-- messages and in the timer.
use my_nignx.Prelude.{
  Every, weaken-Every, All, weaken-All, ℕ, ◌<◌, ◌≤◌, ◌≡◌, List, arith, ltb, ◌==◌, Bool-cases, inl,
  inr, update,
}
use my_nignx.Conn.{Connection, Message, MsgHeader}
use my_nignx.Timer.{Entry}
use my_nignx.Accept.{Server}

-- The object that a header names is one of the first `n`.
abbrev pub Names : ℕ → MsgHeader → Type 0
Names n h = h.lp_curconn < n

abbrev pub NamesIn : ℕ → Message → Type 0
NamesIn n m = Names n m.header

abbrev pub NamesAt : ℕ → Entry → Type 0
NamesAt n e = Names n e.1

-- The message that an object receives.
abbrev pub Receives : ℕ → (ℕ → Connection) → Type 0
Receives n conn = (c : ℕ) → c < n → All (NamesIn n) (conn c).msgrecv

-- A change of one object, by one whose message is in order.
pub update-Receives :
    (n c : ℕ) (k : Connection) (conn : ℕ → Connection)
    → All (NamesIn n) k.msgrecv
    → Receives n conn
    → Receives n (update conn c k)
update-Receives n c k conn h v d made = elim (Bool-cases (c == d)) [
  | inl same ↦ rw same h
  | inr other ↦ rw other (v d made)
]

pub record IsPointed (s : Server) : Type 0 where
  pub receives : Receives s.pool.next s.pool.conn
  pub timed : Every (NamesAt s.pool.next) s.timer.map

pub weaken-Receives :
    (m n : ℕ) (conn : ℕ → Connection)
    → m ≤ n
    → ((c : ℕ) → m ≤ c → c < n → All (NamesIn n) (conn c).msgrecv)
    → Receives m conn
    → Receives n conn
weaken-Receives m n conn more fresh v c made = elim (Bool-cases (ltb c m)) [
  | inl old ↦
      weaken-All (NamesIn m) (NamesIn n) (conn c).msgrecv (λ a h. omega arith) (v c (ground arith))
  | inr new ↦ fresh c (ground arith) made
]

pub weaken-timed : (m n : ℕ) (es : List Entry) → m ≤ n → Every (NamesAt m) es → Every (NamesAt n) es
weaken-timed m n es more v = weaken-Every (NamesAt m) (NamesAt n) es (λ e h. omega arith) v

-- A change that leaves the object's message.
pub touch-Receives :
    (n c : ℕ) (k : Connection) (conn : ℕ → Connection)
    → k.msgrecv ≡ (conn c).msgrecv
    → Receives n conn
    → Receives n (update conn c k)
touch-Receives n c k conn e v d made = elim (Bool-cases (c == d)) [
  | inl same ↦ let i : c ≡ d = ground arith in rw (same, e) (rw i (v d made))
  | inr other ↦ rw other (v d made)
]
