-- ===== src/Pool/Invariant.antt =====
-- The invariant of the connection pool: every object that the pool made stands once in the list of
-- all objects, and is in use, free, or waiting to be recycled, never two of these.
use my_nignx.Prelude.{
  ℕ, ◌+◌, ◌≤◌, ◌<◌, ◌≡◌, refl, ◌≢◌, inl, inr, List, [], ◌∷◌, arith, length, length-append, ltb,
  if◌then◌else◌, negsuc, count, count-append, contains, contains-count, Bool-cases,
}
use my_nignx.Conn.{Connection}
use my_nignx.Pool.{Pool, get_connection_item, free_connection_item, set_conn, in_recy_conn_queue}

-- `recy` is the list of the connections that wait to be recycled.
pub record Tidy (p : Pool) (recy : List ℕ) : Type 0 where
  pub listed : (c : ℕ) → count c p.connection_list ≡ (if ltb c p.next then 1 else 0)
  pub once : (c : ℕ) → count c p.free_list + count c recy ≤ count c p.connection_list
  pub closed : (c : ℕ) → 0 < count c p.free_list + count c recy → (p.conn c).fd ≡ negsuc 0
  pub free_counted : p.free_count ≡ length p.free_list
  pub recy_counted : p.recy_count ≡ length recy

abbrev pub IsTidy : Pool → Type 0
IsTidy p = Tidy p p.recy_list

-- A connection that a client or a listening socket has.
abbrev pub InUse : Pool → ℕ → Type 0
InUse p c = (c < p.next) × (count c p.free_list + count c p.recy_list ≡ 0)

get-IsTidy :
    (p : Pool) (xs : List ℕ) → p.free_list ≡ xs → IsTidy p → IsTidy (get_connection_item p).1
unfolding get_connection_item
get-IsTidy p [] e v = record {
  listed = λ c. ground (arith, v.listed c, count-append c p.connection_list (p.next ∷ []));
  once = λ c. ground (arith, v.once c, count-append c p.connection_list (p.next ∷ []));
  closed = λ c h. ground (arith, v.closed c);
  free_counted = ground (arith, v.free_counted);
  recy_counted = ground (arith, v.recy_counted);
}
get-IsTidy p (x ∷ xs) e v = record {
  listed = λ c. ground (arith, v.listed c);
  once = λ c. ground (arith, v.once c);
  closed = λ c h. ground (arith, v.closed c);
  free_counted = ground (arith, v.free_counted);
  recy_counted = ground (arith, v.recy_counted);
}

-- The pool stays tidy when a connection is taken, whether a free one or a new one.
pub get_connection_item-IsTidy : (p : Pool) → IsTidy p → IsTidy (get_connection_item p).1
get_connection_item-IsTidy p v = get-IsTidy p p.free_list refl v

get-InUse :
    (p : Pool) (xs : List ℕ)
    → p.free_list ≡ xs
    → IsTidy p
    → InUse (get_connection_item p).1 (get_connection_item p).0
unfolding get_connection_item
get-InUse p [] e v = ground (arith, v.once p.next, v.listed p.next)
get-InUse p (x ∷ xs) e v = ground (arith, v.once x, v.listed x)

-- Taking a connection gives one that is in use afterwards, and was not before: no two clients ever
-- share an object.
pub get_connection_item-InUse :
    (p : Pool) → IsTidy p → InUse (get_connection_item p).1 (get_connection_item p).0
get_connection_item-InUse p v = get-InUse p p.free_list refl v

pub free-Tidy :
    (c : ℕ) (p : Pool) (recy : List ℕ)
    → c < p.next
    → count c p.free_list + count c recy ≡ 0
    → (p.conn c).fd ≡ negsuc 0
    → Tidy p recy
    → Tidy (free_connection_item c p) recy
unfolding free_connection_item
free-Tidy c p recy made used shut v = record {
  listed = v.listed;
  once = λ d. ground (arith, v.once d, v.listed d, count-append d p.free_list (c ∷ []));
  closed = λ d h. ground (arith, v.closed d, count-append d p.free_list (c ∷ []));
  free_counted = omega (arith, v.free_counted, length-append p.free_list (c ∷ []));
  recy_counted = v.recy_counted;
}

-- Changes to a connection that keep it shut, or to one in use, keep the pool tidy.
pub set_conn-Tidy :
    (c : ℕ) (k : Connection) (p : Pool) (recy : List ℕ)
    → (0 < count c p.free_list + count c recy → k.fd ≡ negsuc 0)
    → Tidy p recy
    → Tidy (set_conn c k p) recy
set_conn-Tidy c k p recy shut v = record {
  listed = v.listed;
  once = v.once;
  closed = λ d h. ground (arith, v.closed d);
  free_counted = v.free_counted;
  recy_counted = v.recy_counted;
}

-- A connection with an open descriptor is in use.
pub open-unused :
    (c : ℕ) (p : Pool)
    → IsTidy p
    → (p.conn c).fd ≢ negsuc 0
    → count c p.free_list + count c p.recy_list ≡ 0
open-unused c p v op = ground (arith, v.closed c)

pub in_recy_conn_queue-IsTidy :
    (now c : ℕ) (p : Pool)
    → c < p.next
    → count c p.free_list ≡ 0
    → (p.conn c).fd ≡ negsuc 0
    → IsTidy p
    → IsTidy (in_recy_conn_queue now c p)
unfolding in_recy_conn_queue
in_recy_conn_queue-IsTidy now c p made used shut v = elim (Bool-cases (p.conn c).in_recy_list) [
  | inl queued ↦ rw queued v
  | inr fresh ↦ elim (Bool-cases (contains c p.recy_list)) [
    | inl there ↦ rw (fresh, there) v
    | inr absent ↦
        rw (fresh, absent)
          (record {
            listed = v.listed;
            once = λ d. ground (
              arith,
              v.once d,
              v.listed d,
              count-append d p.recy_list (c ∷ []),
              contains-count c p.recy_list absent,
            );
            closed = λ d h. ground (arith, v.closed d, count-append d p.recy_list (c ∷ []));
            free_counted = v.free_counted;
            recy_counted = omega (arith, v.recy_counted, length-append p.recy_list (c ∷ []));
          })
  ]
]
