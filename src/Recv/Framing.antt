-- ===== src/Recv/Framing.antt =====
-- What a byte stream means: the packets in it. The machine of net/socket_request.cxx is proved to
-- compute this in Machine.antt.
use my_nignx.Prelude.{
  ℕ, ◌-◌, ◌≤◌, ◌<◌, ◌≡◌, refl, sym, ap, ◌∙◌, false, List, [], ◌∷◌, ◌++◌, append-nil, append_assoc,
  arith, length, length-append, ltb, ◌==◌, if◌then◌else◌, get_or-append, take, drop,
  take-append-drop, length-take,
}
use my_nignx.Conn.{pkg_header_len}
use my_nignx.Recv.{pkg_len, is_bad_len}

-- The bytes of a packet that is not complete yet, and the packets completed.
abbrev pub Decoded : Type 0
Decoded = List ℕ × List (List ℕ)

-- What to do with the bytes of a packet so far: keep them, drop a header with a bad length, or give
-- out a packet as long as its header says.
unfoldable pub settle : List ℕ → Decoded
settle x =
    if ltb (length x) pkg_header_len
    then (x, [])
    else (if is_bad_len (pkg_len x)
        then ([], [])
        else (if length x == pkg_len x then ([], x ∷ []) else (x, [])))

-- Bytes one at a time.
unfoldable pub decode : List ℕ → List ℕ → Decoded
decode buf [] = (buf, [])
decode buf (b ∷ bs) =
    let (buf', out) = settle (buf ++ (b ∷ [])) in
    let (rest, more) = decode buf' bs in (rest, out ++ more)

-- A packet under way, and how many bytes its present part still wants.
abbrev pub IsPartial : List ℕ → Type 0
IsPartial x = settle x ≡ (x, [])

abbrev pub wanted : List ℕ → ℕ
wanted x = if ltb (length x) pkg_header_len then pkg_header_len - length x else pkg_len x - length x

pub pkg_len-append : (x y : List ℕ) → 8 ≤ length x → pkg_len (x ++ y) ≡ pkg_len x
pkg_len-append x y h =
    omega (arith, get_or-append x y 0 0 (omega arith), get_or-append x y 1 0 (omega arith))

-- Fewer bytes than wanted leave the packet under way.
settle_short : (x bs : List ℕ) → IsPartial x → length bs < wanted x → IsPartial (x ++ bs)
unfolding settle
settle_short x bs p h = ground (arith, length-append x bs, pkg_len-append x bs)

wanted-append : (x bs : List ℕ) → length bs < wanted x → wanted (x ++ bs) ≡ wanted x - length bs
wanted-append x bs h = ground (arith, length-append x bs, pkg_len-append x bs)

-- Bytes up to as many as wanted are settled at once.
pub decode-settle :
    (x bs : List ℕ) → IsPartial x → length bs ≤ wanted x → decode x bs ≡ settle (x ++ bs)
unfolding decode
decode-settle x [] p h = sym (ap settle (append-nil x) ∙ p)
decode-settle x (b ∷ []) p h = ground (arith, append-nil (settle (x ++ (b ∷ []))).1)
decode-settle x (b ∷ c ∷ bs) p h =
    let short = settle_short x (b ∷ []) p (omega arith) in
    let ih =
      decode-settle (x ++ (b ∷ [])) (c ∷ bs) short (omega (arith, wanted-append x (b ∷ []))) in
    rw (short, ih, append_assoc)

pub decode-append :
    (x bs cs : List ℕ)
    → let (x', out) = decode x bs in
      let (x'', more) = decode x' cs in decode x (bs ++ cs) ≡ (x'', out ++ more)
unfolding decode
decode-append x [] cs = refl
decode-append x (b ∷ bs) cs = simp (decode-append (settle (x ++ (b ∷ []))).0 bs cs, append_assoc)

-- A packet that the machine accepts: at least a header, at most 29000 bytes, and as long as its
-- header says.
pub record IsPacket (p : List ℕ) : Type 0 where
  pub long_enough : 8 ≤ length p
  pub short_enough : length p ≤ 29000
  pub says : pkg_len p ≡ length p

IsPartial-nil : IsPartial []
unfolding settle
IsPartial-nil = refl

settle-packet : (p : List ℕ) → IsPacket p → settle p ≡ ([], p ∷ [])
unfolding settle
settle-packet p v = ground arith

pub settle_more :
    (y : List ℕ)
    → 8 ≤ length y
    → length y < pkg_len y
    → is_bad_len (pkg_len y) ≡ false
    → settle y ≡ (y, [])
unfolding settle
settle_more y e l good = ground arith

pub settle_whole :
    (y : List ℕ)
    → 8 ≤ length y
    → pkg_len y ≡ length y
    → is_bad_len (pkg_len y) ≡ false
    → settle y ≡ ([], y ∷ [])
unfolding settle
settle_whole y e l good = ground arith

pub settle_header : (y : List ℕ) → length y < 8 → settle y ≡ (y, [])
unfolding settle
settle_header y e = ground arith

IsPartial-header :
    (h body : List ℕ) → length h ≡ 8 → IsPacket (h ++ body) → 0 < length body → IsPartial h
unfolding settle
IsPartial-header h body e v long = ground (arith, v, pkg_len-append h body, length-append h body)

decode-header-body :
    (h body : List ℕ)
    → length h ≡ 8
    → IsPacket (h ++ body)
    → decode [] (h ++ body) ≡ ([], (h ++ body) ∷ [])
decode-header-body h [] e v =
    let long : length (h ++ []) ≤ 8 = rw (append-nil h) (omega arith) in
    decode-settle [] (h ++ []) IsPartial-nil long ∙ settle-packet (h ++ []) v
decode-header-body h (b ∷ bs) e v =
    let partial = IsPartial-header h (b ∷ bs) e v (omega arith) in
    let first = decode-settle [] h IsPartial-nil (omega arith) ∙ partial in
    let enough : length (b ∷ bs) ≤ wanted h =
      (ground (arith, v, pkg_len-append h (b ∷ bs), length-append h (b ∷ bs))) in
    rw (decode-append [] h (b ∷ bs), first)
      (decode-settle h (b ∷ bs) partial enough ∙ settle-packet (h ++ (b ∷ bs)) v)

-- One packet, read from the start, is given out, and the next one starts afresh.
decode-packet : (p : List ℕ) → IsPacket p → decode [] p ≡ ([], p ∷ [])
decode-packet p v =
    let e = take-append-drop 8 p in
    rw e at (decode-header-body (take 8 p) (drop 8 p) (omega (arith, length-take 8 p, v)) (rw e v))

abbrev pub concat : List (List ℕ) → List ℕ
concat [] = []
concat (p ∷ ps) = p ++ concat ps

abbrev pub AllPackets : List (List ℕ) → Type 0
AllPackets [] = Unit {0}
AllPackets (p ∷ ps) = IsPacket p × AllPackets ps

-- The packets of a stream of packets are those packets.
pub decode-concat : (ps : List (List ℕ)) → AllPackets ps → decode [] (concat ps) ≡ ([], ps)
decode-concat [] v = unfold decode in refl
decode-concat (p ∷ ps) v =
    rw (decode-append [] p (concat ps), decode-packet p v.0, decode-concat ps v.1)
