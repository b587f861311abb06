-- ===== src/Logic/Reply.antt =====
-- The replies of socketlogic/c_socketlogic.cxx are packets that the receiving side of the same program
-- would accept.
use my_nignx.Prelude.{
  ℕ, zero, suc, ◌+◌, ◌%◌, ◌^◌, ◌≤◌, ◌≡◌, refl, sym, ap, ◌∙◌, true, List, ◌∷◌, arith, length,
  length-replicate, replicate, take, length-take, take-append-drop, drop, ◌==◌, ==_refl,
  if◌then◌else◌, Bool-cases, inl, inr,
}
use my_nignx.Conn.{MsgHeader, pkg_header_len}
use my_nignx.Recv.{pkg_len}
use my_nignx.Recv.Framing.{IsPacket, pkg_len-append}
use my_nignx.Send.Wire.{packet}
use my_nignx.Crc.{get_crc}
use my_nignx.Logic.{make_reply, msg_code, crc_field, body_len, body_of, is_crc_right}

take-replicate : (n m : ℕ) → n ≤ m → take n (replicate {A = ℕ} m 0) ≡ replicate n 0
take-replicate zero m h = refl
take-replicate (suc n) zero h = absurd (omega arith)
take-replicate (suc n) (suc m) h = ap (◌∷◌ 0) (take-replicate n m (omega arith))

pub pkg_len-reply :
    (code n crc : ℕ) (h : MsgHeader) → n ≤ 28992 → pkg_len (make_reply code n crc h).pkg ≡ 8 + n
unfolding make_reply
pkg_len-reply code n crc h small = omega arith

crc_field-reply :
    (code n crc : ℕ) (h : MsgHeader) → crc_field (make_reply code n crc h).pkg ≡ crc % 2 ^ 32
unfolding make_reply
crc_field-reply code n crc h = omega arith

length-reply : (code n crc : ℕ) (h : MsgHeader) → length (make_reply code n crc h).pkg ≡ 9 + n
unfolding make_reply
length-reply code n crc h = omega (arith, length-replicate {A = ℕ} (n + 1) 0)

msg_code-reply :
    (code n crc : ℕ) (h : MsgHeader) → msg_code (make_reply code n crc h).pkg ≡ code % 2 ^ 16
unfolding make_reply
msg_code-reply code n crc h = omega arith

drop-reply :
    (code n crc : ℕ) (h : MsgHeader)
    → drop pkg_header_len (make_reply code n crc h).pkg ≡ replicate (n + 1) 0
unfolding make_reply
drop-reply code n crc h = refl

body_of-reply :
    (code n crc : ℕ) (h : MsgHeader)
    → n ≤ 28992
    → body_of (make_reply code n crc h).pkg ≡ replicate n 0
body_of-reply code n crc h small =
    let e : body_len (make_reply code n crc h).pkg ≡ n =
      omega (arith, pkg_len-reply code n crc h small) in
    rw (e, drop-reply code n crc h) (take-replicate n (n + 1) (omega arith))

pkg_len-take : (k : ℕ) (m : List ℕ) → 8 ≤ k → 8 ≤ length m → pkg_len (take k m) ≡ pkg_len m
pkg_len-take k m h long =
    sym (pkg_len-append (take k m) (drop k m) (omega (arith, length-take k m)))
    ∙ ap pkg_len (take-append-drop k m)

packet-IsPacket :
    (code n crc : ℕ) (h : MsgHeader) → n ≤ 28992 → IsPacket (packet (make_reply code n crc h))
packet-IsPacket code n crc h small =
    let m = make_reply code n crc h in
    let e = pkg_len-reply code n crc h small in
    let l = length-reply code n crc h in
    let t = length-take (pkg_len m.pkg) m.pkg in
    record {
      long_enough = omega (arith, e, l, t);
      short_enough = omega (arith, e, l, t);
      says = omega (
        arith,
        e,
        l,
        t,
        pkg_len-take (pkg_len m.pkg) m.pkg (omega (arith, e)) (omega (arith, l)),
      );
    }

-- What the handlers put into the checksum field.
abbrev pub sum_of_zeros : ℕ → ℕ
sum_of_zeros n = if n == 0 then 0 else get_crc (replicate n 0)

is_crc_right-zeros :
    (h : List ℕ) (n : ℕ)
    → body_len h ≡ n
    → body_of h ≡ replicate n 0
    → crc_field h ≡ sum_of_zeros n % 2 ^ 32
    → is_crc_right h ≡ true
unfolding is_crc_right
is_crc_right-zeros h n e b f = elim (Bool-cases (n == 0)) [
  | inl none_there ↦ let z : crc_field h ≡ 0 = f ∙ rw none_there refl in rw (e, none_there, z) refl
  | inr some_there ↦
      let z : crc_field h ≡ get_crc (replicate n 0) % 2 ^ 32 = f ∙ rw some_there refl in
      rw (b, e, some_there, z) (==_refl (get_crc (replicate n 0) % 2 ^ 32))
]

-- A reply with a body of at most 28992 bytes, made as the handlers make it, is a packet of the
-- length it says, carries the code it was given, and passes the check of the checksum.
pub make_reply-accepted :
    (code n : ℕ) (h : MsgHeader)
    → n ≤ 28992
    → let m = make_reply code n (sum_of_zeros n) h in
      IsPacket (packet m)
      × (length (packet m) ≡ pkg_header_len + n)
      × (msg_code m.pkg ≡ code % 2 ^ 16)
      × (is_crc_right m.pkg ≡ true)
make_reply-accepted code n h small =
    let crc = sum_of_zeros n in
    let m = make_reply code n crc h in
    let e = pkg_len-reply code n crc h small in
    (
      packet-IsPacket code n crc h small,
      omega (arith, e, length-take (pkg_len m.pkg) m.pkg, length-reply code n crc h),
      msg_code-reply code n crc h,
      is_crc_right-zeros m.pkg n (omega (arith, e)) (body_of-reply code n crc h small)
          (crc_field-reply code n crc h),
    )
