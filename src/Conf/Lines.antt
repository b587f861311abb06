-- ===== src/Conf/Lines.antt =====
-- What the loop of `Load` makes of one line.
use my_nignx.Prelude.{
  ℕ, ◌-◌, ◌<◌, ◌≡◌, ◌≢◌, refl, sym, ap, ◌∙◌, false, List, [], ◌∷◌, ◌++◌, append_assoc, Option, none,
  some, arith, length, lt→ltb, if◌then◌else◌, ◌==◌, leb,
}
use my_nignx.Text.{c_string, before, after, ltrim, rtrim_text, rtrim, or_null, trim_onto}
use my_nignx.Text.Trim.{
  Lacks, Lacks-append, spaces, spaces-Lacks, c_string_whole, before_mark, before_none, after_mark,
  ltrim-spaces, ltrim_same, rtrim_same, AllBlank-append, spaces-AllBlank, rtrim_blanks,
  rtrim-append_blanks, rtrim-append,
}
use my_nignx.Conf.{
  ConfItem, name_size, value_size, is_skipped, copied, make_item, read_item, read_line, chunk_size,
  fgets_all,
}
use my_nignx.Conf.Layout.{
  Spacing, Entry, empty_line, comment, section, setting, remark_text, core, entry_text, items_of,
  IsName, IsValue, IsRemark, IsShort, IsWellFormed,
}

pub fgets_line :
    (room : ℕ) (s rest : List ℕ)
    → Lacks b'\n' s
    → length s < room
    → fgets_all room (s ++ (b'\n' ∷ rest)) ≡ (s ++ (b'\n' ∷ [])) ∷ fgets_all chunk_size rest
unfolding fgets_all
fgets_line room [] rest h lt = refl
fgets_line room (b ∷ bs) rest h lt =
    let n : (b == b'\n') ≡ false = ground (arith, h.0) in
    let r : leb room 1 ≡ false = ground arith in
    rw (n, r, fgets_line (room - 1) bs rest h.1 (omega arith)) refl

-- What `Rtrim` leaves of the value with its spaces, up to the trimming on the left.
value_trimmed : (k : ℕ) (v : List ℕ) → IsValue v → ltrim (rtrim_text (spaces k ++ v)) ≡ v
value_trimmed k [] h =
    ap ltrim (rtrim_blanks (spaces k ++ []) (AllBlank-append (spaces k) [] (spaces-AllBlank k) tt))
    ∙ ltrim_same [] refl
value_trimmed k (b ∷ bs) h =
    ap ltrim (rtrim-append (spaces k) (b ∷ bs) b bs (rtrim_same (b ∷ bs) h.no_blank))
    ∙ ltrim-spaces k (b ∷ bs)
    ∙ ltrim_same (b ∷ bs) h.no_space

pub trim_onto_sep : (y : List ℕ) → trim_onto b'=' y ≡ b'=' ∷ y
trim_onto_sep [] = refl
trim_onto_sep (b ∷ bs) = refl

abbrev left : ConfItem → Spacing → List ℕ
left i p = i.itemname ++ spaces p.before_sep

abbrev right : ConfItem → Spacing → List ℕ
right i p = rtrim_text (spaces p.after_sep ++ i.itemvalue)

core_trimmed : (i : ConfItem) (p : Spacing) → rtrim_text (core i p) ≡ left i p ++ (b'=' ∷ right i p)
unfolding rtrim_text
core_trimmed i p =
    let x = spaces p.after_sep ++ i.itemvalue in
    ap rtrim_text (sym (append_assoc i.itemname (spaces p.before_sep) (b'=' ∷ x)))
    ∙ rtrim-append (left i p) (b'=' ∷ x) b'=' (rtrim_text x) (trim_onto_sep (rtrim_text x))

name_trimmed : (n : List ℕ) (k : ℕ) → IsName n → rtrim (n ++ spaces k) ≡ some n
unfolding rtrim
name_trimmed [] k h = cc h.marked
name_trimmed (b ∷ bs) k h =
    ap or_null
      (rtrim-append_blanks (b ∷ bs) (spaces k) (spaces-AllBlank k) ∙ rtrim_same (b ∷ bs) h.no_blank)

-- The item of two strings, if both fit.
abbrev pub item_made : ConfItem → Option (List ConfItem)
item_made i = make_item (copied value_size (some i.itemvalue)) (copied name_size (some i.itemname))

item_read :
    (i : ConfItem) (p : Spacing)
    → IsName i.itemname
    → IsValue i.itemvalue
    → let t = rtrim_text (core i p) in read_item t (after b'=' t) ≡ item_made i
item_read i p n v =
    let no_sep : Lacks b'=' (left i p) =
      Lacks-append b'=' i.itemname (spaces p.before_sep) n.no_sep
        (spaces-Lacks b'=' p.before_sep (λ e. omega arith)) in
    rw
      (
        core_trimmed i p,
        after_mark b'=' (left i p) (right i p) no_sep,
        before_mark b'=' (left i p) (right i p) no_sep,
        value_trimmed p.after_sep i.itemvalue v,
        name_trimmed i.itemname p.before_sep n,
      )
      refl

-- The text behind the value, to the end of the line.
abbrev tail_text : Spacing → List ℕ
tail_text p = spaces p.after_value ++ (remark_text p.remark ++ (b'\n' ∷ []))

remark_cut :
    (s : List ℕ) (m : ℕ) (r : Option (List ℕ))
    → Lacks b'#' s
    → rtrim_text (before b'#' (s ++ (spaces m ++ (remark_text r ++ (b'\n' ∷ []))))) ≡ rtrim_text s
remark_cut s m none h =
    let end : List ℕ = spaces m ++ (b'\n' ∷ []) in
    let free : Lacks b'#' (s ++ end) = Lacks-append b'#' s end h (
      Lacks-append b'#' (spaces m) (b'\n' ∷ []) (spaces-Lacks b'#' m (λ e. omega arith))
        (λ e. omega arith, tt)) in
    ap rtrim_text (before_none b'#' (s ++ end) free)
    ∙ rtrim-append_blanks s end
        (AllBlank-append (spaces m) (b'\n' ∷ []) (spaces-AllBlank m) (refl, tt))
remark_cut s m (some t) h =
    let free : Lacks b'#' (s ++ spaces m) =
      Lacks-append b'#' s (spaces m) h (spaces-Lacks b'#' m (λ e. omega arith)) in
    ap (λ x. rtrim_text (before b'#' x))
      (sym (append_assoc s (spaces m) (b'#' ∷ (t ++ (b'\n' ∷ [])))))
    ∙ ap rtrim_text (before_mark b'#' (s ++ spaces m) (t ++ (b'\n' ∷ [])) free)
    ∙ rtrim-append_blanks s (spaces m) (spaces-AllBlank m)

core-Lacks :
    (m : ℕ) (i : ConfItem) (p : Spacing)
    → m ≢ b' '
    → b'=' ≢ m
    → Lacks m i.itemname
    → Lacks m i.itemvalue
    → Lacks m (core i p)
core-Lacks m i p no_space no_sep n v =
    let rest = spaces p.after_sep ++ i.itemvalue in
    Lacks-append m i.itemname (spaces p.before_sep ++ (b'=' ∷ rest)) n (
      Lacks-append m (spaces p.before_sep) (b'=' ∷ rest) (spaces-Lacks m p.before_sep no_space) (
        no_sep,
        Lacks-append m (spaces p.after_sep) i.itemvalue (spaces-Lacks m p.after_sep no_space) v,
      ))

remark-Lacks : (r : Option (List ℕ)) → IsRemark r → Lacks 0 (remark_text r)
remark-Lacks none h = tt
remark-Lacks (some t) h = (λ e. omega arith, h)

-- A name opens a line that holds an item.
opens :
    (n y x : List ℕ)
    → IsName n
    → (ltrim ((n ++ y) ++ x) ≡ (n ++ y) ++ x) × (is_skipped ((n ++ y) ++ x) ≡ false)
opens [] y x h = cc h.marked
opens (b ∷ bs) y x h = (ltrim_same (b ∷ ((bs ++ y) ++ x)) h.no_space, h.marked)

line_shape :
    (i : ConfItem) (p : Spacing)
    → entry_text (setting i p) ++ (b'\n' ∷ []) ≡ spaces p.indent ++ (core i p ++ tail_text p)
line_shape i p =
    let c = core i p in
    let m = spaces p.after_value in
    let r = remark_text p.remark in
    let end : List ℕ = b'\n' ∷ [] in
    append_assoc (spaces p.indent) (c ++ (m ++ r)) end
    ∙ ap (λ x. spaces p.indent ++ x) (append_assoc c (m ++ r) end)
    ∙ ap (λ x. spaces p.indent ++ (c ++ x)) (append_assoc m r end)

line-Lacks :
    (i : ConfItem) (p : Spacing)
    → IsName i.itemname
    → IsValue i.itemvalue
    → IsRemark p.remark
    → Lacks 0 (spaces p.indent ++ (core i p ++ tail_text p))
line-Lacks i p n v r =
    let end : List ℕ = b'\n' ∷ [] in
    let rem = remark_text p.remark in
    Lacks-append 0 (spaces p.indent) (core i p ++ tail_text p)
      (spaces-Lacks 0 p.indent (λ e. omega arith))
      (Lacks-append 0 (core i p) (tail_text p)
        (core-Lacks 0 i p (λ e. omega arith) (λ e. omega arith) n.no_null v.no_null)
        (Lacks-append 0 (spaces p.after_value) (rem ++ end)
          (spaces-Lacks 0 p.after_value (λ e. omega arith))
          (Lacks-append 0 rem end (remark-Lacks p.remark r) (λ e. omega arith, tt))))

-- What is made of a line without its leading spaces.
abbrev read_body : List ℕ → Option (List ConfItem)
read_body s =
    let t = rtrim_text (before b'#' s) in
    if is_skipped s then some [] else read_item t (after b'=' t)

-- Spaces and a remark do not matter to a line.
pub setting_read :
    (i : ConfItem) (p : Spacing)
    → IsName i.itemname
    → IsValue i.itemvalue
    → IsRemark p.remark
    → read_line (entry_text (setting i p) ++ (b'\n' ∷ [])) ≡ item_made i
unfolding read_line
setting_read i p n v r =
    let s = core i p ++ tail_text p in
    let y = spaces p.before_sep ++ (b'=' ∷ (spaces p.after_sep ++ i.itemvalue)) in
    let o = opens i.itemname y (tail_text p) n in
    let free = core-Lacks b'#' i p (λ e. omega arith) (λ e. omega arith) n.no_remark v.no_remark in
    ap (λ l. read_body (ltrim (c_string l))) (line_shape i p)
    ∙ ap (λ l. read_body (ltrim l)) (c_string_whole (spaces p.indent ++ s) (line-Lacks i p n v r))
    ∙ ap read_body (ltrim-spaces p.indent s ∙ o.0)
    ∙ rw (o.1, remark_cut (core i p) p.after_value p.remark free) (item_read i p n v)

item_fits : (i : ConfItem) → IsShort i → item_made i ≡ some (i ∷ [])
item_fits i h =
    rw (lt→ltb (length i.itemname) name_size h.0, lt→ltb (length i.itemvalue) value_size h.1) refl

-- The line of an entry gives its item, if it has one.
pub read_line_lem :
    (e : Entry)
    → IsWellFormed e
    → read_line (entry_text e ++ (b'\n' ∷ [])) ≡ some (items_of (e ∷ []))
unfolding read_line
read_line_lem empty_line h = refl
read_line_lem (comment t) h = refl
read_line_lem (section t) h = refl
read_line_lem (setting i p) h = setting_read i p h.0 h.1 h.2 ∙ item_fits i h.3
