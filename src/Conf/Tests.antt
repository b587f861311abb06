-- ===== src/Conf/Tests.antt =====
-- The configuration file: a sample, and lines that end the process.
use my_nignx.Prelude.{ℕ, List, [], ◌∷◌, ◌++◌, true, some, ◌≡◌, refl, arith, codes, pos, negsuc}
use my_nignx.Text.{decimal, ltrim, rtrim, rtrim_text}
use my_nignx.Conf.Layout.{
  Spacing, Entry, empty_line, comment, section, setting, print, items_of, IsName, IsValue,
  AllWellFormed,
}
use my_nignx.Conf.RoundTrip.{load-print}
use my_nignx.Conf.Numbers.{load-get_int}
use my_nignx.Conf.{
  ConfItem, fgets_all, read_line, read_lines, load, get_string, get_int, atoi, skip_spaces,
  digits_value,
}

abbrev sample : List ℕ
sample = codes "# net\n[Net]\n  ListenPort0 = 9000  # first\n\nName=x=y\r\nDebt = -7"

abbrev item : List ℕ → List ℕ → ConfItem
item n v = record { itemname = n; itemvalue = v }

abbrev items : List ConfItem
items =
    item (codes "ListenPort0") (codes "9000")
    ∷ item (codes "Name") (codes "x=y")
    ∷ item (codes "Debt") (codes "-7")
    ∷ []

load-sample : load (some sample) [] ≡ some (true, items)
unfolding load fgets_all read_lines read_line ltrim rtrim rtrim_text
load-sample = refl

get_sample :
    (get_int items (codes "ListenPort0") (pos 80) ≡ some (pos 9000))
    × (get_int items (codes "Debt") (pos 80) ≡ some (negsuc 6))
    × (get_int items (codes "Port") (pos 80) ≡ some (pos 80))
unfolding get_int get_string atoi skip_spaces digits_value
get_sample = (refl, refl, refl)

abbrev plain : Spacing
plain = record {
  indent = 1;
  before_sep = 1;
  after_sep = 1;
  after_value = 1;
  remark = some (codes "port");
}

abbrev port : ConfItem
port = item (codes "Port") (codes "9000")

abbrev before_port : List Entry
before_port = comment (codes " net") ∷ section (codes "Net]") ∷ empty_line ∷ []

abbrev entries : List Entry
entries = before_port ++ (setting port plain ∷ [])

port-IsName : IsName port.itemname
port-IsName = record {
  marked = refl;
  no_space = refl;
  no_blank = refl;
  no_null = ground arith;
  no_remark = ground arith;
  no_sep = ground arith;
}

port-IsValue : IsValue port.itemvalue
port-IsValue = record {
  no_space = refl;
  no_blank = refl;
  no_null = ground arith;
  no_remark = ground arith;
}

entries-AllWellFormed : AllWellFormed entries
entries-AllWellFormed = ground (arith, port-IsName, port-IsValue)

load-print_example : load (some (print entries)) items ≡ some (true, items ++ items_of entries)
load-print_example = load-print entries items entries-AllWellFormed

load-get_int_sample :
    (read : List ConfItem) × (load (some (print entries)) [] ≡ some (true, read))
    × (get_int read (codes "Port") (pos 80) ≡ some (pos 9000))
unfolding decimal
load-get_int_sample =
    load-get_int before_port [] port plain 9000 (pos 80) entries-AllWellFormed refl (omega arith) tt
