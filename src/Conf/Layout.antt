-- ===== src/Conf/Layout.antt =====
-- What a configuration file may look like: its entries, and the text of each.
use my_nignx.Prelude.{ℕ, ◌<◌, ◌≡◌, false, List, [], ◌∷◌, ◌++◌, Option, none, some, length}
use my_nignx.Text.Trim.{Lacks, spaces, starts_with_space, ends_blank}
use my_nignx.Conf.{ConfItem, name_size, value_size, chunk_size, is_skipped}

-- The spaces before the name, around the separator and after the value, and a remark.
pub record Spacing : Type 0 where
  pub indent : ℕ
  pub before_sep : ℕ
  pub after_sep : ℕ
  pub after_value : ℕ
  pub remark : Option (List ℕ)

pub data Entry : Type 0 where
  empty_line : Entry
  comment : List ℕ → Entry
  section : List ℕ → Entry
  setting : ConfItem → Spacing → Entry

abbrev pub remark_text : Option (List ℕ) → List ℕ
remark_text none = []
remark_text (some t) = b'#' ∷ t

-- Name, separator and value.
abbrev pub core : ConfItem → Spacing → List ℕ
core i p = i.itemname ++ (spaces p.before_sep ++ (b'=' ∷ (spaces p.after_sep ++ i.itemvalue)))

abbrev pub entry_text : Entry → List ℕ
entry_text empty_line = []
entry_text (comment t) = b'#' ∷ t
entry_text (section t) = b'[' ∷ t
entry_text (setting i p) =
    spaces p.indent ++ (core i p ++ (spaces p.after_value ++ remark_text p.remark))

abbrev pub print : List Entry → List ℕ
print [] = []
print (e ∷ es) = entry_text e ++ (b'\n' ∷ print es)

abbrev pub items_of : List Entry → List ConfItem
items_of [] = []
items_of (setting i p ∷ es) = i ∷ items_of es
items_of (empty_line ∷ es) = items_of es
items_of (comment t ∷ es) = items_of es
items_of (section t ∷ es) = items_of es

-- A name that stays itself on its line, however long.
pub record IsName (n : List ℕ) : Type 0 where
  pub marked : is_skipped n ≡ false
  pub no_space : starts_with_space n ≡ false
  pub no_blank : ends_blank n ≡ false
  pub no_null : Lacks 0 n
  pub no_remark : Lacks b'#' n
  pub no_sep : Lacks b'=' n

-- A value that does: it may be empty, and may hold the separator.
pub record IsValue (v : List ℕ) : Type 0 where
  pub no_space : starts_with_space v ≡ false
  pub no_blank : ends_blank v ≡ false
  pub no_null : Lacks 0 v
  pub no_remark : Lacks b'#' v

abbrev pub IsRemark : Option (List ℕ) → Type 0
IsRemark none = Unit
IsRemark (some t) = Lacks 0 t

-- Both fit their arrays.
abbrev pub IsShort : ConfItem → Type 0
IsShort i = (length i.itemname < name_size) × (length i.itemvalue < value_size)

abbrev pub IsWellFormed : Entry → Type 0
IsWellFormed empty_line = Unit
IsWellFormed (comment t) = Unit
IsWellFormed (section t) = Unit
IsWellFormed (setting i p) = IsName i.itemname × IsValue i.itemvalue × IsRemark p.remark × IsShort i

-- Every entry is one line, short enough for one `fgets`.
abbrev pub AllWellFormed : List Entry → Type 0
AllWellFormed [] = Unit {0}
AllWellFormed (e ∷ es) =
    (IsWellFormed e × Lacks b'\n' (entry_text e) × (length (entry_text e) < chunk_size))
    × AllWellFormed es
