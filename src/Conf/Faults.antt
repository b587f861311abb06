-- ===== src/Conf/Faults.antt =====
-- Lines on which `Load` is undefined: no name before the separator, or a name or value that does
-- not fit its array.
use my_nignx.Prelude.{ℕ, ◌≤◌, List, ◌∷◌, ◌++◌, length}
use my_nignx.Text.Trim.{spaces}
use my_nignx.Conf.{ConfItem, name_size, value_size}
use my_nignx.Conf.Layout.{Spacing, setting, entry_text, IsName, IsValue, IsRemark}

pub data IsFatal : List ℕ → Type 0 where
  nameless : (k : ℕ) (v : List ℕ) → IsFatal (spaces k ++ (b'=' ∷ v))
  long_name :
      (i : ConfItem) (p : Spacing)
      → IsName i.itemname
      → IsValue i.itemvalue
      → IsRemark p.remark
      → name_size ≤ length i.itemname
      → IsFatal (entry_text (setting i p))
  long_value :
      (i : ConfItem) (p : Spacing)
      → IsName i.itemname
      → IsValue i.itemvalue
      → IsRemark p.remark
      → value_size ≤ length i.itemvalue
      → IsFatal (entry_text (setting i p))
