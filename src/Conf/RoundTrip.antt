-- ===== src/Conf/RoundTrip.antt =====
-- A configuration file of entries is read back as its items, and what ends the reading.
use my_nignx.Prelude.{ℕ, ◌≡◌, refl, ap, ◌∙◌, true, List, [], ◌∷◌, ◌++◌, Option, some}
use my_nignx.Conf.{ConfItem, chunk_size, fgets_all, joined, read_lines, loaded, load}
use my_nignx.Conf.Layout.{
  Entry, empty_line, comment, section, setting, entry_text, print, items_of, AllWellFormed,
}
use my_nignx.Conf.Lines.{fgets_line, read_line_lem}

joined_items : (e : Entry) (es : List Entry) → items_of (e ∷ []) ++ items_of es ≡ items_of (e ∷ es)
joined_items empty_line es = refl
joined_items (comment t) es = refl
joined_items (section t) es = refl
joined_items (setting i p) es = refl

abbrev pub read_file : List ℕ → Option (List ConfItem)
read_file file = read_lines (fgets_all chunk_size file)

-- Entries in front of anything.
pub read_entry :
    (e : Entry) (es : List Entry) (rest : List ℕ)
    → AllWellFormed (e ∷ es)
    → read_file (entry_text e ++ (b'\n' ∷ rest))
      ≡ joined (some (items_of (e ∷ []))) (read_file rest)
unfolding read_lines
read_entry e es rest ((wf, one_line, short), _) =
    ap read_lines (fgets_line chunk_size (entry_text e) rest one_line short)
    ∙ ap (λ r. joined r (read_file rest)) (read_line_lem e wf)

file_read : (es : List Entry) → AllWellFormed es → read_file (print es) ≡ some (items_of es)
unfolding read_lines fgets_all
file_read [] h = refl
file_read (e ∷ es) h =
    read_entry e es (print es) h
    ∙ ap (joined (some (items_of (e ∷ [])))) (file_read es h.1)
    ∙ ap some (joined_items e es)

-- A file made of settings, comments, section lines and empty lines, each a line short enough, is
-- loaded as the items of its settings, in their order, behind those that are there: whatever spaces
-- stand around names and values, and whatever remarks behind them.
pub load-print :
    (es : List Entry) (items : List ConfItem)
    → AllWellFormed es
    → load (some (print es)) items ≡ some (true, items ++ items_of es)
unfolding load
load-print es items h = ap (loaded items) (file_read es h)
