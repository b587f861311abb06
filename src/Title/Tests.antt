-- ===== src/Title/Tests.antt =====
-- The titles of a process with one argument and a small environment, or none.
use my_nignx.Prelude.{
  ℕ, ◌≡◌, refl, ◌++◌, true, [], ◌∷◌, List, none, some, arith, length, replicate, codes,
}
use my_nignx.Title.{
  read_string, Copies, init_setproctitle, Area, setproctitle, until_nul, master_title,
}
use my_nignx.Title.Strings.{IsString, Reads, init_setproctitle-Reads, setproctitle-read_string}
use my_nignx.Title.Master.{title_of, master_title-title_of}

abbrev program : List ℕ
program = codes "./nginx"

abbrev home : List ℕ
home = codes "HOME=/root"

program-IsString : IsString program
program-IsString = ground arith

home-IsString : IsString home
home-IsString = ground arith

init_setproctitle-Reads_example :
    (c : Copies) × (init_setproctitle (home ∷ []) (program ∷ []) ≡ some c)
    × Reads c.envmem c.environ (home ∷ [])
    × Reads c.argmem c.argv (program ∷ [])
init_setproctitle-Reads_example =
    init_setproctitle-Reads (home ∷ []) (program ∷ []) (home-IsString, tt) (program-IsString, tt)

abbrev area : Area
area = record { block = replicate 19 7; one_argument = true }

worker-IsString : IsString (codes "worker process")
worker-IsString = ground arith

setproctitle-read_string_sample :
    (b : Area) × (setproctitle (codes "worker process") 19 area ≡ some b)
    × (b.block ≡ codes "worker process" ++ replicate 5 0)
    × (length b.block ≡ 19)
    × (read_string b.block 0 ≡ codes "worker process")
    × (b.one_argument ≡ true)
setproctitle-read_string_sample =
    setproctitle-read_string (codes "worker process") area worker-IsString (omega arith)

-- Without an environment the array has 8 bytes.
master_title-title_of_example : master_title 8 (program ∷ []) ≡ none
master_title-title_of_example = master_title-title_of 8 (program ∷ []) (program-IsString, tt)

with_home : read_string (title_of (program ∷ []) ++ (0 ∷ [])) 0 ≡ codes "master process ./nginx"
unfolding until_nul
with_home = refl
